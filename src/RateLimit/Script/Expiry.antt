-- ===== src/RateLimit/Script/Expiry.antt =====
-- No counter of the rate limit script is left without an expiry.
use tao_gateway.Base.{
  ℕ, ◌+◌, ◌≤◌, ◌<◌, ◌≡◌, ◌∙◌, ◌≢◌, ◌⊎◌, inl, inr, String, false, none, some, arith, eq_iff,
  string_eq, ◌==◌,
}
use tao_gateway.Base.Int.{negsuc}
use tao_gateway.Base.Dict.{beq_self}
use tao_gateway.RateLimit.Limits.{Limits}
use tao_gateway.RateLimit.Store.{CounterStore, or_zero}
use tao_gateway.RateLimit.Script.{Keys, admit, expire_new}
use tao_gateway.RateLimit.Script.Effect.{
  IsDistinct, IsApart, IsPositive, incr3, expire3, state-admit, counts-admit, get-admit,
  get-expire_new, get-incr3_minute, get-incr3_day, get-incr3_month,
}

module _ (r : CounterStore) where
  open r use {State, get, incr, expire, ttl}

  -- The key is absent, or its counter is at least 1 and expires.
  abbrev pub IsExpiring : String → State → Type 0
  IsExpiring j s = (get j s ≡ none) ⊎ ((1 ≤ or_zero (get j s)) × (ttl j s ≢ negsuc 0))

  incr_keeps :
      (k j : String) (s : State)
      → get j s ≢ none
      → ttl j s ≢ negsuc 0
      → (get j (incr k s).1 ≢ none) × (ttl j (incr k s).1 ≢ negsuc 0)
  incr_keeps k j s g t = ground (arith, eq_iff k j, r.get-incr k j s, r.ttl-incr k j s)

  expire_new_keeps :
      (c : ℕ) (k j : String) (w : ℕ) (s : State)
      → 0 < w
      → get k s ≢ none
      → ttl j s ≢ negsuc 0
      → ttl j (expire_new r c k w s) ≢ negsuc 0
  expire_new_keeps c k j w s p g t = ground (arith, r.ttl-expire k j w s g)

  expire_new_apart :
      (c : ℕ) (k j : String) (w : ℕ) (s : State)
      → 0 < w
      → get k s ≢ none
      → (k == j) ≡ false
      → ttl j (expire_new r c k w s) ≡ ttl j s
  expire_new_apart c k j w s p g a = ground (arith, r.ttl-expire k j w s g)

  ttl-incr3_apart :
      (ks : Keys) (j : String) (s : State) → IsApart ks j → ttl j (incr3 r ks s) ≡ ttl j s
  ttl-incr3_apart ks j s a = simp (r.ttl-incr, a.minute, a.day, a.month)

  expire_new_self :
      (c : ℕ) (k : String) (w : ℕ) (s : State)
      → c ≡ 1
      → get k s ≢ none
      → ttl k (expire_new r c k w s) ≢ negsuc 0
  expire_new_self c k w s e g = ground (arith, r.ttl-expire k k w s g, beq_self k)

  incr3_keeps :
      (ks : Keys) (j : String) (s : State)
      → get j s ≢ none
      → ttl j s ≢ negsuc 0
      → ttl j (incr3 r ks s) ≢ negsuc 0
  incr3_keeps ks j s g t =
      let a = incr_keeps ks.minute j s g t in
      let b = incr_keeps ks.day j _ a.0 a.1 in (incr_keeps ks.month j _ b.0 b.1).1

  -- The three counters are there.
  abbrev HasCounters : Keys → State → Type 0
  HasCounters ks s = (get ks.minute s ≢ none) × (get ks.day s ≢ none) × (get ks.month s ≢ none)

  HasCounters-expire_new :
      (ks : Keys) (c : ℕ) (k : String) (w : ℕ) (s : State)
      → 0 < w
      → HasCounters ks s
      → HasCounters ks (expire_new r c k w s)
  HasCounters-expire_new ks c k w s p h = (
    rw (get-expire_new r c k ks.minute w s p) h.0,
    rw (get-expire_new r c k ks.day w s p) h.1,
    rw (get-expire_new r c k ks.month w s p) h.2,
  )

  HasCounters-incr3 : (ks : Keys) (s : State) → IsDistinct ks → HasCounters ks (incr3 r ks s)
  HasCounters-incr3 ks s d = (
    rw (get-incr3_minute r ks s d) (cc),
    rw (get-incr3_day r ks s d) (cc),
    rw (get-incr3_month r ks s d) (cc),
  )

  module _ (ks : Keys) (w : Limits) (p : IsPositive w) (m d n : ℕ) (s : State)
      (h : HasCounters ks s) where
    after_minute : State
    after_minute = expire_new r m ks.minute w.minute s

    after_day : State
    unfolding after_minute
    after_day = expire_new r d ks.day w.day after_minute

    HasCounters-after_minute : HasCounters ks after_minute
    unfolding after_minute
    HasCounters-after_minute = HasCounters-expire_new ks m ks.minute w.minute s p.minute h

    HasCounters-after_day : HasCounters ks after_day
    unfolding after_day
    HasCounters-after_day =
        HasCounters-expire_new ks d ks.day w.day after_minute p.day HasCounters-after_minute

    -- An expiry that is there stays, and one is set for each counter that is 1.
    pub expire3_keeps :
        (j : String) → ttl j s ≢ negsuc 0 → ttl j (expire3 r m d n ks w s) ≢ negsuc 0
    unfolding after_day
    expire3_keeps j t =
        expire_new_keeps n ks.month j w.month after_day p.month HasCounters-after_day.2 (
          expire_new_keeps d ks.day j w.day after_minute p.day HasCounters-after_minute.1
            (expire_new_keeps m ks.minute j w.minute s p.minute h.0 t))

    pub expire3_apart : (j : String) → IsApart ks j → ttl j (expire3 r m d n ks w s) ≡ ttl j s
    unfolding after_day
    expire3_apart j a =
        expire_new_apart n ks.month j w.month after_day p.month HasCounters-after_day.2 a.month
        ∙ expire_new_apart d ks.day j w.day after_minute p.day HasCounters-after_minute.1 a.day
        ∙ expire_new_apart m ks.minute j w.minute s p.minute h.0 a.minute

    pub expire3_minute : m ≡ 1 → ttl ks.minute (expire3 r m d n ks w s) ≢ negsuc 0
    unfolding after_day
    expire3_minute e =
        expire_new_keeps n ks.month ks.minute w.month after_day p.month HasCounters-after_day.2 (
          expire_new_keeps d ks.day ks.minute w.day after_minute p.day HasCounters-after_minute.1
            (expire_new_self m ks.minute w.minute s e h.0))

    pub expire3_day : d ≡ 1 → ttl ks.day (expire3 r m d n ks w s) ≢ negsuc 0
    unfolding after_day
    expire3_day e =
        expire_new_keeps n ks.month ks.day w.month after_day p.month HasCounters-after_day.2
          (expire_new_self d ks.day w.day after_minute e HasCounters-after_minute.1)

    pub expire3_month : n ≡ 1 → ttl ks.month (expire3 r m d n ks w s) ≢ negsuc 0
    unfolding after_day
    expire3_month e = expire_new_self n ks.month w.month after_day e HasCounters-after_day.2

  -- A counter of an admitted request: `fresh` sets the expiry of a counter that is new.
  counter_expires :
      (ks : Keys) (w : Limits) (j : String) (c : ℕ) (s : State)
      → IsPositive w
      → IsDistinct ks
      → get j (admit r ks w s).1 ≡ some (or_zero (get j s) + 1)
      → c ≡ or_zero (get j s) + 1
      → (c ≡ 1 → ttl j (admit r ks w s).1 ≢ negsuc 0)
      → IsExpiring j s
      → IsExpiring j (admit r ks w s).1
  counter_expires ks w j c s p d g e fresh (inl absent) =
      inr (rw g (omega arith), fresh (ground (arith, absent, e)))
  counter_expires ks w j c s p d g e fresh (inr (pos_count, t)) = inr (
    rw g (omega arith),
    rw state-admit (
        let a = (admit r ks w s).0 in
        expire3_keeps ks w p a.minute_count a.day_count a.month_count _ (HasCounters-incr3 ks s d) j
          (incr3_keeps ks j s (ground arith) t)),
  )

  -- An admitted request leaves each of its counters with an expiry.
  pub admit-IsExpiring :
      (ks : Keys) (w : Limits) (s : State)
      → IsPositive w
      → IsDistinct ks
      → IsExpiring ks.minute s
      → IsExpiring ks.day s
      → IsExpiring ks.month s
      → IsExpiring ks.minute (admit r ks w s).1
        × IsExpiring ks.day (admit r ks w s).1
        × IsExpiring ks.month (admit r ks w s).1
  admit-IsExpiring ks w s p d hm hd hn =
      let a = (admit r ks w s).0 in
      let g = get-admit r ks w s d p in
      let c = counts-admit r ks w s d in
      let h = HasCounters-incr3 ks s d in
      (
        counter_expires ks w ks.minute _ s p d g.0 c.0
            (λ e.
              rw state-admit (expire3_minute ks w p a.minute_count a.day_count a.month_count _ h e))
            hm,
        counter_expires ks w ks.day _ s p d g.1 c.1
            (λ e.
              rw state-admit (expire3_day ks w p a.minute_count a.day_count a.month_count _ h e))
            hd,
        counter_expires ks w ks.month _ s p d g.2 c.2
            (λ e.
              rw state-admit (expire3_month ks w p a.minute_count a.day_count a.month_count _ h e))
            hn,
      )

  -- The expiry of every other key is left as it is.
  pub ttl-admit_apart :
      (ks : Keys) (w : Limits) (j : String) (s : State)
      → IsDistinct ks
      → IsApart ks j
      → IsPositive w
      → ttl j (admit r ks w s).1 ≡ ttl j s
  ttl-admit_apart ks w j s d a p =
      let c = (admit r ks w s).0 in
      rw state-admit (
        expire3_apart ks w p c.minute_count c.day_count c.month_count _ (HasCounters-incr3 ks s d) j
          a
        ∙ ttl-incr3_apart ks j s a)
