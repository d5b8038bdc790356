-- ===== src/RateLimit/Script/Reach.antt =====
-- The store over any sequence of steps: requests for one API key on one subnet, requests for other
-- keys, and the passage of time, which may remove keys.
use tao_gateway.Base.{
  ℕ, ◌≤◌, ◌≡◌, ◌≢◌, ◌⊎◌, inl, inr, String, false, none, arith, string_eq, Bool-cases,
}
use tao_gateway.Base.Int.{negsuc}
use tao_gateway.RateLimit.Limits.{Limits}
use tao_gateway.RateLimit.Store.{CounterStore, or_zero}
use tao_gateway.RateLimit.Script.{Keys, rate_limit, admit, deny, is_denied}
use tao_gateway.RateLimit.Script.Effect.{
  IsDistinct, IsApart, IsPositive, get-admit, get-admit_apart,
}
use tao_gateway.RateLimit.Script.Expiry.{IsExpiring, admit-IsExpiring, ttl-admit_apart}

pub record IsDisjoint (a b : Keys) : Type 0 where
  pub minute : IsApart a b.minute
  pub day : IsApart a b.day
  pub month : IsApart a b.month

module _ (r : CounterStore) where
  open r use {State, get, ttl}

  -- From outside: the key expires, or it stays with its counter, and an expiry is not dropped.
  abbrev pub Stays : String → State → State → Type 0
  Stays j s t =
      (get j t ≡ none) ⊎ ((get j t ≡ get j s) × ((ttl j s ≡ negsuc 0) ⊎ (ttl j t ≢ negsuc 0)))

  -- Time passes, or the store serves others.
  pub record Elapses (ks : Keys) (s t : State) : Type 0 where
    pub minute : Stays ks.minute s t
    pub day : Stays ks.day s t
    pub month : Stays ks.month s t

  pub data Step (ks : Keys) (limits windows : Limits) : State → State → Type 0 where
    request : (s : State) → Step ks limits windows s (rate_limit r ks limits windows s).1
    elapse : {s t : State} → Elapses ks s t → Step ks limits windows s t

  pub data Reach (ks : Keys) (limits windows : Limits) (s : State) : State → Type 0 where
    here : Reach ks limits windows s s
    next :
        {t u : State}
        → Reach ks limits windows s t
        → Step ks limits windows t u
        → Reach ks limits windows s u

  -- No counter is above its limit, and each one that is there expires.
  pub record IsSound (ks : Keys) (limits : Limits) (s : State) : Type 0 where
    pub minute_le : or_zero (get ks.minute s) ≤ limits.minute
    pub day_le : or_zero (get ks.day s) ≤ limits.day
    pub month_le : or_zero (get ks.month s) ≤ limits.month
    pub minute_expires : IsExpiring r ks.minute s
    pub day_expires : IsExpiring r ks.day s
    pub month_expires : IsExpiring r ks.month s

  elapse_count :
      (j : String) (s t : State) (n : ℕ)
      → Stays j s t
      → or_zero (get j s) ≤ n
      → or_zero (get j t) ≤ n
  elapse_count j s t n e h = ground arith

  elapse_expires : (j : String) (s t : State) → Stays j s t → IsExpiring r j s → IsExpiring r j t
  elapse_expires j s t e h = ground arith

  module _ (ks : Keys) (limits windows : Limits) (d : IsDistinct ks) (p : IsPositive windows) where
    admit-IsSound :
        (s : State)
        → is_denied r ks limits s ≡ false
        → IsSound ks limits s
        → IsSound ks limits (admit r ks windows s).1
    admit-IsSound s free h =
        let g = get-admit r ks windows s d p in
        let e =
          admit-IsExpiring r ks windows s p d h.minute_expires h.day_expires h.month_expires in
        record {
          minute_le = rw g.0 (ground arith);
          day_le = rw g.1 (ground arith);
          month_le = rw g.2 (ground arith);
          minute_expires = e.0;
          day_expires = e.1;
          month_expires = e.2;
        }

    rate_limit-IsSound :
        (s : State) → IsSound ks limits s → IsSound ks limits (rate_limit r ks limits windows s).1
    unfolding rate_limit deny
    rate_limit-IsSound s h = elim (Bool-cases (is_denied r ks limits s)) [
      | inl denied ↦ rw denied h
      | inr free ↦ rw free (admit-IsSound s free h)
    ]

    Step-IsSound :
        {s t : State} → Step ks limits windows s t → IsSound ks limits s → IsSound ks limits t
    Step-IsSound (request s) h = rate_limit-IsSound s h
    Step-IsSound (elapse {s} {t} e) h = record {
      minute_le = elapse_count ks.minute s t _ e.minute h.minute_le;
      day_le = elapse_count ks.day s t _ e.day h.day_le;
      month_le = elapse_count ks.month s t _ e.month h.month_le;
      minute_expires = elapse_expires ks.minute s t e.minute h.minute_expires;
      day_expires = elapse_expires ks.day s t e.day h.day_expires;
      month_expires = elapse_expires ks.month s t e.month h.month_expires;
    }

    -- Over any sequence of requests and any passage of time, no counter passes its limit, and every
    -- counter that is there has an expiry, if that held at the start.
    pub Reach-IsSound :
        {s t : State} → IsSound ks limits s → Reach ks limits windows s t → IsSound ks limits t
    Reach-IsSound h here = h
    Reach-IsSound h (next steps step) = Step-IsSound step (Reach-IsSound h steps)

  denied_Stays : (j : String) (s : State) → IsExpiring r j s → Stays j s s
  denied_Stays j s x = ground arith

  Stays-admit :
      (ks : Keys) (w : Limits) (j : String) (s : State)
      → IsDistinct ks
      → IsPositive w
      → IsApart ks j
      → IsExpiring r j s
      → Stays j s (admit r ks w s).1
  Stays-admit ks w j s d p a x =
      ground (arith, get-admit_apart r ks w j s a p, ttl-admit_apart r ks w j s d a p)

  -- A request with three other keys is such a step from outside.
  pub rate_limit-Elapses :
      (ks other : Keys) (limits l w : Limits) (s : State)
      → IsDistinct other
      → IsPositive w
      → IsDisjoint other ks
      → IsSound ks limits s
      → Elapses ks s (rate_limit r other l w s).1
  unfolding rate_limit deny
  rate_limit-Elapses ks other limits l w s d p a h = elim (Bool-cases (is_denied r other l s)) [
    | inl denied ↦ rw denied (record {
      minute = denied_Stays ks.minute s h.minute_expires;
      day = denied_Stays ks.day s h.day_expires;
      month = denied_Stays ks.month s h.month_expires;
    })
    | inr free ↦ rw free (record {
      minute = Stays-admit other w ks.minute s d p a.minute h.minute_expires;
      day = Stays-admit other w ks.day s d p a.day h.day_expires;
      month = Stays-admit other w ks.month s d p a.month h.month_expires;
    })
  ]
