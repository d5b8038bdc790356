-- ===== src/RateLimit/Script/Effect.antt =====
-- The effect of the rate limit script on each counter and its expiry.
use tao_gateway.Base.{
  ℕ, ◌+◌, ◌<◌, ◌≡◌, refl, ◌≢◌, inl, inr, String, false, some, arith, nat_beq, str_append, eq_iff,
  string_eq, ◌==◌, Bool-cases,
}
use text.Mathlib.TextLemmas.{append_cancel_left}
use tao_gateway.Base.Dict.{beq_self}
use tao_gateway.RateLimit.Limits.{Limits}
use tao_gateway.RateLimit.Store.{CounterStore, or_zero}
use tao_gateway.RateLimit.Script.{Keys, keys_of, admit, expire_new}

-- No two of the three keys are one.
pub record IsDistinct (ks : Keys) : Type 0 where
  pub minute_day : (ks.minute == ks.day) ≡ false
  pub minute_month : (ks.minute == ks.month) ≡ false
  pub day_minute : (ks.day == ks.minute) ≡ false
  pub day_month : (ks.day == ks.month) ≡ false
  pub month_minute : (ks.month == ks.minute) ≡ false
  pub month_day : (ks.month == ks.day) ≡ false

-- The key `j` is none of the three.
pub record IsApart (ks : Keys) (j : String) : Type 0 where
  pub minute : (ks.minute == j) ≡ false
  pub day : (ks.day == j) ≡ false
  pub month : (ks.month == j) ≡ false

pub record IsPositive (windows : Limits) : Type 0 where
  pub minute : 0 < windows.minute
  pub day : 0 < windows.day
  pub month : 0 < windows.month

module _ (r : CounterStore) where
  open r use {State, get, incr, expire, ttl}

  abbrev pub incr3 : Keys → State → State
  incr3 ks s = (incr ks.month (incr ks.day (incr ks.minute s).1).1).1

  abbrev pub expire3 : ℕ → ℕ → ℕ → Keys → Limits → State → State
  expire3 m d n ks w s =
      expire_new r n ks.month w.month
        (expire_new r d ks.day w.day (expire_new r m ks.minute w.minute s))

  pub get-incr3_apart :
      (ks : Keys) (j : String) (s : State) → IsApart ks j → get j (incr3 ks s) ≡ get j s
  get-incr3_apart ks j s a = simp (r.get-incr, a.minute, a.day, a.month)

  pub get-incr3_minute :
      (ks : Keys) (s : State)
      → IsDistinct ks
      → get ks.minute (incr3 ks s) ≡ some (or_zero (get ks.minute s) + 1)
  get-incr3_minute ks s d = simp (r.get-incr, d.day_minute, d.month_minute, beq_self)

  pub get-incr3_day :
      (ks : Keys) (s : State)
      → IsDistinct ks
      → get ks.day (incr3 ks s) ≡ some (or_zero (get ks.day s) + 1)
  get-incr3_day ks s d = simp (r.get-incr, d.minute_day, d.month_day, beq_self)

  pub get-incr3_month :
      (ks : Keys) (s : State)
      → IsDistinct ks
      → get ks.month (incr3 ks s) ≡ some (or_zero (get ks.month s) + 1)
  get-incr3_month ks s d = simp (r.get-incr, d.minute_month, d.day_month, beq_self)

  pub get-expire_new :
      (c : ℕ) (k j : String) (w : ℕ) (s : State) → 0 < w → get j (expire_new r c k w s) ≡ get j s
  get-expire_new c k j w s p = elim (Bool-cases (nat_beq c 1)) [
    | inl h ↦ rw h (r.get-expire k j w s p)
    | inr h ↦ rw h
  ]

  get-expire3 :
      (m d n : ℕ) (ks : Keys) (w : Limits) (j : String) (s : State)
      → IsPositive w
      → get j (expire3 m d n ks w s) ≡ get j s
  get-expire3 m d n ks w j s p = cc (
    get-expire_new n ks.month j w.month _ p.month,
    get-expire_new d ks.day j w.day _ p.day,
    get-expire_new m ks.minute j w.minute s p.minute,
  )

  -- What `admit` does to the store, and the three counts that it reports.
  pub state-admit :
      (ks : Keys) (w : Limits) (s : State)
      → (admit r ks w s).1
        ≡ expire3
            (admit r ks w s).0.minute_count
            (admit r ks w s).0.day_count
            (admit r ks w s).0.month_count
            ks
            w
            (incr3 ks s)
  unfolding admit
  state-admit ks w s = refl

  pub counts-admit :
      (ks : Keys) (w : Limits) (s : State)
      → IsDistinct ks
      → ((admit r ks w s).0.minute_count ≡ or_zero (get ks.minute s) + 1)
        × ((admit r ks w s).0.day_count ≡ or_zero (get ks.day s) + 1)
        × ((admit r ks w s).0.month_count ≡ or_zero (get ks.month s) + 1)
  unfolding admit
  counts-admit ks w s d = (
    r.incr_returns ks.minute s,
    simp (r.incr_returns, r.get-incr, d.minute_day),
    simp (r.incr_returns, r.get-incr, d.minute_month, d.day_month),
  )

  -- An admitted request adds 1 to each counter, and leaves every other key as it is.
  pub get-admit :
      (ks : Keys) (w : Limits) (s : State)
      → IsDistinct ks
      → IsPositive w
      → (get ks.minute (admit r ks w s).1 ≡ some (or_zero (get ks.minute s) + 1))
        × (get ks.day (admit r ks w s).1 ≡ some (or_zero (get ks.day s) + 1))
        × (get ks.month (admit r ks w s).1 ≡ some (or_zero (get ks.month s) + 1))
  get-admit ks w s d p = (
    rw state-admit (rw (get-expire3 _ _ _ ks w ks.minute _ p) (get-incr3_minute ks s d)),
    rw state-admit (rw (get-expire3 _ _ _ ks w ks.day _ p) (get-incr3_day ks s d)),
    rw state-admit (rw (get-expire3 _ _ _ ks w ks.month _ p) (get-incr3_month ks s d)),
  )

  pub get-admit_apart :
      (ks : Keys) (w : Limits) (j : String) (s : State)
      → IsApart ks j
      → IsPositive w
      → get j (admit r ks w s).1 ≡ get j s
  get-admit_apart ks w j s a p =
      rw state-admit (rw (get-expire3 _ _ _ ks w j _ p) (get-incr3_apart ks j s a))

stem_ne : (p s t : String) → s ≢ t → (str_append p s == str_append p t) ≡ false
stem_ne p s t n = elim (Bool-cases (str_append p s == str_append p t)) [
  | inl h ↦ absurd (n (append_cancel_left p s t ((eq_iff (str_append p s) (str_append p t)).0 h)))
  | inr h ↦ h
]

-- The three keys of one request are three keys.
pub keys_of-IsDistinct : (key_id subnet_id : String) → IsDistinct (keys_of key_id subnet_id)
unfolding keys_of
keys_of-IsDistinct key_id subnet_id = record {
  minute_day = stem_ne _ "m" "d" (ground (arith, eq_iff "m" "d"));
  minute_month = stem_ne _ "m" "M" (ground (arith, eq_iff "m" "M"));
  day_minute = stem_ne _ "d" "m" (ground (arith, eq_iff "d" "m"));
  day_month = stem_ne _ "d" "M" (ground (arith, eq_iff "d" "M"));
  month_minute = stem_ne _ "M" "m" (ground (arith, eq_iff "M" "m"));
  month_day = stem_ne _ "M" "d" (ground (arith, eq_iff "M" "d"));
}
