-- ===== src/RateLimit/Check/Counters.antt =====
-- The counters that the script of gateway/middleware/rate_limit.py reads and counts up.
use tao_gateway.Base.{ℕ, ◌+◌, ◌≤◌, ◌<◌, ◌≡◌, refl, ◌⊎◌, String, true, false, some, arith}
use tao_gateway.Base.Int.{pos, pos_part, max_ℤ}
use tao_gateway.RateLimit.Limits.{Limits, RateLimitResult}
use tao_gateway.RateLimit.Store.{CounterStore, or_zero}
use tao_gateway.RateLimit.Script.{Keys, is_denied, admit}
use tao_gateway.RateLimit.Script.Effect.{
  IsDistinct, IsApart, IsPositive, counts-admit, get-admit, get-admit_apart,
}
use tao_gateway.RateLimit.Check.{windows, result_of}
use tao_gateway.RateLimit.Check.Outcome.{IsWithin, result_of-IsWithin}

module _ (r : CounterStore) where
  open r use {State, get, ttl}

  -- A counter has reached its limit.
  abbrev pub IsFull : Keys → Limits → State → Type 0
  IsFull ks limits s =
      (limits.minute ≤ or_zero (get ks.minute s))
      ⊎ (limits.day ≤ or_zero (get ks.day s))
      ⊎ (limits.month ≤ or_zero (get ks.month s))

  -- Every counter is below its limit.
  abbrev pub IsFree : Keys → Limits → State → Type 0
  IsFree ks limits s =
      (or_zero (get ks.minute s) < limits.minute)
      × (or_zero (get ks.day s) < limits.day)
      × (or_zero (get ks.month s) < limits.month)

  pub IsFree-of-not_denied :
      (ks : Keys) (limits : Limits) (s : State)
      → is_denied r ks limits s ≡ false
      → IsFree ks limits s
  IsFree-of-not_denied ks limits s h = (ground arith, ground arith, ground arith)

  pub is_denied_of-IsFull :
      (ks : Keys) (limits : Limits) (s : State)
      → IsFull ks limits s
      → is_denied r ks limits s ≡ true
  is_denied_of-IsFull ks limits s h = ground arith

  pub IsFull-of-is_denied :
      (ks : Keys) (limits : Limits) (s : State)
      → is_denied r ks limits s ≡ true
      → IsFull ks limits s
  IsFull-of-is_denied ks limits s h = ground arith

  -- The counters after a request that is counted: each of its three is one higher and is what the
  -- result reports, and no other counter changes.
  pub record IsCounted (ks : Keys) (s s' : State) (x : RateLimitResult) : Type 0 where
    pub minute : get ks.minute s' ≡ some (or_zero (get ks.minute s) + 1)
    pub day : get ks.day s' ≡ some (or_zero (get ks.day s) + 1)
    pub month : get ks.month s' ≡ some (or_zero (get ks.month s) + 1)
    pub minute_count : x.minute_count ≡ or_zero (get ks.minute s) + 1
    pub day_count : x.day_count ≡ or_zero (get ks.day s) + 1
    pub month_count : x.month_count ≡ or_zero (get ks.month s) + 1
    pub others : (j : String) → IsApart ks j → get j s' ≡ get j s

  pub admit-IsCounted :
      (ks : Keys) (limits : Limits) (now later : ℕ) (s : State)
      → IsDistinct ks
      → IsCounted ks s
          (admit r ks windows s).1
          (result_of limits (admit r ks windows s).0 now later)
  unfolding result_of
  admit-IsCounted ks limits now later s d =
      let p : IsPositive windows = record {
        minute = omega arith;
        day = omega arith;
        month = omega arith;
      } in
      let g = get-admit r ks windows s d p in
      let c = counts-admit r ks windows s d in
      record {
        minute = g.0;
        day = g.1;
        month = g.2;
        minute_count = c.0;
        day_count = c.1;
        month_count = c.2;
        others = λ j a. get-admit_apart r ks windows j s a p;
      }

  -- The result for a request with no counter at its limit.
  pub admit-IsWithin :
      (ks : Keys) (limits : Limits) (now later : ℕ) (s : State)
      → IsDistinct ks
      → is_denied r ks limits s ≡ false
      → IsWithin limits (result_of limits (admit r ks windows s).0 now later)
  admit-IsWithin ks limits now later s d free =
      let c = counts-admit r ks windows s d in
      result_of-IsWithin limits _ now later (unfold admit in refl) (rw c.0 (ground arith))
        (rw c.1 (ground arith)) (rw c.2 (ground arith))

  -- A full window is reset once the delay has passed: the counter's time to live is over then.
  abbrev pub IsWaited : ℕ → String → State → ℕ → ℕ → ℕ → Type 0
  IsWaited limit key s now later delay =
      (or_zero (get key s) < limit) ⊎ (now + pos_part (max_ℤ (ttl key s) (pos 0)) ≤ later + delay)
