-- ===== src/RateLimit/Store.antt =====
-- The Redis commands that the rate limit scripts call. Redis is no part of the program: a store is
-- a parameter, with the documented effect of each command on a key's counter and expiry.
pub mod Concrete
use tao_gateway.Base.{
  ℕ, ◌+◌, ◌<◌, ◌≡◌, ◌≢◌, String, Bool, true, false, Option, none, some, ◌==◌, string_eq,
  if◌then◌else◌,
}
use tao_gateway.Base.Int.{ℤ, pos, negsuc}

-- The number that `GET key or 0` reads.
abbrev pub or_zero : Option ℕ → ℕ
or_zero none = 0
or_zero (some n) = n

abbrev pub is_none {ℓ} : {A : Type ℓ} → Option A → Bool
is_none none = true
is_none (some _) = false

pub record CounterStore : Type 1 where
  pub State : Type 0
  -- GET, INCR, EXPIRE and TTL. A key without an expiry has the TTL -1.
  pub get : String → State → Option ℕ
  pub incr : String → State → ℕ × State
  pub expire : String → ℕ → State → State
  pub ttl : String → State → ℤ
  pub incr_returns : (k : String) (s : State) → (incr k s).0 ≡ or_zero (get k s) + 1
  pub get-incr :
      (k j : String) (s : State)
      → get j (incr k s).1 ≡ (if k == j then some (or_zero (get k s) + 1) else get j s)
  pub get-expire : (k j : String) (n : ℕ) (s : State) → 0 < n → get j (expire k n s) ≡ get j s
  -- INCR keeps the expiry of a key; a key that it makes has none.
  pub ttl-incr :
      (k j : String) (s : State)
      → ttl j (incr k s).1
        ≡ (if (if k == j then is_none (get k s) else false) then negsuc 0 else ttl j s)
  -- EXPIRE sets the expiry of a key that is there.
  pub ttl-expire :
      (k j : String) (n : ℕ) (s : State)
      → get k s ≢ none
      → ttl j (expire k n s) ≡ (if k == j then pos n else ttl j s)
