-- ===== src/RateLimit/Limits.antt =====
-- The limits of each subnet, the windows, and the result of a check with its headers
-- (gateway/middleware/rate_limit.py).
use tao_gateway.Base.{ℕ, String, none, some, Bool, [], ◌∷◌, str, nat_eq, if◌then◌else◌}
use tao_gateway.Base.Int.{ℤ, pos, pos_part, max_ℤ}
use tao_gateway.Base.Dict.{Dict, lookup}

-- One number for each window: the keys "minute", "day" and "month" of a `dict[str, int]`.
pub record Limits : Type 0 where
  pub minute : ℕ
  pub day : ℕ
  pub month : ℕ

abbrev pub minute_window : ℕ
minute_window = 60

abbrev pub day_window : ℕ
day_window = 86400

abbrev pub month_window : ℕ
month_window = 2592000

abbrev limits : ℕ → ℕ → ℕ → Limits
limits m d n = record { minute = m; day = d; month = n }

abbrev pub default_limits : Limits
default_limits = limits 10 100 1000

abbrev pub subnet_rate_limits : Dict ℕ Limits
subnet_rate_limits =
    (1, limits 10 100 1000)
    ∷ (19, limits 5 50 500)
    ∷ (62, limits 10 100 1000)
    ∷ (32, limits 60 600 6000)
    ∷ (22, limits 30 300 3000)
    ∷ []

unfoldable pub get_subnet_rate_limits : ℕ → Limits
get_subnet_rate_limits netuid = elim (lookup netuid subnet_rate_limits) [
  | none ↦ default_limits
  | some l ↦ l
]

-- A remaining count is negative where a counter is above a limit.
pub record RateLimitResult : Type 0 where
  pub allowed : Bool
  pub minute_count : ℕ
  pub minute_remaining : ℤ
  pub minute_reset : ℕ
  pub day_count : ℕ
  pub day_remaining : ℤ
  pub day_reset : ℕ
  pub month_count : ℕ
  pub month_remaining : ℤ
  pub month_reset : ℕ
  pub limit : ℕ
  pub remaining : ℤ
  pub reset : ℕ
  pub retry_after : ℕ

-- `max(0, remaining)`, which is no negative number.
abbrev pub shown_remaining : ℤ → ℕ
shown_remaining r = pos_part (max_ℤ (pos 0) r)

unfoldable pub to_headers : RateLimitResult → Dict String String
to_headers r =
    ("X-RateLimit-Limit", str r.limit)
    ∷ ("X-RateLimit-Remaining", str (shown_remaining r.remaining))
    ∷ ("X-RateLimit-Reset", str r.reset)
    ∷ (if r.allowed then [] else ("Retry-After", str r.retry_after) ∷ [])
