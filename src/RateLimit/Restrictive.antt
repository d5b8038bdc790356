-- ===== src/RateLimit/Restrictive.antt =====
-- `_compute_most_restrictive` of gateway/middleware/rate_limit.py: the window that the response
-- headers speak of.
pub mod Retry
use tao_gateway.Base.{ℕ, ◌-◌, Bool, false, List, [], ◌∷◌, ltb, keep, if◌then◌else◌}
use tao_gateway.Base.Int.{ℤ, pos, ltb_ℤ, leb_ℤ}
use tao_gateway.RateLimit.Limits.{Limits}

-- A tuple `(limit, remaining, reset)`.
pub record Window : Type 0 where
  pub limit : ℕ
  pub remaining : ℤ
  pub reset : ℕ

-- Python's `max(l, key=…)` and `min(l, key=…)` of `w ∷ l`: the first of several equal ones.
unfoldable pub latest : Window → List Window → Window
latest w [] = w
latest w (v ∷ l) = latest (if ltb w.reset v.reset then v else w) l

unfoldable pub scarcest : Window → List Window → Window
scarcest w [] = w
scarcest w (v ∷ l) = scarcest (if ltb_ℤ v.remaining w.remaining then v else w) l

abbrev pub is_exhausted : Window → Bool
is_exhausted w = leb_ℤ w.remaining (pos 0)

pub record Restriction : Type 0 where
  pub limit : ℕ
  pub remaining : ℤ
  pub reset : ℕ
  pub retry_after : ℕ

abbrev pub retry_at : Window → ℕ → Restriction
retry_at w now = record {
  limit = w.limit;
  remaining = pos 0;
  reset = w.reset;
  retry_after = w.reset - now;
}

abbrev pub no_retry : Window → Restriction
no_retry w = record { limit = w.limit; remaining = w.remaining; reset = w.reset; retry_after = 0 }

-- The branch on `exhausted and not allowed`.
abbrev pub restrict : List Window → Bool → ℕ → Window → List Window → Restriction
restrict (w ∷ l) false now v rest = retry_at (latest w l) now
restrict _ _ now v rest = no_retry (scarcest v rest)

-- `now` is the clock that the function reads; `rst - now` below 0 becomes 0, as by its `max`.
unfoldable pub compute_most_restrictive : Limits → ℤ → ℕ → ℤ → ℕ → ℤ → ℕ → Bool → ℕ → Restriction
compute_most_restrictive limits m_rem m_reset d_rem d_reset mon_rem mon_reset allowed now =
    let minute : Window = record { limit = limits.minute; remaining = m_rem; reset = m_reset } in
    let day : Window = record { limit = limits.day; remaining = d_rem; reset = d_reset } in
    let month : Window = record { limit = limits.month; remaining = mon_rem; reset = mon_reset } in
    restrict (keep is_exhausted (minute ∷ day ∷ month ∷ [])) allowed now minute (day ∷ month ∷ [])
