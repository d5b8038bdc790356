-- ===== src/RateLimit/Restrictive/Retry.antt =====
-- What the headers of a refused and of an allowed request say of the three windows.
use tao_gateway.Base.{ℕ, ◌+◌, ◌≤◌, ◌≡◌, ◌⊎◌, true, false, arith}
use tao_gateway.Base.Int.{ℤ, pos, ◌≤ℤ◌}
use tao_gateway.RateLimit.Limits.{Limits}
use tao_gateway.RateLimit.Restrictive.{latest, scarcest, compute_most_restrictive}

module _ (l : Limits) (m_rem : ℤ) (m_reset : ℕ) (d_rem : ℤ) (d_reset : ℕ) (mon_rem : ℤ)
    (mon_reset : ℕ) (now : ℕ) where
  -- A refused request with an exhausted window (`remaining <= 0`) is told 0 remaining, and a delay
  -- after which every exhausted window has reset; the reset that it names is that of an exhausted
  -- window.
  pub compute_most_restrictive_denied :
      (m_rem ≤ℤ pos 0) ⊎ (d_rem ≤ℤ pos 0) ⊎ (mon_rem ≤ℤ pos 0)
      → let r =
          compute_most_restrictive l m_rem m_reset d_rem d_reset mon_rem mon_reset false now in
        (r.remaining ≡ pos 0)
        × ((pos 1 ≤ℤ m_rem) ⊎ (m_reset ≤ now + r.retry_after))
        × ((pos 1 ≤ℤ d_rem) ⊎ (d_reset ≤ now + r.retry_after))
        × ((pos 1 ≤ℤ mon_rem) ⊎ (mon_reset ≤ now + r.retry_after))
        × ((m_rem ≤ℤ pos 0) × (r.reset ≡ m_reset)
            ⊎ (d_rem ≤ℤ pos 0) × (r.reset ≡ d_reset)
            ⊎ (mon_rem ≤ℤ pos 0) × (r.reset ≡ mon_reset))
  unfolding compute_most_restrictive latest scarcest
  compute_most_restrictive_denied some_exhausted = ground arith

  -- An allowed request is told of a window with the fewest requests remaining, and of no delay.
  pub compute_most_restrictive_allowed :
      let r = compute_most_restrictive l m_rem m_reset d_rem d_reset mon_rem mon_reset true now in
      (r.retry_after ≡ 0)
      × (r.remaining ≤ℤ m_rem)
      × (r.remaining ≤ℤ d_rem)
      × (r.remaining ≤ℤ mon_rem)
      × ((r.limit ≡ l.minute) × (r.remaining ≡ m_rem) × (r.reset ≡ m_reset)
          ⊎ (r.limit ≡ l.day) × (r.remaining ≡ d_rem) × (r.reset ≡ d_reset)
          ⊎ (r.limit ≡ l.month) × (r.remaining ≡ mon_rem) × (r.reset ≡ mon_reset))
  unfolding compute_most_restrictive latest scarcest
  compute_most_restrictive_allowed = ground arith
