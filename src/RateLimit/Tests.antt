-- ===== src/RateLimit/Tests.antt =====
-- Runs of the check on a concrete store, and each theorem at a concrete input.
use tao_gateway.Base.{
  ◌≡◌, refl, String, ℕ, ◌≢◌, ◌⊎◌, inl, inr, true, false, none, some, [], ◌∷◌, arith, string_eq,
}
use tao_gateway.Base.Int.{pos, ◌≤ℤ◌}
use tao_gateway.Errors.{ok, err, rate_limit_exceeded_error}
use tao_gateway.RedisClient.{Attempt, get_redis}
use tao_gateway.RateLimit.Limits.{Limits, get_subnet_rate_limits, RateLimitResult}
use tao_gateway.RateLimit.Restrictive.{latest, scarcest, compute_most_restrictive}
use tao_gateway.RateLimit.Restrictive.Retry.{compute_most_restrictive_allowed}
use tao_gateway.RateLimit.Store.Concrete.{Entries, entries}
use tao_gateway.RateLimit.Script.{Keys, keys_of, rate_limit, admit, deny}
use tao_gateway.RateLimit.Script.Effect.{IsPositive, keys_of-IsDistinct}
use tao_gateway.RateLimit.Script.Reach.{Step, Reach, IsSound, Reach-IsSound}
use tao_gateway.RateLimit.Check.{
  answered, reply_lost, Env, load_lua_script, windows, result_of, denial, World, check_rate_limit,
  enforce_rate_limit,
}
use tao_gateway.RateLimit.Check.Outcome.{IsWithin}
use tao_gateway.RateLimit.Check.Counters.{IsCounted, IsFree, IsFull, IsWaited}
use tao_gateway.RateLimit.Check.Enforce.{
  Answers, enforce_rate_limit_fail_closed, enforce_rate_limit-IsWithin, enforce_rate_limit_denied,
}

abbrev attempt : Attempt
attempt = record { now = 9_000_000; connected = some 1; failed_at = 9_000_100 }

abbrev env : Env
env = record { attempt = attempt; call = answered; aclose_raises = false; now = 1000; later = 1000 }

abbrev world : Entries → World entries
world s = record {
  client = record { redis_client = none; last_failure_time = 0 };
  script = record { lua_script = none; lua_script_redis = none };
  store = s;
}

abbrev ks : Keys
ks = keys_of "k1" "sn19"

-- Four requests of this minute, 50 of this day.
abbrev four : Entries
four =
    ("rate:k1:sn19:m", (4, pos 20))
    ∷ ("rate:k1:sn19:d", (49, pos 3000))
    ∷ ("rate:k1:sn19:M", (70, pos 90000))
    ∷ []

runs_admitted :
    (enforce_rate_limit entries "k1" 19 "sn19" env (world four)).0
    ≡ ok (record {
      allowed = true;
      minute_count = 5;
      minute_remaining = pos 0;
      minute_reset = 1020;
      day_count = 50;
      day_remaining = pos 0;
      day_reset = 4000;
      month_count = 71;
      month_remaining = pos 429;
      month_reset = 91000;
      limit = 5;
      remaining = pos 0;
      reset = 1020;
      retry_after = 0;
    })
unfolding enforce_rate_limit check_rate_limit get_redis load_lua_script keys_of rate_limit admit
    result_of compute_most_restrictive latest scarcest get_subnet_rate_limits
runs_admitted = refl

five : Entries
unfolding enforce_rate_limit check_rate_limit get_redis load_lua_script keys_of rate_limit admit
five = (enforce_rate_limit entries "k1" 19 "sn19" env (world four)).1.store

runs_denied :
    (enforce_rate_limit entries "k1" 19 "sn19" env (world five)).0
    ≡ err (
        rate_limit_exceeded_error "Rate limit exceeded for SN19. Retry after 3000 seconds."
          (some "sn19")
          3000)
unfolding five enforce_rate_limit check_rate_limit get_redis load_lua_script keys_of rate_limit deny
    result_of denial compute_most_restrictive latest scarcest get_subnet_rate_limits
runs_denied = refl

windows-IsPositive : IsPositive windows
windows-IsPositive = omega arith

four-IsSound : IsSound entries ks (get_subnet_rate_limits 19) four
unfolding keys_of get_subnet_rate_limits
four-IsSound = record {
  minute_le = omega arith;
  day_le = omega arith;
  month_le = omega arith;
  minute_expires = inr (omega arith, cc);
  day_expires = inr (omega arith, cc);
  month_expires = inr (omega arith, cc);
}

Reach-IsSound_example :
    IsSound entries ks
      (get_subnet_rate_limits 19)
      (rate_limit entries ks (get_subnet_rate_limits 19) windows four).1
Reach-IsSound_example =
    Reach-IsSound entries ks (get_subnet_rate_limits 19) windows (keys_of-IsDistinct "k1" "sn19")
      windows-IsPositive four-IsSound (Reach.next Reach.here (Step.request four))

abbrev fifth : RateLimitResult
fifth = record {
  allowed = true;
  minute_count = 5;
  minute_remaining = pos 0;
  minute_reset = 1020;
  day_count = 50;
  day_remaining = pos 0;
  day_reset = 4000;
  month_count = 71;
  month_remaining = pos 429;
  month_reset = 91000;
  limit = 5;
  remaining = pos 0;
  reset = 1020;
  retry_after = 0;
}

enforce_rate_limit-IsWithin_example :
    IsWithin (get_subnet_rate_limits 19) fifth
    × IsCounted entries ks four
        (enforce_rate_limit entries "k1" 19 "sn19" env (world four)).1.store
        fifth
enforce_rate_limit-IsWithin_example =
    enforce_rate_limit-IsWithin entries "k1" 19 "sn19" env (world four) _ runs_admitted

env-Answers : Answers entries env (world five)
unfolding get_redis
env-Answers = (cc, refl)

five-IsFull : IsFull entries ks (get_subnet_rate_limits 19) five
unfolding five keys_of get_subnet_rate_limits
five-IsFull = inl (omega arith)

enforce_rate_limit_denied_example :
    let (res, w) = enforce_rate_limit entries "k1" 19 "sn19" env (world five) in
    (message : String) × (delay : ℕ) × (res
      ≡ err (rate_limit_exceeded_error message (some "sn19") delay))
    × (w.store ≡ five)
    × IsWaited entries 5 ks.minute five 1000 1000 delay
    × IsWaited entries 50 ks.day five 1000 1000 delay
    × IsWaited entries 500 ks.month five 1000 1000 delay
unfolding get_subnet_rate_limits
enforce_rate_limit_denied_example =
    enforce_rate_limit_denied entries "k1" 19 "sn19" env (world five) env-Answers five-IsFull

abbrev broken : Env
broken = record env { call = reply_lost }

enforce_rate_limit_fail_closed_example :
    let (res, w) = enforce_rate_limit entries "k1" 19 "sn19" broken (world four) in
    (Answers entries broken (world four)
      × IsFree entries ks (get_subnet_rate_limits 19) four
      × ((x : RateLimitResult) × (res ≡ ok x)))
    ⊎ (Answers entries broken (world four)
        × IsFull entries ks (get_subnet_rate_limits 19) four
        × ((message : String) × (delay : ℕ) × (res
              ≡ err (rate_limit_exceeded_error message (some "sn19") delay))))
    ⊎ (((get_redis attempt (world four).client).0 ≡ none) ⊎ (reply_lost ≢ answered))
      × ((message : String) × (res ≡ err (rate_limit_exceeded_error message none 5)))
      × (w.client.redis_client ≡ none)
enforce_rate_limit_fail_closed_example =
    enforce_rate_limit_fail_closed entries "k1" 19 "sn19" broken (world four)

abbrev restriction_limits : Limits
restriction_limits = get_subnet_rate_limits 19

compute_most_restrictive_allowed_example :
    let r =
      compute_most_restrictive restriction_limits
        (pos 2)
        1020
        (pos 7)
        4000
        (pos 1)
        9000
        true
        1000 in
    (r.retry_after ≡ 0)
    × (r.remaining ≤ℤ pos 2)
    × (r.remaining ≤ℤ pos 7)
    × (r.remaining ≤ℤ pos 1)
    × ((r.limit ≡ restriction_limits.minute) × (r.remaining ≡ pos 2) × (r.reset ≡ 1020)
        ⊎ (r.limit ≡ restriction_limits.day) × (r.remaining ≡ pos 7) × (r.reset ≡ 4000)
        ⊎ (r.limit ≡ restriction_limits.month) × (r.remaining ≡ pos 1) × (r.reset ≡ 9000))
compute_most_restrictive_allowed_example =
    compute_most_restrictive_allowed restriction_limits (pos 2) 1020 (pos 7) 4000 (pos 1) 9000 1000
