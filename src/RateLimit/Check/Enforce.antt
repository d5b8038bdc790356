-- ===== src/RateLimit/Check/Enforce.antt =====
-- What `enforce_rate_limit` of gateway/middleware/rate_limit.py decides, and what it leaves in Redis.
use tao_gateway.Base.{
  ℕ, ◌≡◌, ◌∙◌, refl, ◌≢◌, ◌⊎◌, inl, inr, String, true, false, none, some, arith, Bool-cases,
  Option-cases,
}
use tao_gateway.Errors.{rate_limit_exceeded_error, ok, err, Result-cases}
use tao_gateway.RedisClient.{get_redis, reset_redis}
use tao_gateway.RateLimit.Limits.{Limits, get_subnet_rate_limits, RateLimitResult}
use tao_gateway.RateLimit.Store.{CounterStore}
use tao_gateway.RateLimit.Script.{Keys, keys_of, rate_limit, is_denied, admit, deny}
use tao_gateway.RateLimit.Script.Effect.{keys_of-IsDistinct}
use tao_gateway.RateLimit.Check.{
  Call, answered, reply_lost, not_run, Env, windows, result_of, unavailable, denial, World,
  check_rate_limit, enforce_rate_limit,
}
use tao_gateway.RateLimit.Check.Counters.{
  IsFree-of-not_denied, is_denied_of-IsFull, IsFull-of-is_denied, IsFull, IsFree, IsCounted,
  admit-IsCounted, admit-IsWithin, IsWaited,
}
use tao_gateway.RateLimit.Check.Outcome.{IsWithin, IsDelayed, result_of-IsDelayed}

module _ (r : CounterStore) where
  -- A reachable Redis that answers: the client is there, and the call returns.
  abbrev pub Answers : Env → World r → Type 0
  Answers env w = ((get_redis env.attempt w.client).0 ≢ none) × (env.call ≡ answered)

  Call-cases : (call : Call) → (call ≡ answered) ⊎ (call ≢ answered)
  Call-cases answered = inl refl
  Call-cases reply_lost = inr (λ e. cc)
  Call-cases not_run = inr (λ e. cc)

  Answers-cases :
      (env : Env) (w : World r)
      → Answers env w ⊎ ((get_redis env.attempt w.client).0 ≡ none) ⊎ (env.call ≢ answered)
  Answers-cases env w = elim (Option-cases (get_redis env.attempt w.client).0) [
    | inl e ↦ inr (inl e)
    | inr (c, e) ↦ elim (Call-cases env.call) [ inl a ↦ inl ((λ n. cc), a) | inr n ↦ inr (inr n) ]
  ]

  module _ (key_id : String) (netuid : ℕ) (name : String) (env : Env) (w : World r) where
    abbrev limits : Limits
    limits = get_subnet_rate_limits netuid

    abbrev ks : Keys
    ks = keys_of key_id name

    checked :
        Answers env w
        → ((check_rate_limit r key_id name limits env w).0
            ≡ ok (result_of limits (rate_limit r ks limits windows w.store).0 env.now env.later))
          × ((check_rate_limit r key_id name limits env w).1.store
              ≡ (rate_limit r ks limits windows w.store).1)
    unfolding check_rate_limit
    checked (reached, call) = elim (Option-cases (get_redis env.attempt w.client).0) [
      | inl e ↦ absurd (reached e)
      | inr (c, e) ↦ (ground arith, ground arith)
    ]

    result_of_call :
        (x : RateLimitResult)
        → (check_rate_limit r key_id name limits env w).0 ≡ ok x
        → (x ≡ result_of limits (rate_limit r ks limits windows w.store).0 env.now env.later)
          × ((check_rate_limit r key_id name limits env w).1.store
              ≡ (rate_limit r ks limits windows w.store).1)
    unfolding check_rate_limit
    result_of_call x h = (ground arith, ground arith)

    denied_result :
        is_denied r ks limits w.store ≡ true
        → ((rate_limit r ks limits windows w.store).1 ≡ w.store)
          × (rate_limit r ks limits windows w.store ≡ deny r ks w.store)
          × IsDelayed limits env.later (result_of limits (deny r ks w.store).0 env.now env.later)
    unfolding rate_limit deny
    denied_result full = (
      rw full,
      rw full,
      result_of-IsDelayed limits _ env.now env.later refl
          (IsFull-of-is_denied r ks limits w.store full),
    )

    let_through :
        (x : RateLimitResult)
        → (enforce_rate_limit r key_id netuid name env w).0 ≡ ok x
        → (is_denied r ks limits w.store ≡ false)
          × (x ≡ result_of limits (admit r ks windows w.store).0 env.now env.later)
          × ((enforce_rate_limit r key_id netuid name env w).1.store
              ≡ (admit r ks windows w.store).1)
    unfolding enforce_rate_limit
    let_through x h = elim (Result-cases (check_rate_limit r key_id name limits env w).0) [
      | inr (g, e) ↦ cc (rw e at h)
      | inl (y, e) ↦ elim (Bool-cases (is_denied r ks limits w.store)) [
        | inl full ↦
            let d = denied_result full in
            let c = result_of_call y e in
            let y_denied : y.allowed ≡ false = rw c.0 (rw d.1 d.2.denied) in
            cc (rw y_denied at (rw e at h))
        | inr free ↦
            let c = result_of_call y e in
            let run : rate_limit r ks limits windows w.store ≡ admit r ks windows w.store =
              unfold rate_limit in rw free in
            (free, ground (arith, rw run at c.0), rw run at c.1)
      ]
    ]

    -- A request that is let through is counted: each of its three counters is one higher, and no
    -- other counter changes. Its count is then within the limit of every window of its subnet, and its
    -- headers show no negative remaining count and no delay.
    pub enforce_rate_limit-IsWithin :
        (x : RateLimitResult)
        → (enforce_rate_limit r key_id netuid name env w).0 ≡ ok x
        → IsWithin limits x
          × IsCounted r ks w.store (enforce_rate_limit r key_id netuid name env w).1.store x
    enforce_rate_limit-IsWithin x h =
        let t = let_through x h in
        let d = keys_of-IsDistinct key_id name in
        (
          rw t.1 (admit-IsWithin r ks limits env.now env.later w.store d t.0),
          rw (t.1, t.2) (admit-IsCounted r ks limits env.now env.later w.store d),
        )

    denied_run :
        Answers env w
        → is_denied r ks limits w.store ≡ true
        → let x = result_of limits (deny r ks w.store).0 env.now env.later in
          ((enforce_rate_limit r key_id netuid name env w).0 ≡ err (denial name x.retry_after))
          × ((enforce_rate_limit r key_id netuid name env w).1.store ≡ w.store)
          × IsDelayed limits env.later x
    unfolding enforce_rate_limit
    denied_run live full =
        let c = checked live in
        let d = denied_result full in (rw c.0 (rw d.1 (rw d.2.denied)), c.1 ∙ d.0, d.2)

    -- With one counter at its limit and a Redis that answers, the request is refused with a delay, and
    -- no counter changes. Once the delay has passed since the clock was read, the time to live of each
    -- counter that had reached its limit is over.
    pub enforce_rate_limit_denied :
        Answers env w
        → IsFull r ks limits w.store
        → let (res, w') = enforce_rate_limit r key_id netuid name env w in
          (message : String) × (delay : ℕ) × (res
            ≡ err (rate_limit_exceeded_error message (some name) delay))
          × (w'.store ≡ w.store)
          × IsWaited r limits.minute ks.minute w.store env.now env.later delay
          × IsWaited r limits.day ks.day w.store env.now env.later delay
          × IsWaited r limits.month ks.month w.store env.now env.later delay
    unfolding denial result_of deny
    enforce_rate_limit_denied live full =
        let d = denied_run live (is_denied_of-IsFull r ks limits w.store full) in
        (_, _, d.0, d.1, d.2.minute, d.2.day, d.2.month)

    free_run :
        Answers env w
        → is_denied r ks limits w.store ≡ false
        → (enforce_rate_limit r key_id netuid name env w).0
          ≡ ok (result_of limits (admit r ks windows w.store).0 env.now env.later)
    unfolding enforce_rate_limit
    free_run live free =
        let c = checked live in
        let run : rate_limit r ks limits windows w.store ≡ admit r ks windows w.store =
          unfold rate_limit in rw free in
        let d = keys_of-IsDistinct key_id name in
        rw c.0 (rw run (rw (admit-IsWithin r ks limits env.now env.later w.store d free).allowed))

    unanswered_run :
        ((get_redis env.attempt w.client).0 ≡ none) ⊎ (env.call ≢ answered)
        → ((enforce_rate_limit r key_id netuid name env w).0 ≡ err unavailable)
          × ((enforce_rate_limit r key_id netuid name env w).1.client.redis_client ≡ none)
    unfolding enforce_rate_limit check_rate_limit reset_redis
    unanswered_run h = ground arith

    -- A request is let through only if Redis can be reached and answers, and each of the three
    -- counters is below its limit; it is then always let through. With a counter at its limit it is
    -- refused, and without an answer of Redis it is refused with a delay of 5 seconds, as one that no
    -- subnet caused, and the cached client is dropped.
    pub enforce_rate_limit_fail_closed :
        let (res, w') = enforce_rate_limit r key_id netuid name env w in
        (Answers env w × IsFree r ks limits w.store × ((x : RateLimitResult) × (res ≡ ok x)))
        ⊎ (Answers env w
            × IsFull r ks limits w.store
            × ((message : String) × (delay : ℕ) × (res
                  ≡ err (rate_limit_exceeded_error message (some name) delay))))
        ⊎ (((get_redis env.attempt w.client).0 ≡ none) ⊎ (env.call ≢ answered))
          × ((message : String) × (res ≡ err (rate_limit_exceeded_error message none 5)))
          × (w'.client.redis_client ≡ none)
    unfolding denial
    enforce_rate_limit_fail_closed = elim (Answers-cases env w) [
      | inr silent ↦ let u = unanswered_run silent in inr (inr (silent, (_, u.0), u.1))
      | inl live ↦ elim (Bool-cases (is_denied r ks limits w.store)) [
        | inr free ↦
            inl (live, IsFree-of-not_denied r ks limits w.store free, (_, free_run live free))
        | inl full ↦
            let d = denied_run live full in
            inr (inl (live, IsFull-of-is_denied r ks limits w.store full, (_, _, d.0)))
      ]
    ]
