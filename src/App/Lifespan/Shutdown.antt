-- ===== src/App/Lifespan/Shutdown.antt =====
-- What a life cycle leaves running.
use tao_gateway.Base.{◌≡◌, refl, sym, ap, ◌⊎◌, inl, inr, Bool, true, false, List, [], ◌∷◌, arith}
use mathlib.Core.Path.{subst}
use tao_gateway.App.Lifespan.{
  Services, Startup, startup, Step, Ending, returns, raises, cancelled, is_cancelled, closes,
  close_dendrite, dispose_engine, close_redis, run_steps, shutdown_steps, shutdown, apply,
}

-- No background task runs.
pub record IsQuiet (s : Services) : Type 0 where
  pub no_sync : s.metagraph_sync ≡ false
  pub no_flush : s.score_flush ≡ false
  pub no_aggregation : s.usage_aggregation ≡ false
  pub no_cleanup : s.debug_cleanup ≡ false

-- Without a cancellation every step is made, whatever raises.
run_steps-all :
    (endings : Step → Ending)
    → ((step : Step) → is_cancelled (endings step) ≡ false)
    → (steps : List Step) (s : Services) → (run_steps endings steps s).1 ≡ steps
unfolding run_steps
run_steps-all endings h [] s = refl
run_steps-all endings h (step ∷ steps) s =
    rw (h step) (ap (λ l. step ∷ l) (run_steps-all endings h steps (apply step (endings step) s)))

-- A startup that fails leaves no task running, if the scorer, the selector and the flush task are
-- made.
pub startup-IsQuiet :
    (enable_bittensor : Bool) (m : Startup)
    → m.scorer_ok ≡ true
    → (startup enable_bittensor m).1 ≡ false
    → IsQuiet (startup enable_bittensor m).0
unfolding startup
startup-IsQuiet true m h f = ground arith
startup-IsQuiet false m h f = ground arith

-- Without Bittensor nothing of it starts.
startup_without :
    (m : Startup)
    → let s = (startup false m).0 in
      (s.metagraph_sync ≡ false) × (s.score_flush ≡ false) × (s.dendrite ≡ false)
unfolding startup
startup_without m = ground arith

abbrev apply_all : (Step → Ending) → List Step → Services → Services
apply_all endings [] s = s
apply_all endings (step ∷ steps) s = apply_all endings steps (apply step (endings step) s)

run_steps-apply_all :
    (endings : Step → Ending)
    → ((step : Step) → is_cancelled (endings step) ≡ false)
    → (steps : List Step) (s : Services) → (run_steps endings steps s).0 ≡ apply_all endings steps s
unfolding run_steps
run_steps-apply_all endings h [] s = refl
run_steps-apply_all endings h (step ∷ steps) s =
    rw (h step) (run_steps-apply_all endings h steps (apply step (endings step) s))

closed :
    (ending : Ending) (was_open : Bool)
    → is_cancelled ending ≡ false
    → (ending ≡ raises) ⊎ (closes ending was_open ≡ false)
closed returns was_open h = inr refl
closed raises was_open h = inl refl
closed cancelled was_open h = cc

-- What shutdown leaves.
abbrev pub IsShut : (Step → Ending) → Services → Type 0
IsShut endings s =
    IsQuiet s
    × ((endings dispose_engine ≡ raises) ⊎ (s.engine ≡ false))
    × ((endings close_redis ≡ raises) ⊎ (s.redis ≡ false))
    × ((endings close_dendrite ≡ raises) ⊎ (s.dendrite ≡ false))

apply_all-IsShut :
    (enable_bittensor : Bool) (m : Startup) (endings : Step → Ending)
    → ((step : Step) → is_cancelled (endings step) ≡ false)
    → IsShut endings
        (apply_all endings (shutdown_steps enable_bittensor) (startup enable_bittensor m).0)
apply_all-IsShut true m endings h =
    let s = (startup true m).0 in
    (
      record { no_sync = refl; no_flush = refl; no_aggregation = refl; no_cleanup = refl },
      closed (endings dispose_engine) s.engine (h dispose_engine),
      closed (endings close_redis) s.redis (h close_redis),
      closed (endings close_dendrite) s.dendrite (h close_dendrite),
    )
apply_all-IsShut false m endings h =
    let s = (startup false m).0 in
    let off = startup_without m in
    (
      record { no_sync = off.0; no_flush = off.1; no_aggregation = refl; no_cleanup = refl },
      closed (endings dispose_engine) s.engine (h dispose_engine),
      closed (endings close_redis) s.redis (h close_redis),
      inr off.2,
    )

-- From the services that startup leaves, and if no call is cancelled, shutdown makes every step,
-- whichever of them raise: then no task runs, and each connection is closed, except where its
-- closing raises.
pub shutdown-IsShut :
    (enable_bittensor : Bool) (m : Startup) (endings : Step → Ending)
    → ((step : Step) → is_cancelled (endings step) ≡ false)
    → let (s, made) = shutdown enable_bittensor endings (startup enable_bittensor m).0 in
      (made ≡ shutdown_steps enable_bittensor) × IsShut endings s
unfolding shutdown
shutdown-IsShut enable_bittensor m endings h =
    let steps = shutdown_steps enable_bittensor in
    let s = (startup enable_bittensor m).0 in
    (
      run_steps-all endings h steps s,
      subst (IsShut endings) (sym (run_steps-apply_all endings h steps s))
          (apply_all-IsShut enable_bittensor m endings h),
    )
