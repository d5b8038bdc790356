-- ===== src/App/Lifespan.antt =====
-- `lifespan` of gateway/main.py: which background tasks run and which connections are open, through
-- startup and shutdown. What each call meets is an argument. The objects that the tasks work on are
-- modelled in Routing, ScoreFlush and Usage.
pub mod Shutdown
use tao_gateway.Base.{ℕ, Bool, true, false, ◌&&◌, List, [], ◌∷◌, ◌++◌, if◌then◌else◌}

pub record Services : Type 0 where
  pub metagraph_sync : Bool
  pub score_flush : Bool
  pub usage_aggregation : Bool
  pub debug_cleanup : Bool
  pub dendrite : Bool
  pub engine : Bool
  pub redis : Bool

abbrev pub nothing_runs : Services
nothing_runs = record {
  metagraph_sync = false;
  score_flush = false;
  usage_aggregation = false;
  debug_cleanup = false;
  dendrite = false;
  engine = false;
  redis = false;
}

-- What startup meets: whether the database and Redis answer, whether the handles of Bittensor are
-- made, for each known enabled subnet whether its metagraph is there after the first sync, and
-- whether the scorer, the selector and the flush task are made.
pub record Startup : Type 0 where
  pub db_ok : Bool
  pub redis_ok : Bool
  pub handles_ok : Bool
  pub metagraphs : List Bool
  pub scorer_ok : Bool

abbrev pub all_there : List Bool → Bool
all_there [] = true
all_there (b ∷ metagraphs) = if b then all_there metagraphs else false

-- The tasks that start with and without Bittensor.
abbrev pub start_always : Services → Services × Bool
start_always s = (record s { usage_aggregation = true; debug_cleanup = true }, true)

-- From `await metagraph_manager.start()`.
abbrev pub start_routing : Startup → Services → Services × Bool
start_routing m s =
    let syncing = record s { metagraph_sync = true } in
    if all_there m.metagraphs
    then (if m.scorer_ok
        then start_always (record syncing { score_flush = true })
        else (syncing, false))
    else (record syncing { metagraph_sync = false }, false)

abbrev pub start_bittensor : Startup → Services → Services × Bool
start_bittensor m s =
    if m.handles_ok then start_routing m (record s { dendrite = true }) else (s, false)

-- The part before the `yield`; the Boolean is whether it is reached.
unfoldable pub startup : Bool → Startup → Services × Bool
startup enable_bittensor m =
    let opened = record nothing_runs { engine = true } in
    if m.db_ok
    then (if m.redis_ok
        then (let connected = record opened { redis = true } in
            if enable_bittensor then start_bittensor m connected else start_always connected)
        else (opened, false))
    else (opened, false)

pub data Step : Type 0 where
  stop_debug_cleanup stop_usage_aggregation stop_score_flush stop_metagraph_sync : Step
  close_dendrite dispose_engine close_redis : Step

-- How a call ends: it returns, it raises an `Exception`, or it is cancelled, which no step catches.
pub data Ending : Type 0 where
  returns raises cancelled : Ending

abbrev pub closes : Ending → Bool → Bool
closes returns open_now = false
closes ending open_now = open_now

-- The effect of a step. A task is cancelled before anything else can fail.
abbrev pub apply : Step → Ending → Services → Services
apply stop_debug_cleanup ending s = record s { debug_cleanup = false }
apply stop_usage_aggregation ending s = record s { usage_aggregation = false }
apply stop_score_flush ending s = record s { score_flush = false }
apply stop_metagraph_sync ending s = record s { metagraph_sync = false }
apply close_dendrite ending s = record s { dendrite = closes ending s.dendrite }
apply dispose_engine ending s = record s { engine = closes ending s.engine }
apply close_redis ending s = record s { redis = closes ending s.redis }

abbrev pub is_cancelled : Ending → Bool
is_cancelled cancelled = true
is_cancelled ending = false

-- Each step in its `try`: the services, and the steps that were made.
unfoldable pub run_steps : (Step → Ending) → List Step → Services → Services × List Step
run_steps endings [] s = (s, [])
run_steps endings (step ∷ steps) s =
    let s' = apply step (endings step) s in
    let (rest, made) = run_steps endings steps s' in
    if is_cancelled (endings step) then (s', step ∷ []) else (rest, step ∷ made)

abbrev pub bittensor_steps : List Step
bittensor_steps = stop_score_flush ∷ stop_metagraph_sync ∷ close_dendrite ∷ []

abbrev pub shutdown_steps : Bool → List Step
shutdown_steps enable_bittensor =
    stop_debug_cleanup
    ∷ stop_usage_aggregation
    ∷ ((if enable_bittensor then bittensor_steps else []) ++ (dispose_engine ∷ close_redis ∷ []))

-- The part after the `yield`.
unfoldable pub shutdown : Bool → (Step → Ending) → Services → Services × List Step
shutdown enable_bittensor endings s = run_steps endings (shutdown_steps enable_bittensor) s
