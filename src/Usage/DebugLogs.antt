-- ===== src/Usage/DebugLogs.antt =====
-- gateway/tasks/debug_cleanup.py, and `get_debug_logs` of gateway/services/api_key_service.py: how
-- long the debug logs stay, and who reads them. The logging is left out.
use mathlib.Core.List.{reverse}
use tao_gateway.Base.{
  ℕ, ◌-◌, ◌*◌, String, Bool, true, false, ◌&&◌, Option, none, some, List, length, keep, any, take,
  drop, leb, ltb, nat_beq, str_eq, if◌then◌else◌,
}
use tao_gateway.Errors.{GatewayError, gateway_error, Result, ok, err}
use tao_gateway.ApiKeys.{ApiKey}
use tao_gateway.ApiKeys as Keys
use tao_gateway.Usage.{DebugLog}

abbrev pub hour_us : ℕ
hour_us = 3_600_000_000

-- `cleanup_once`: the rows, and the number of those deleted; none where an exception ends the call.
unfoldable pub cleanup_once : Bool → ℕ → ℕ → List DebugLog → List DebugLog × Option ℕ
cleanup_once commits now retention_hours logs =
    let cutoff = now - retention_hours * hour_us in
    if commits
    then (
      keep (λ (l : DebugLog). leb cutoff l.created_at) logs,
      some (length (keep (λ (l : DebugLog). ltb l.created_at cutoff) logs)),
    )
    else (logs, none)

pub record CleanupTask : Type 0 where
  pub is_running : Bool
  pub debug_logs : List DebugLog

abbrev cleaned : Bool → ℕ → ℕ → CleanupTask → CleanupTask
cleaned commits now retention_hours task = record task {
  debug_logs = (cleanup_once commits now retention_hours task.debug_logs).0;
}

-- `start`, one round of `_loop`, and `stop` with its last cleanup.
unfoldable pub start_cleanup : CleanupTask → CleanupTask
start_cleanup task = record task { is_running = true }

unfoldable pub cleanup_round : Bool → ℕ → ℕ → CleanupTask → CleanupTask
cleanup_round commits now retention_hours task =
    if task.is_running then cleaned commits now retention_hours task else task

unfoldable pub stop_cleanup : Bool → ℕ → ℕ → CleanupTask → CleanupTask
stop_cleanup commits now retention_hours task = record (cleaned commits now retention_hours task) {
  is_running = false;
}

abbrev pub not_found : GatewayError
not_found = gateway_error "API key not found" 404 "not_found"

-- `get_debug_logs`, from the tables of keys and logs; `uuid` is the number of a key's id. The newest
-- log comes first: it is the last of the table.
unfoldable pub get_debug_logs :
    (String → ℕ)
    → String
    → String
    → Keys.Table
    → List DebugLog
    → ℕ
    → ℕ
    → ℕ
    → ℕ
    → Result (List DebugLog × ℕ)
get_debug_logs uuid key_id org_id keys logs now retention_hours limit offset =
    let cutoff = now - retention_hours * hour_us in
    let found =
      keep (λ (l : DebugLog). nat_beq l.api_key_id (uuid key_id) && leb cutoff l.created_at) logs in
    if any (λ (k : ApiKey). str_eq k.id key_id && str_eq k.org_id org_id) keys
    then ok (take limit (drop offset (reverse found)), length found)
    else err not_found
