-- ===== src/Usage.antt =====
-- gateway/middleware/usage.py, with the rows of gateway/models/usage_record.py and
-- gateway/models/debug_log.py: the writer of the usage records. Times are whole microseconds since
-- the epoch; ids are numbers. `redact` stands for the patterns of gateway/core/logging.py. The
-- logging is left out.
pub mod Content
pub mod Aggregation
pub mod Quota
pub mod Summaries
pub mod DebugLogs
mod Tests
use Prim.Native.String.{count}
use tao_gateway.Base.{
  ℕ, String, str_append, Bool, true, false, ◌&&◌, ◌||◌, Option, none, some, List, [], ◌∷◌, ◌++◌,
  leb, if◌then◌else◌, prefix,
}

pub record UsageRecord : Type 0 where
  pub id : ℕ
  pub api_key_id : ℕ
  pub org_id : ℕ
  pub subnet_name : String
  pub netuid : ℕ
  pub endpoint : String
  pub miner_uid : Option String
  pub latency_ms : ℕ
  pub status_code : ℕ
  pub prompt_tokens : ℕ
  pub completion_tokens : ℕ
  pub total_tokens : ℕ
  pub created_at : ℕ

pub record DebugLog : Type 0 where
  pub usage_record_id : ℕ
  pub api_key_id : ℕ
  pub request_body : Option String
  pub response_body : Option String
  pub created_at : ℕ

-- The tables usage_records and debug_logs, the newest row last.
pub record Tables : Type 0 where
  pub usage_records : List UsageRecord
  pub debug_logs : List DebugLog

abbrev pub max_debug_content_size : ℕ
max_debug_content_size = 65536

abbrev pub truncation_note : String
truncation_note = "\n... [truncated at 64KB]"

-- `_truncate_content`
unfoldable pub truncate_content : (String → String) → Option String → Option String
truncate_content redact none = none
truncate_content redact (some content) =
    let content' = redact content in
    if leb (count content') max_debug_content_size
    then some content'
    else some (str_append (prefix max_debug_content_size content') truncation_note)

abbrev pub is_some {ℓ} : {A : Type ℓ} → Option A → Bool
is_some none = false
is_some (some a) = true

-- The arguments of `record_usage`: a row without the id and the time that the database gives it, and
-- what the debug log takes.
pub record UsageEntry : Type 0 where
  pub row : ℕ → ℕ → UsageRecord
  pub debug_mode : Bool
  pub request_body : Option String
  pub response_body : Option String

abbrev pub debug_rows : (String → String) → ℕ → ℕ → UsageEntry → List DebugLog
debug_rows redact id now u =
    if u.debug_mode && (is_some u.request_body || is_some u.response_body)
    then record {
      usage_record_id = id;
      api_key_id = (u.row id now).api_key_id;
      request_body = truncate_content redact u.request_body;
      response_body = truncate_content redact u.response_body;
      created_at = now;
    }
      ∷ []
    else []

-- `record_usage`: the third argument is whether the session opens, flushes and commits; an exception
-- of any of these is caught, and the session is rolled back.
unfoldable pub record_usage : (String → String) → ℕ → ℕ → Bool → UsageEntry → Tables → Tables
record_usage redact id now commits u t =
    if commits
    then record {
      usage_records = t.usage_records ++ u.row id now ∷ [];
      debug_logs = t.debug_logs ++ debug_rows redact id now u;
    }
    else t
