-- ===== src/ApiKeys/Endpoints.antt =====
-- gateway/api/api_keys.py: the endpoints over the service, for the organization of the request. The
-- column created_at is left out, as is the logging; `key_number` and `strip` are those of Names, and
-- `uuid` is the number of a key's id in the tables of usage.
use tao_gateway.Base.{ℕ, String, Bool, Option, none, some, List, map}
use tao_gateway.Errors.{Result, ok, err}
use tao_gateway.Usage.{DebugLog}
use tao_gateway.Usage.DebugLogs.{get_debug_logs, not_found}
use tao_gateway.ApiKeys.Store.{KeyStore}
use tao_gateway.ApiKeys.Names.{key_name}
use tao_gateway.ApiKeys.Listing.{list_api_keys}
use tao_gateway.ApiKeys.{
  ApiKey, Environment, Draw, generate_api_key, env_of, World, Effort, create_api_key,
  revoke_api_key, rotate_api_key, update_api_key,
}

pub record ApiKeyCreateResponse : Type 0 where
  pub id : String
  pub key : String
  pub prefix : String
  pub name : Option String

pub record ApiKeyListItem : Type 0 where
  pub id : String
  pub prefix : String
  pub name : Option String
  pub is_active : Bool
  pub debug_mode : Bool

pub record ApiKeyListResponse : Type 0 where
  pub items : List ApiKeyListItem
  pub total : ℕ

pub record ApiKeyRotateResponse : Type 0 where
  pub new_key : ApiKeyCreateResponse
  pub revoked_key_id : String

pub record DebugLogEntry : Type 0 where
  pub usage_record_id : ℕ
  pub request_body : Option String
  pub response_body : Option String

pub record DebugLogListResponse : Type 0 where
  pub items : List DebugLogEntry
  pub total : ℕ

abbrev pub full_key_of : Environment → Draw → String
full_key_of env draw = (generate_api_key env draw).0

abbrev pub shown_once : String → ApiKey → ApiKeyCreateResponse
shown_once full_key k = record { id = k.id; key = full_key; prefix = k.prefix; name = k.name }

abbrev pub list_item : ApiKey → ApiKeyListItem
list_item k = record {
  id = k.id;
  prefix = k.prefix;
  name = k.name;
  is_active = k.is_active;
  debug_mode = k.debug_mode;
}

abbrev pub log_entry : DebugLog → DebugLogEntry
log_entry log = record {
  usage_record_id = log.usage_record_id;
  request_body = log.request_body;
  response_body = log.response_body;
}

abbrev pub create_response : Environment → Draw → Result ApiKey → Result ApiKeyCreateResponse
create_response env draw (err e) = err e
create_response env draw (ok k) = ok (shown_once (full_key_of env draw) k)

abbrev pub update_response : Option ApiKey → Result ApiKeyListItem
update_response none = err not_found
update_response (some k) = ok (list_item k)

abbrev pub rotate_response : Draw → Result (ApiKey × ApiKey) → Result ApiKeyRotateResponse
rotate_response draw (err e) = err e
rotate_response draw (ok (new_key, old_key)) = ok (record {
  new_key = shown_once (full_key_of (env_of old_key.prefix) draw) new_key;
  revoked_key_id = old_key.id;
})

abbrev pub revoke_response : Option ApiKey → Result String
revoke_response none = err not_found
revoke_response (some k) = ok "API key revoked"

abbrev pub logs_response : Result (List DebugLog × ℕ) → Result DebugLogListResponse
logs_response (err e) = err e
logs_response (ok (logs, total)) = ok (record { items = map log_entry logs; total = total })

module _ (x : KeyStore) (sha16 : String → String) (key_number : String → Option ℕ)
    (strip : String → String) (uuid : String → ℕ) where
  unfoldable pub post_create :
      String
      → Environment
      → Option String
      → Draw
      → World x sha16
      → Result ApiKeyCreateResponse × World x sha16
  post_create org_id env name draw w =
      let (created, w') =
        create_api_key x sha16 org_id env (key_name key_number strip org_id name w.keys) draw w in
      (create_response env draw created, w')

  -- `list_api_keys`; `limit` is from 1 to 100.
  unfoldable pub get_list : String → ℕ → ℕ → Bool → World x sha16 → ApiKeyListResponse
  get_list org_id limit offset include_revoked w =
      let (keys, total) = list_api_keys org_id w.keys limit offset include_revoked in
      record { items = map list_item keys; total = total }

  unfoldable pub patch_update :
      String
      → String
      → Option Bool
      → Effort x sha16
      → World x sha16
      → Result ApiKeyListItem × World x sha16
  patch_update org_id key_id debug_mode effort w =
      let (key, w') = update_api_key x sha16 key_id org_id debug_mode effort w in
      (update_response key, w')

  -- `get_debug_logs`
  unfoldable pub get_logs :
      String → String → List DebugLog → ℕ → ℕ → ℕ → ℕ → World x sha16 → Result DebugLogListResponse
  get_logs org_id key_id logs now retention_hours limit offset w =
      logs_response (get_debug_logs uuid key_id org_id w.keys logs now retention_hours limit offset)

  unfoldable pub post_rotate :
      String
      → String
      → Draw
      → Effort x sha16
      → World x sha16
      → Result ApiKeyRotateResponse × World x sha16
  post_rotate org_id key_id draw effort w =
      let (rotated, w') = rotate_api_key x sha16 key_id org_id draw effort w in
      (rotate_response draw rotated, w')

  unfoldable pub delete_key :
      String → String → Effort x sha16 → World x sha16 → Result String × World x sha16
  delete_key org_id key_id effort w =
      let (key, w') = revoke_api_key x sha16 key_id org_id effort w in (revoke_response key, w')
