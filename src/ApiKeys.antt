-- ===== src/ApiKeys.antt =====
-- gateway/services/api_key_service.py: the keys of the organizations. The table api_keys is a list
-- of rows, oldest first; identifiers are texts. A call is one transaction, here from its start to its
-- commit with no other between. The lock that `create` takes, on the active rows of the organization,
-- makes two creates follow each other only where it has an active row: Cap takes creates apart into
-- their steps, and lets those of an organization without active keys run at once.
pub mod Store
pub mod Names
pub mod Cap
pub mod Auth
pub mod Listing
pub mod Revocation
pub mod Passes
pub mod Reuse
pub mod Endpoints
pub mod Isolation
mod Tests
use tao_gateway.Base.{
  ℕ, suc, ◌+◌, ◌≤◌, ◌≡◌, String, Bool, true, false, Option, none, some, List, [], ◌∷◌, ◌++◌, ◌&&◌,
  leb, ltb, str_eq, str, str_append, prefix, if◌then◌else◌,
}
use tao_gateway.Errors.{GatewayError, gateway_error, Result, ok, err}
use tao_gateway.ApiKeys.Store.{KeyStore, Cached, parts}

abbrev pub api_key_prefix_length : ℕ
api_key_prefix_length = 20

abbrev pub max_keys_per_org : ℕ
max_keys_per_org = 50

abbrev pub revocation_tombstone_ttl : ℕ
revocation_tombstone_ttl = 120

abbrev pub api_key_cache_ttl : ℕ
api_key_cache_ttl = 60

-- A row of the table.
pub record ApiKey : Type 0 where
  pub id : String
  pub org_id : String
  pub name : Option String
  pub prefix : String
  pub key_hash : String
  pub is_active : Bool
  pub debug_mode : Bool

abbrev pub Table : Type 0
Table = List ApiKey

pub data Environment : Type 0 where
  live test : Environment

abbrev pub env_text : Environment → String
env_text live = "live"
env_text test = "test"

-- What `generate_api_key` draws: the random suffix, and the hash of the whole key, with the uuid
-- that the new row gets. A drawn prefix is in no row: the unique constraint refuses it otherwise.
pub record Draw : Type 0 where
  pub id : String
  pub random_suffix : String
  pub key_hash : String

-- `generate_api_key`: the full key, its prefix, its hash.
unfoldable pub generate_api_key : Environment → Draw → String × String × String
unfolding prefix
generate_api_key env draw =
    let full_key =
      str_append (str_append (str_append "tao_sk_" (env_text env)) "_") draw.random_suffix in
    (full_key, prefix api_key_prefix_length full_key, draw.key_hash)

abbrev pub is_active_of : String → ApiKey → Bool
is_active_of org_id key = str_eq key.org_id org_id && key.is_active

-- `select(func.count())` of the active keys of an organization.
unfoldable pub active_count : String → Table → ℕ
active_count org_id [] = 0
active_count org_id (key ∷ keys) =
    let n = active_count org_id keys in if is_active_of org_id key then suc n else n

abbrev pub limit_reached : GatewayError
limit_reached =
    gateway_error "Maximum of 50 active API keys per organization" 422 "validation_error"

abbrev pub key_not_found : GatewayError
key_not_found = gateway_error "API key not found or already revoked" 404 "not_found"

abbrev pub new_row : String → Option String → Environment → Draw → ApiKey
new_row org_id key_name env draw =
    let (full_key, key_prefix, key_hash) = generate_api_key env draw in
    record {
      id = draw.id;
      org_id = org_id;
      name = key_name;
      prefix = key_prefix;
      key_hash = key_hash;
      is_active = true;
      debug_mode = false;
    }

-- `where(ApiKey.id == key_id, ApiKey.org_id == org_id, ApiKey.is_active)`
unfoldable pub find_active : String → String → Table → Option ApiKey
find_active key_id org_id [] = none
find_active key_id org_id (key ∷ keys) =
    let rest = find_active key_id org_id keys in
    if str_eq key.id key_id && is_active_of org_id key then some key else rest

-- The row that `find_active` found, changed to `key'`.
unfoldable pub update_found : String → String → ApiKey → Table → Table
update_found key_id org_id key' [] = []
update_found key_id org_id key' (key ∷ keys) =
    let rest = update_found key_id org_id key' keys in
    if str_eq key.id key_id && is_active_of org_id key then key' ∷ keys else key ∷ rest

-- `"test" if prefix.startswith("tao_sk_test_") else "live"`
unfoldable pub env_of : String → Environment
unfolding prefix
env_of key_prefix = if str_eq (prefix 12 key_prefix) "tao_sk_test_" then test else live

module _ (x : KeyStore) (sha16 : String → String) where
  open x use {State, set, delete}

  abbrev pub cache_key : String → String
  cache_key key_prefix = str_append "api_key:" (sha16 key_prefix)

  abbrev pub tombstone_key : String → String
  tombstone_key key_prefix = str_append "api_key_revoked:" (sha16 key_prefix)

  pub record World : Type 0 where
    pub keys : Table
    pub store : State

  -- What becomes of the best effort on Redis: no client, a pipeline that ran, one that did not.
  pub data Effort : Type 0 where
    unavailable ran refused : Effort

  -- The pipeline is one transaction.
  abbrev pub bury : String → Effort → State → State
  bury key_prefix ran s =
      delete (cache_key key_prefix)
        (set (tombstone_key key_prefix) (parts ("1" ∷ [])) revocation_tombstone_ttl s)
  bury key_prefix _ s = s

  abbrev pub forget : String → Effort → State → State
  forget key_prefix ran s = delete (cache_key key_prefix) s
  forget key_prefix _ s = s

  unfoldable pub revoke_api_key : String → String → Effort → World → Option ApiKey × World
  revoke_api_key key_id org_id effort w = elim (find_active key_id org_id w.keys) [
    | none ↦ (none, w)
    | some key ↦
        let key' : ApiKey = record key { is_active = false } in
        (
          some key',
          record {
            keys = update_found key_id org_id key' w.keys;
            store = bury key.prefix effort w.store;
          },
        )
  ]

  unfoldable pub rotate_api_key :
      String → String → Draw → Effort → World → Result (ApiKey × ApiKey) × World
  rotate_api_key key_id org_id draw effort w = elim (find_active key_id org_id w.keys) [
    | none ↦ (err key_not_found, w)
    | some old ↦
        let old' : ApiKey = record old { is_active = false } in
        let new = new_row org_id old.name (env_of old.prefix) draw in
        (
          ok (new, old'),
          record {
            keys = update_found key_id org_id old' w.keys ++ (new ∷ []);
            store = bury old.prefix effort w.store;
          },
        )
  ]

  abbrev pub with_debug : Option Bool → ApiKey → ApiKey
  with_debug none key = key
  with_debug (some b) key = record key { debug_mode = b }

  unfoldable pub update_api_key :
      String → String → Option Bool → Effort → World → Option ApiKey × World
  update_api_key key_id org_id debug_mode effort w = elim (find_active key_id org_id w.keys) [
    | none ↦ (none, w)
    | some key ↦
        let key' = with_debug debug_mode key in
        (
          some key',
          record {
            keys = update_found key_id org_id key' w.keys;
            store = forget key.prefix effort w.store;
          },
        )
  ]

  -- The test of the cap, from the count of the organization's active keys.
  abbrev pub is_full : String → Table → Bool
  is_full org_id keys = leb max_keys_per_org (active_count org_id keys)

  -- What follows the test: the new row is added and committed.
  abbrev pub insert_key : String → Environment → String → Draw → World → ApiKey × World
  insert_key org_id env key_name draw w =
      let row = new_row org_id (some key_name) env draw in
      (row, record w { keys = w.keys ++ (row ∷ []) })

  -- `create_api_key`, with the name as it is stored, where no other call runs meanwhile. Cap has the
  -- steps of calls that run at once.
  unfoldable pub create_api_key :
      String → Environment → String → Draw → World → Result ApiKey × World
  create_api_key org_id env key_name draw w =
      if is_full org_id w.keys
      then (err limit_reached, w)
      else (let (row, w') = insert_key org_id env key_name draw w in (ok row, w'))
