-- ===== src/ApiKeys/Auth.antt =====
-- gateway/middleware/auth.py, `get_current_api_key`. `sha256` and `sha16` are the hexadecimal digests
-- (the second its first 16 characters), `verify` and `rehash` the argon2 hasher, `uuid` the parser of
-- an identifier; the text of a cached verdict is the list of its parts between colons.
use tao_gateway.Base.{
  String, Bool, false, Option, none, some, List, [], ◌∷◌, ◌&&◌, str_eq, prefix, if◌then◌else◌,
}
use tao_gateway.Errors.{GatewayError, authentication_error}
use tao_gateway.ApiKeys.Store.{KeyStore, Cached, undecodable, parts}
use tao_gateway.ApiKeys.{
  ApiKey, Table, api_key_prefix_length, api_key_cache_ttl, World, cache_key, tombstone_key,
}

pub record ApiKeyInfo : Type 0 where
  pub key_id : String
  pub org_id : String
  pub debug_mode : Bool

-- What the dependency gives: the key, an exception of the gateway, or an exception that nothing
-- catches, of a `delete` that fails or of `ph.verify`.
pub data Verdict : Type 0 where
  valid : ApiKeyInfo → Verdict
  rejected : GatewayError → Verdict
  redis_error : Verdict
  hash_error : Verdict

-- How `ph.verify` ends: it returns, or raises `VerifyMismatchError`, or another exception, as for a
-- text that is no hash.
pub data Verified : Type 0 where
  matches mismatches verify_raises : Verified

-- Which of the calls on a connected Redis work.
pub record Calls : Type 0 where
  pub exists_ok : Bool
  pub get_ok : Bool
  pub delete_ok : Bool
  pub set_ok : Bool

abbrev pub missing_header : GatewayError
missing_header = authentication_error "Missing authorization header"

abbrev pub invalid_key : GatewayError
invalid_key = authentication_error "Invalid API key"

-- `where(ApiKey.prefix == prefix, ApiKey.is_active)`
unfoldable pub find_prefix : String → Table → Option ApiKey
find_prefix p [] = none
find_prefix p (key ∷ keys) =
    let rest = find_prefix p keys in if str_eq key.prefix p && key.is_active then some key else rest

-- `record.key_hash = …` in the row that `find_prefix` found.
unfoldable pub update_prefix : String → ApiKey → Table → Table
update_prefix p key' [] = []
update_prefix p key' (key ∷ keys) =
    let rest = update_prefix p key' keys in
    if str_eq key.prefix p && key.is_active then key' ∷ keys else key ∷ rest

-- What a cached value says of a token: nothing, that the token is another, a broken identifier, or
-- a verdict.
pub data Reading : Type 0 where
  no_answer mismatch corrupt : Reading
  hit : ApiKeyInfo → Reading

abbrev pub debug_of : List String → Bool
debug_of [] = false
debug_of (d ∷ more) = str_eq d "1"

abbrev pub read_ids : Option String → Option String → Bool → Reading
read_ids (some key_id) (some org_id) debug_mode =
    hit (record { key_id = key_id; org_id = org_id; debug_mode = debug_mode })
read_ids _ _ debug_mode = corrupt

module _ (x : KeyStore) (sha16 sha256 : String → String) (verify : String → String → Verified)
    (rehash : String → String → Option String) (uuid : String → Option String) where
  open x use {State, get, set, delete}

  unfoldable pub read_parts : String → List String → Reading
  read_parts token (cached_hmac ∷ key_id ∷ org_id ∷ more) =
      if str_eq cached_hmac (sha256 token)
      then read_ids (uuid key_id) (uuid org_id) (debug_of more)
      else mismatch
  read_parts token _ = no_answer

  unfoldable pub read_cached : String → Option Cached → Reading
  unfolding read_parts
  read_cached token none = no_answer
  read_cached token (some undecodable) = corrupt
  read_cached token (some (parts ps)) = read_parts token ps

  abbrev pub flag : Bool → String
  flag b = if b then "1" else "0"

  -- The value that a success leaves in the cache.
  abbrev pub cached_of : String → ApiKey → Cached
  cached_of token key = parts (sha256 token ∷ key.id ∷ key.org_id ∷ flag key.debug_mode ∷ [])

  abbrev pub populate : String → String → ApiKey → Option Calls → State → State
  populate token p key none s = s
  populate token p key (some calls) s =
      if calls.set_ok
      then set (cache_key x sha16 p) (cached_of token key) api_key_cache_ttl s
      else s

  abbrev pub info_of : ApiKey → ApiKeyInfo
  info_of key = record { key_id = key.id; org_id = key.org_id; debug_mode = key.debug_mode }

  -- `try_rehash`: a new hash, where the hasher asks for one and the commit works.
  abbrev pub rehashed : String → String → ApiKey → Option String → Table → Table
  rehashed p token key none keys = keys
  rehashed p token key (some new_hash) keys =
      update_prefix p (record key { key_hash = new_hash }) keys

  abbrev pub on_verified :
      String → String → Option Calls → World x sha16 → ApiKey → Verified → Verdict × World x sha16
  on_verified token p redis w key mismatches = (rejected invalid_key, w)
  on_verified token p redis w key verify_raises = (hash_error, w)
  on_verified token p redis w key matches = (
    valid (info_of key),
    record {
      keys = rehashed p token key (rehash key.key_hash token) w.keys;
      store = populate token p key redis w.store;
    },
  )

  abbrev pub check_row :
      String → String → Option Calls → World x sha16 → Option ApiKey → Verdict × World x sha16
  check_row token p redis w none = (rejected invalid_key, w)
  check_row token p redis w (some key) = on_verified token p redis w key (verify key.key_hash token)

  -- The lookup in the database, and what follows it.
  unfoldable pub from_database :
      String → String → Option Calls → World x sha16 → Verdict × World x sha16
  from_database token p redis w = check_row token p redis w (find_prefix p w.keys)

  abbrev pub after_reading :
      String → String → Calls → World x sha16 → Reading → Verdict × World x sha16
  after_reading token p calls w (hit info) = (valid info, w)
  after_reading token p calls w mismatch = (rejected invalid_key, w)
  after_reading token p calls w no_answer = from_database token p (some calls) w
  after_reading token p calls w corrupt =
      if calls.delete_ok
      then from_database token p (some calls)
          (record w { store = delete (cache_key x sha16 p) w.store })
      else (redis_error, w)

  abbrev pub is_buried : String → Calls → State → Bool
  is_buried p calls s = elim (get (tombstone_key x sha16 p) s) [
    | none ↦ false
    | some v ↦ calls.exists_ok
  ]

  abbrev pub through_cache : String → String → Calls → World x sha16 → Verdict × World x sha16
  through_cache token p calls w =
      if is_buried p calls w.store
      then (rejected invalid_key, w)
      else after_reading token p calls w
          (read_cached token (if calls.get_ok then get (cache_key x sha16 p) w.store else none))

  abbrev pub with_redis : String → String → Option Calls → World x sha16 → Verdict × World x sha16
  with_redis token p none w = from_database token p none w
  with_redis token p (some calls) w = through_cache token p calls w

  -- The second argument is the client that `try_get_redis` gives.
  unfoldable pub get_current_api_key :
      Option String → Option Calls → World x sha16 → Verdict × World x sha16
  get_current_api_key none redis w = (rejected missing_header, w)
  get_current_api_key (some token) redis w =
      with_redis token (prefix api_key_prefix_length token) redis w
