-- ===== src/ApiKeys/Tests.antt =====
-- The keys at concrete rows, with a dictionary for Redis, and each theorem at a concrete input.
use tao_gateway.Base.{
  ℕ, ◌≡◌, refl, ◌⊎◌, String, true, Option, none, some, [], ◌∷◌, str_eq, prefix, string_eq,
  if◌then◌else◌,
}
use tao_gateway.Base.Dict.{Dict, lookup, insert, erase, lookup-insert, lookup-erase}
use tao_gateway.ApiKeys.Store.{KeyStore, Cached, parts}
use tao_gateway.ApiKeys.{
  ApiKey, live, Draw, find_active, World, Effort, ran, cache_key, api_key_prefix_length,
  api_key_cache_ttl, insert_key, revoke_api_key,
}
use tao_gateway.ApiKeys.Auth.{
  Verified, matches, mismatches, verify_raises, Calls, valid, rejected, invalid_key, find_prefix,
  get_current_api_key, from_database, read_cached,
}
use tao_gateway.ApiKeys.Names.{next_key_name}
use tao_gateway.ApiKeys.Revocation.{revoke_api_key_rejects}
use tao_gateway.ApiKeys.Passes.{IsVerified, IsCached, get_current_api_key_passes}
use tao_gateway.ApiKeys.Reuse.{auth, info, get_current_api_key_cached}
use tao_gateway.ApiKeys.Isolation.{Request, rotates, serve, serve-isolated}
use tao_gateway.ApiKeys.Isolation.Rows.{own}
use tao_gateway.ApiKeys.Isolation.Service.{alone}

abbrev dict : KeyStore
dict = record {
  State = Dict String Cached;
  get = λ k s. lookup k s;
  set = λ k v n s. insert k v s;
  delete = λ k s. erase k s;
  get-set = λ k j v n s p. lookup-insert k j v s;
  get-delete = λ k j s. lookup-erase k j s;
}

-- A digest, a hasher and a parser of identifiers that leave a text as it is.
abbrev same : String → String
same s = s

abbrev no_rehash : String → String → Option String
no_rehash h t = none

abbrev parse : String → Option String
parse s = some s

abbrev token : String
token = "tao_sk_live_abcdefgh1234"

abbrev key : ApiKey
key = record {
  id = "k1";
  org_id = "o1";
  name = some "Key 3";
  prefix = "tao_sk_live_abcdefgh";
  key_hash = token;
  is_active = true;
  debug_mode = true;
}

abbrev world : World dict same
world = record { keys = key ∷ []; store = [] }

abbrev verify : String → String → Verified
verify key_hash token =
    if str_eq key_hash ""
    then verify_raises
    else if str_eq key_hash token
    then matches
    else mismatches

abbrev calls : Calls
calls = record { exists_ok = true; get_ok = true; delete_ok = true; set_ok = true }

abbrev draw : Draw
draw = record { id = "k2"; random_suffix = "zyxwvuts9876"; key_hash = "h2" }

token-prefix : prefix api_key_prefix_length token ≡ "tao_sk_live_abcdefgh"
unfolding prefix
token-prefix = refl

key-found : find_active "k1" "o1" world.keys ≡ some key
unfolding find_active
key-found = refl

key-found_prefix : find_prefix (prefix api_key_prefix_length token) world.keys ≡ some key
unfolding find_prefix prefix
key-found_prefix = refl

passes_run :
    (get_current_api_key dict same same verify no_rehash parse (some token) (some calls) world).0
    ≡ valid (record { key_id = "k1"; org_id = "o1"; debug_mode = true })
unfolding get_current_api_key from_database read_cached find_prefix prefix
passes_run = refl

abbrev inserted : World dict same
inserted = (insert_key dict same "o1" live "Key 4" draw world).1

revoke_api_key_rejects_example :
    let w1 = (revoke_api_key dict same "k1" "o1" ran world).1 in
    let w2 : World dict same = record w1 {
      store =
          dict.set
            (cache_key dict same "tao_sk_live_abcdefgh")
            (parts (token ∷ "k1" ∷ "o1" ∷ []))
            api_key_cache_ttl
            w1.store;
    } in
    get_current_api_key dict same same verify no_rehash parse (some token) (some calls) w2
    ≡ (rejected invalid_key, w2)
revoke_api_key_rejects_example =
    revoke_api_key_rejects dict same same verify no_rehash parse "k1" "o1" token key
      (parts (token ∷ "k1" ∷ "o1" ∷ [])) calls world key-found token-prefix refl

get_current_api_key_passes_example :
    IsVerified dict same same verify no_rehash parse token world
      (record { key_id = "k1"; org_id = "o1"; debug_mode = true })
    ⊎ IsCached dict same same verify no_rehash parse token world
        (record { key_id = "k1"; org_id = "o1"; debug_mode = true })
get_current_api_key_passes_example =
    get_current_api_key_passes dict same same verify no_rehash parse token (some calls) world
      (record { key_id = "k1"; org_id = "o1"; debug_mode = true }) passes_run

get_current_api_key_cached_example :
    let (first, w1) = auth dict same same verify no_rehash parse token calls world in
    let w2 : World dict same = record w1 { keys = [] } in
    (first ≡ valid (info dict same same verify no_rehash parse key))
    × (auth dict same same verify no_rehash parse token calls w2
        ≡ (valid (info dict same same verify no_rehash parse key), w2))
get_current_api_key_cached_example =
    get_current_api_key_cached dict same same verify no_rehash parse token [] key world calls
      key-found_prefix refl refl refl refl refl refl refl

-- The numbers of the names "Key 3" and "Key 4".
abbrev key_number : String → Option ℕ
key_number name =
    if str_eq name "Key 3" then some 3 else if str_eq name "Key 4" then some 4 else none

reads_back : key_number (next_key_name key_number same "o1" world.keys) ≡ some 4
unfolding next_key_name
reads_back = refl

abbrev no_number : String → Option ℕ
no_number name = none

abbrev uuid_number : String → ℕ
uuid_number id = 0

abbrev two_orgs : World dict same
two_orgs = record { keys = key ∷ record key { id = "k2"; org_id = "o2" } ∷ []; store = [] }

abbrev rotation : Request (Effort dict same)
rotation = rotates "k1" (record { id = "k3"; random_suffix = "zzzzzzzz5678"; key_hash = "h3" }) ran

serve-isolated_example :
    let served = serve dict same no_number same uuid_number "o1" rotation two_orgs in
    (own "o2" served.1.keys ≡ own "o2" two_orgs.keys)
    × (served.0
        ≡ (serve dict same no_number same uuid_number "o1" rotation
            (alone dict same "o1" two_orgs)).0)
serve-isolated_example =
    serve-isolated dict same no_number same uuid_number "o1" "o2" rotation two_orgs refl
