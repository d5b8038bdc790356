-- ===== src/ApiKeys/Reuse.antt =====
-- The cache answers as the database did.
use tao_gateway.Base.{
  ◌≡◌, refl, String, Bool, true, false, Option, none, some, arith, str_eq, prefix, string_eq,
}
use tao_gateway.Base.Dict.{beq_self}
use tao_gateway.ApiKeys.Store.{KeyStore}
use tao_gateway.ApiKeys.{
  ApiKey, Table, api_key_prefix_length, api_key_cache_ttl, World, cache_key, tombstone_key,
}
use tao_gateway.ApiKeys.Auth.{
  Verified, matches, ApiKeyInfo, Verdict, valid, Calls, find_prefix, read_cached, cached_of,
  info_of, rehashed, from_database, get_current_api_key, flag, is_buried, hit,
}
use tao_gateway.ApiKeys.Revocation.{keys_apart}

module _ (x : KeyStore) (sha16 sha256 : String → String) (verify : String → String → Verified)
    (rehash : String → String → Option String) (uuid : String → Option String) where
  open x use {State, get, set, delete}

  not_buried :
      (p : String) (calls : Calls) (s : State)
      → get (tombstone_key x sha16 p) s ≡ none
      → is_buried x sha16 sha256 verify rehash uuid p calls s ≡ false
  not_buried p calls s h = ground (arith, h)

  abbrev pub info : ApiKey → ApiKeyInfo
  info key = info_of x sha16 sha256 verify rehash uuid key

  abbrev pub auth : String → Calls → World x sha16 → Verdict × World x sha16
  auth token calls w =
      get_current_api_key x sha16 sha256 verify rehash uuid (some token) (some calls) w

  first_call :
      (token : String) (key : ApiKey) (w : World x sha16) (calls : Calls)
      → let p = prefix api_key_prefix_length token in
        find_prefix p w.keys ≡ some key
        → verify key.key_hash token ≡ matches
        → get (tombstone_key x sha16 p) w.store ≡ none
        → get (cache_key x sha16 p) w.store ≡ none
        → calls.set_ok ≡ true
        → calls.get_ok ≡ true
        → auth token calls w ≡ (
          valid (info key),
          record {
            keys =
                rehashed x sha16 sha256 verify rehash uuid p token key
                  (rehash key.key_hash token)
                  w.keys;
            store =
                set
                  (cache_key x sha16 p)
                  (cached_of x sha16 sha256 verify rehash uuid token key)
                  api_key_cache_ttl
                  w.store;
          },
        )
  unfolding get_current_api_key from_database read_cached
  first_call token key w calls found good tomb miss set_ok get_ok =
      let p = prefix api_key_prefix_length token in
      rw (not_buried p calls w.store tomb, get_ok, miss, found, good, set_ok) refl

  flag_lem : (b : Bool) → str_eq (flag x sha16 sha256 verify rehash uuid b) "1" ≡ b
  flag_lem true = refl
  flag_lem false = refl

  read_own :
      (token : String) (key : ApiKey)
      → uuid key.id ≡ some key.id
      → uuid key.org_id ≡ some key.org_id
      → read_cached x sha16 sha256 verify rehash uuid token
          (some (cached_of x sha16 sha256 verify rehash uuid token key))
        ≡ hit (info key)
  unfolding read_cached
  read_own token key id org = rw (beq_self (sha256 token), id, org, flag_lem key.debug_mode) refl

  second_call :
      (token : String) (key : ApiKey) (w : World x sha16) (calls : Calls)
      → let p = prefix api_key_prefix_length token in
        uuid key.id ≡ some key.id
        → uuid key.org_id ≡ some key.org_id
        → get (tombstone_key x sha16 p) w.store ≡ none
        → get (cache_key x sha16 p) w.store
          ≡ some (cached_of x sha16 sha256 verify rehash uuid token key)
        → calls.get_ok ≡ true
        → auth token calls w ≡ (valid (info key), w)
  unfolding get_current_api_key
  second_call token key w calls id org tomb at get_ok =
      let p = prefix api_key_prefix_length token in
      rw (not_buried p calls w.store tomb, get_ok, at, read_own token key id org) refl

  -- A first request that passes through the database and writes the cache: a second one with the same
  -- token gets the same key from the cache, whatever became of the database since, provided that
  -- there is no tombstone and that the identifiers of the row are texts of identifiers.
  pub get_current_api_key_cached :
      (token : String) (keys : Table) (key : ApiKey) (w : World x sha16) (calls : Calls)
      → let p = prefix api_key_prefix_length token in
        find_prefix p w.keys ≡ some key
        → verify key.key_hash token ≡ matches
        → uuid key.id ≡ some key.id
        → uuid key.org_id ≡ some key.org_id
        → get (tombstone_key x sha16 p) w.store ≡ none
        → get (cache_key x sha16 p) w.store ≡ none
        → calls.set_ok ≡ true
        → calls.get_ok ≡ true
        → let (first, w1) = auth token calls w in
          let w2 : World x sha16 = record w1 { keys = keys } in
          (first ≡ valid (info key)) × (auth token calls w2 ≡ (valid (info key), w2))
  get_current_api_key_cached token keys key w calls found good id org tomb miss set_ok get_ok =
      let p = prefix api_key_prefix_length token in
      let v = cached_of x sha16 sha256 verify rehash uuid token key in
      let s = set (cache_key x sha16 p) v api_key_cache_ttl w.store in
      let at =
        x.get-set (cache_key x sha16 p) (cache_key x sha16 p) v api_key_cache_ttl w.store
          (omega arith) in
      let off =
        x.get-set (cache_key x sha16 p) (tombstone_key x sha16 p) v api_key_cache_ttl w.store
          (omega arith) in
      let w2 : World x sha16 = record { keys = keys; store = s } in
      rw (first_call token key w calls found good tomb miss set_ok get_ok) (
        refl,
        second_call token key w2 calls id org (rw (off, keys_apart (sha16 p)) tomb)
            (rw (at, beq_self (cache_key x sha16 p)) refl) get_ok,
      )
