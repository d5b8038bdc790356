-- ===== src/ApiKeys/Passes.antt =====
-- Who passes the authentication.
use tao_gateway.Base.{
  ◌&&◌, str_eq, ◌≡◌, refl, sym, ◌⊎◌, inl, inr, String, true, Option, none, some, List, [], ◌∷◌,
  arith, eq_iff, prefix, if◌then◌else◌, Bool-cases, Option-cases, string_eq,
}
use tao_gateway.Errors.{GatewayError}
use tao_gateway.ApiKeys.Store.{KeyStore, Cached, parts, undecodable}
use tao_gateway.ApiKeys.{ApiKey, Table, api_key_prefix_length, World, cache_key}
use tao_gateway.ApiKeys.Auth.{
  Verified, matches, mismatches, verify_raises, hash_error, debug_of, ApiKeyInfo, valid, rejected,
  Calls, find_prefix, on_verified, read_cached, from_database, get_current_api_key, is_buried,
  Reading, hit, mismatch, no_answer, corrupt, after_reading, redis_error,
}

no_pass : {e : GatewayError} {info : ApiKeyInfo} → rejected e ≡ valid info → ⊥
no_pass e = cc

no_hash_error : {info : ApiKeyInfo} → hash_error ≡ valid info → ⊥
no_hash_error e = cc

no_error : {info : ApiKeyInfo} → redis_error ≡ valid info → ⊥
no_error e = cc

valid_inj : {a b : ApiKeyInfo} → valid a ≡ valid b → a ≡ b
valid_inj e = cc

-- The row stands in the table.
pub data IsRow (key : ApiKey) : Table → Type 0 where
  here : (keys : Table) → IsRow key (key ∷ keys)
  there : (k : ApiKey) (keys : Table) → IsRow key keys → IsRow key (k ∷ keys)

find_prefix-IsRow :
    (p : String) (keys : Table) (key : ApiKey)
    → find_prefix p keys ≡ some key
    → IsRow key keys × (key.is_active ≡ true) × (key.prefix ≡ p)
unfolding find_prefix
find_prefix-IsRow p [] key h = cc
find_prefix-IsRow p (k ∷ keys) key h = elim (Bool-cases (str_eq k.prefix p && k.is_active)) [
  | inr other ↦ let r = find_prefix-IsRow p keys key (rw other at h) in (there k keys r.0, r.1, r.2)
  | inl found ↦
      let same : k ≡ key = ground arith in
      rw (sym same) (here keys, ground arith, ground (arith, eq_iff k.prefix p))
]

module _ (x : KeyStore) (sha16 sha256 : String → String) (verify : String → String → Verified)
    (rehash : String → String → Option String) (uuid : String → Option String) where
  open x use {State, get, set, delete}

  -- The key is that of a row of the table, which is active, has the prefix of the token, and against
  -- whose hash the token verifies.
  abbrev pub IsVerified : String → World x sha16 → ApiKeyInfo → Type 0
  IsVerified token w info =
      (key : ApiKey) × IsRow key w.keys
      × (key.is_active ≡ true)
      × (key.prefix ≡ prefix 20 token)
      × (verify key.key_hash token ≡ matches)
      × (info ≡ record { key_id = key.id; org_id = key.org_id; debug_mode = key.debug_mode })

  -- The key is that of a cached verdict, which has the digest of the token.
  abbrev pub IsCached : String → World x sha16 → ApiKeyInfo → Type 0
  IsCached token w info =
      (k : String) × (o : String) × (more : List String) × (get
          (cache_key x sha16 (prefix api_key_prefix_length token)) w.store
        ≡ some (parts (sha256 token ∷ k ∷ o ∷ more)))
      × (uuid k ≡ some info.key_id)
      × (uuid o ≡ some info.org_id)
      × (info.debug_mode ≡ debug_of more)

  on_verified-passes :
      (token : String) (redis : Option Calls) (w : World x sha16) (key : ApiKey) (info : ApiKeyInfo)
      (v : Verified)
      → verify key.key_hash token ≡ v
      → (on_verified x sha16 sha256 verify rehash uuid token
          (prefix api_key_prefix_length token)
          redis
          w
          key
          v).0
        ≡ valid info
      → (verify key.key_hash token ≡ matches)
        × (info ≡ record { key_id = key.id; org_id = key.org_id; debug_mode = key.debug_mode })
  on_verified-passes token redis w key info mismatches e h = absurd (no_pass h)
  on_verified-passes token redis w key info verify_raises e h = absurd (no_hash_error h)
  on_verified-passes token redis w key info matches e h = (e, sym (valid_inj h))

  from_database-passes :
      (token : String) (redis : Option Calls) (w : World x sha16) (info : ApiKeyInfo)
      → (from_database x sha16 sha256 verify rehash uuid token
          (prefix api_key_prefix_length token)
          redis
          w).0
        ≡ valid info
      → IsVerified token w info
  unfolding from_database
  from_database-passes token redis w info h =
      elim (Option-cases (find_prefix (prefix api_key_prefix_length token) w.keys)) [
        | inl missing ↦ absurd (no_pass (rw missing at h))
        | inr (key, found) ↦
            let row = find_prefix-IsRow (prefix api_key_prefix_length token) w.keys key found in
            let (right, same) =
              on_verified-passes token redis w key info (verify key.key_hash token) refl
                (rw found at h) in
            (key, row.0, row.1, row.2, right, same)
      ]

  read_cached-hit :
      (token : String) (v : Option Cached) (info : ApiKeyInfo)
      → read_cached x sha16 sha256 verify rehash uuid token v ≡ hit info
      → (k : String) × (o : String) × (more : List String) × (v
          ≡ some (parts (sha256 token ∷ k ∷ o ∷ more)))
        × (uuid k ≡ some info.key_id)
        × (uuid o ≡ some info.org_id)
        × (info.debug_mode ≡ debug_of more)
  unfolding read_cached
  read_cached-hit token none info h = cc
  read_cached-hit token (some undecodable) info h = cc
  read_cached-hit token (some (parts [])) info h = cc
  read_cached-hit token (some (parts (a ∷ []))) info h = cc
  read_cached-hit token (some (parts (a ∷ b ∷ []))) info h = cc
  read_cached-hit token (some (parts (a ∷ k ∷ o ∷ more))) info h = (
    k,
    o,
    more,
    ground (arith, eq_iff a (sha256 token)),
    ground arith,
    ground arith,
    ground arith,
  )

  abbrev cached_at : String → Calls → World x sha16 → Option Cached
  cached_at p calls w = if calls.get_ok then get (cache_key x sha16 p) w.store else none

  cached_at-some :
      (p : String) (calls : Calls) (w : World x sha16) (v : Cached)
      → cached_at p calls w ≡ some v
      → get (cache_key x sha16 p) w.store ≡ some v
  cached_at-some p calls w v h = ground arith

  after_reading-passes :
      (token : String) (calls : Calls) (w : World x sha16) (info : ApiKeyInfo) (rd : Reading)
      → let p = prefix api_key_prefix_length token in
        read_cached x sha16 sha256 verify rehash uuid token (cached_at p calls w) ≡ rd
        → (after_reading x sha16 sha256 verify rehash uuid token
            (prefix api_key_prefix_length token)
            calls
            w
            rd).0
          ≡ valid info
        → IsVerified token w info ⊎ IsCached token w info
  unfolding from_database
  after_reading-passes token calls w info (hit found) e h =
      let p = prefix api_key_prefix_length token in
      let (k, o, more, at, uk, uo, d) =
        read_cached-hit token (cached_at p calls w) info (rw (valid_inj h) at e) in
      inr (k, o, more, cached_at-some p calls w _ at, uk, uo, d)
  after_reading-passes token calls w info mismatch e h = absurd (no_pass h)
  after_reading-passes token calls w info no_answer e h =
      inl (from_database-passes token (some calls) w info h)
  after_reading-passes token calls w info corrupt e h = elim (Bool-cases calls.delete_ok) [
    | inr fails ↦ absurd (no_error (rw fails at h))
    | inl works ↦
        let p = prefix api_key_prefix_length token in
        let w' : World x sha16 = record w { store = delete (cache_key x sha16 p) w.store } in
        inl (from_database-passes token (some calls) w' info (rw works at h))
  ]

  -- A request passes only with a token that verifies against the hash of a row of the table, which is
  -- active and has the first 20 characters of the token as its prefix, or with the digest of the token
  -- in a cached verdict: it then acts as the key of that row or of that verdict.
  pub get_current_api_key_passes :
      (token : String) (redis : Option Calls) (w : World x sha16) (info : ApiKeyInfo)
      → (get_current_api_key x sha16 sha256 verify rehash uuid (some token) redis w).0 ≡ valid info
      → IsVerified token w info ⊎ IsCached token w info
  unfolding get_current_api_key
  get_current_api_key_passes token none w info h = inl (from_database-passes token none w info h)
  get_current_api_key_passes token (some calls) w info h =
      let p = prefix api_key_prefix_length token in
      elim (Bool-cases (is_buried x sha16 sha256 verify rehash uuid p calls w.store)) [
        | inl buried ↦ absurd (no_pass (rw buried at h))
        | inr free ↦
            after_reading-passes token calls w info
              (read_cached x sha16 sha256 verify rehash uuid token (cached_at p calls w)) refl
              (rw free at h)
      ]
