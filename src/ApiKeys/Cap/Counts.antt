-- ===== src/ApiKeys/Cap/Counts.antt =====
-- The number of an organization's active keys after each call of gateway/services/api_key_service.py.
use tao_gateway.Base.{
  ℕ, ◌+◌, ◌≤◌, ◌≡◌, inl, inr, String, Bool, true, false, Option, some, [], ◌∷◌, ◌++◌, ◌&&◌, arith,
  str_eq, eq_iff, if◌then◌else◌, Bool-cases, Option-cases,
}
use tao_gateway.ApiKeys.Store.{KeyStore}
use tao_gateway.ApiKeys.{
  ApiKey, Table, Environment, Draw, is_active_of, active_count, find_active, update_found, new_row,
  env_of, World, Effort, with_debug, insert_key, create_api_key, revoke_api_key, rotate_api_key,
  update_api_key,
}

-- One for a key that counts.
abbrev one_if : Bool → ℕ
one_if b = if b then 1 else 0

active_count-append :
    (org : String) (keys : Table) (key : ApiKey)
    → active_count org (keys ++ (key ∷ [])) ≡ active_count org keys + one_if (is_active_of org key)
unfolding active_count
active_count-append org [] key = ground arith
active_count-append org (k ∷ keys) key = ground (arith, active_count-append org keys key)

active_count-update :
    (org key_id org_id : String) (keys : Table) (key key' : ApiKey)
    → find_active key_id org_id keys ≡ some key
    → active_count org (update_found key_id org_id key' keys) + one_if (is_active_of org key)
      ≡ active_count org keys + one_if (is_active_of org key')
unfolding active_count find_active update_found
active_count-update org key_id org_id [] key key' h = cc
active_count-update org key_id org_id (k ∷ keys) key key' h =
    elim (Bool-cases (str_eq k.id key_id && is_active_of org_id k)) [
      | inl here ↦ rw here (ground (arith, rw here at h))
      | inr there ↦
          rw there
            (ground (arith, active_count-update org key_id org_id keys key key' (rw there at h)))
    ]

find_active-is_active :
    (key_id org_id : String) (keys : Table) (key : ApiKey)
    → find_active key_id org_id keys ≡ some key
    → is_active_of org_id key ≡ true
unfolding find_active
find_active-is_active key_id org_id [] key h = cc
find_active-is_active key_id org_id (k ∷ keys) key h =
    ground (arith, find_active-is_active key_id org_id keys key)

module _ (x : KeyStore) (sha16 : String → String) where
  abbrev pub count : String → World x sha16 → ℕ
  count org w = active_count org w.keys

  pub insert_lem :
      (o : String) (env : Environment) (name : String) (draw : Draw) (w : World x sha16)
      → count o (insert_key x sha16 o env name draw w).1 ≡ count o w + 1
  insert_lem o env name draw w =
      ground (arith, active_count-append o w.keys (new_row o (some name) env draw), eq_iff o o)

  pub create_apart :
      (org o : String) (env : Environment) (name : String) (draw : Draw) (w : World x sha16)
      → str_eq org o ≡ false
      → count o (create_api_key x sha16 org env name draw w).1 ≡ count o w
  unfolding create_api_key
  create_apart org o env name draw w h =
      ground (arith, active_count-append o w.keys (new_row org (some name) env draw))

  pub revoke-cap :
      (id org o : String) (e : Effort x sha16) (w : World x sha16)
      → count o (revoke_api_key x sha16 id org e w).1 ≤ count o w
  unfolding revoke_api_key
  revoke-cap id org o e w = elim (Option-cases (find_active id org w.keys)) [
    | inl missing ↦ rw (missing, revoke_api_key) (omega arith)
    | inr (key, found) ↦
        let key' : ApiKey = record key { is_active = false } in
        rw (found, revoke_api_key)
          (ground (arith, active_count-update o id org w.keys key key' found))
  ]

  pub rotate-cap :
      (id org o : String) (draw : Draw) (e : Effort x sha16) (w : World x sha16)
      → count o (rotate_api_key x sha16 id org draw e w).1 ≤ count o w
  unfolding rotate_api_key
  rotate-cap id org o draw e w = elim (Option-cases (find_active id org w.keys)) [
    | inl missing ↦ rw (missing, rotate_api_key) (omega arith)
    | inr (key, found) ↦
        let key' : ApiKey = record key { is_active = false } in
        let new = new_row org key.name (env_of key.prefix) draw in
        rw (found, rotate_api_key)
          (ground (
            arith,
            active_count-update o id org w.keys key key' found,
            active_count-append o (update_found id org key' w.keys) new,
            find_active-is_active id org w.keys key found,
            eq_iff key.org_id org,
          ))
  ]

  pub update-cap :
      (id org o : String) (debug : Option Bool) (e : Effort x sha16) (w : World x sha16)
      → count o (update_api_key x sha16 id org debug e w).1 ≤ count o w
  unfolding update_api_key
  update-cap id org o debug e w = elim (Option-cases (find_active id org w.keys)) [
    | inl missing ↦ rw (missing, update_api_key) (omega arith)
    | inr (key, found) ↦
        let key' = with_debug x sha16 debug key in
        rw (found, update_api_key)
          (ground (arith, active_count-update o id org w.keys key key' found))
  ]
