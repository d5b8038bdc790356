-- ===== src/ApiKeys/Isolation/Service.antt =====
-- What the service does with the keys of one organization, and those of the others.
use tao_gateway.Base.{
  ◌≡◌, refl, sym, ◌∙◌, inl, inr, String, Bool, false, Option, none, some, str_eq, leb, Bool-cases,
  Option-cases,
}
use tao_gateway.ApiKeys.Store.{KeyStore}
use tao_gateway.ApiKeys.{
  ApiKey, Environment, Draw, max_keys_per_org, active_count, find_active, update_found, new_row,
  env_of, World, Effort, with_debug, create_api_key, revoke_api_key, rotate_api_key, update_api_key,
}
use tao_gateway.ApiKeys.Isolation.Rows.{
  own, own-append, own-update_found, find_active-own, active_count-own, found_own,
}

module _ (x : KeyStore) (sha16 : String → String) where
  pub create-others :
      (org other : String) (env : Environment) (name : String) (draw : Draw) (w : World x sha16)
      → str_eq org other ≡ false
      → own other (create_api_key x sha16 org env name draw w).1.keys ≡ own other w.keys
  unfolding create_api_key
  create-others org other env name draw w h =
      elim (Bool-cases (leb max_keys_per_org (active_count org w.keys))) [
        | inl full ↦ rw (full, create_api_key) refl
        | inr room ↦ rw (room, create_api_key) (own-append other w.keys _ h)
      ]

  pub update-others :
      (key_id org other : String) (debug_mode : Option Bool) (effort : Effort x sha16)
      (w : World x sha16)
      → str_eq org other ≡ false
      → own other (update_api_key x sha16 key_id org debug_mode effort w).1.keys ≡ own other w.keys
  unfolding update_api_key
  update-others key_id org other debug_mode effort w h =
      elim (Option-cases (find_active key_id org w.keys)) [
        | inl absent ↦ rw (absent, update_api_key) refl
        | inr (k, found) ↦
            let at = found_own key_id org w.keys k found in
            rw (found, update_api_key)
              (own-update_found other key_id org (with_debug x sha16 debug_mode k) w.keys h
                (debug_own debug_mode k at))
      ]
    where
      debug_own :
          (b : Option Bool) (k : ApiKey) → k.org_id ≡ org → (with_debug x sha16 b k).org_id ≡ org
      debug_own none k at = at
      debug_own (some b) k at = at

  pub rotate-others :
      (key_id org other : String) (draw : Draw) (effort : Effort x sha16) (w : World x sha16)
      → str_eq org other ≡ false
      → own other (rotate_api_key x sha16 key_id org draw effort w).1.keys ≡ own other w.keys
  unfolding rotate_api_key
  rotate-others key_id org other draw effort w h =
      elim (Option-cases (find_active key_id org w.keys)) [
        | inl absent ↦ rw (absent, rotate_api_key) refl
        | inr (k, found) ↦
            let old : ApiKey = record k { is_active = false } in
            let new = new_row org k.name (env_of k.prefix) draw in
            let at = found_own key_id org w.keys k found in
            rw (found, rotate_api_key)
              (own-append other (update_found key_id org old w.keys) new h
                ∙ own-update_found other key_id org old w.keys h at)
      ]

  pub revoke-others :
      (key_id org other : String) (effort : Effort x sha16) (w : World x sha16)
      → str_eq org other ≡ false
      → own other (revoke_api_key x sha16 key_id org effort w).1.keys ≡ own other w.keys
  unfolding revoke_api_key
  revoke-others key_id org other effort w h = elim (Option-cases (find_active key_id org w.keys)) [
    | inl absent ↦ rw (absent, revoke_api_key) refl
    | inr (k, found) ↦
        let gone : ApiKey = record k { is_active = false } in
        rw (found, revoke_api_key)
          (own-update_found other key_id org gone w.keys h (found_own key_id org w.keys k found))
  ]

  -- The world with the organization's own keys alone.
  abbrev pub alone : String → World x sha16 → World x sha16
  alone org w = record w { keys = own org w.keys }

  pub create-alone :
      (org : String) (env : Environment) (name : String) (draw : Draw) (w : World x sha16)
      → (create_api_key x sha16 org env name draw w).0
        ≡ (create_api_key x sha16 org env name draw (alone org w)).0
  unfolding create_api_key
  create-alone org env name draw w =
      let same = active_count-own org w.keys in
      elim (Bool-cases (leb max_keys_per_org (active_count org w.keys))) [
        | inl full ↦ rw (full, create_api_key) (rw (← same, full) refl)
        | inr room ↦ rw (room, create_api_key) (rw (← same, room) refl)
      ]

  pub update-alone :
      (key_id org : String) (debug_mode : Option Bool) (effort : Effort x sha16) (w : World x sha16)
      → (update_api_key x sha16 key_id org debug_mode effort w).0
        ≡ (update_api_key x sha16 key_id org debug_mode effort (alone org w)).0
  unfolding update_api_key
  update-alone key_id org debug_mode effort w =
      let same = sym (find_active-own key_id org w.keys) in
      elim (Option-cases (find_active key_id org w.keys)) [
        | inl absent ↦ rw (absent, same ∙ absent, update_api_key) refl
        | inr (k, found) ↦ rw (found, same ∙ found, update_api_key) refl
      ]

  pub rotate-alone :
      (key_id org : String) (draw : Draw) (effort : Effort x sha16) (w : World x sha16)
      → (rotate_api_key x sha16 key_id org draw effort w).0
        ≡ (rotate_api_key x sha16 key_id org draw effort (alone org w)).0
  unfolding rotate_api_key
  rotate-alone key_id org draw effort w =
      let same = sym (find_active-own key_id org w.keys) in
      elim (Option-cases (find_active key_id org w.keys)) [
        | inl absent ↦ rw (absent, same ∙ absent, rotate_api_key) refl
        | inr (k, found) ↦ rw (found, same ∙ found, rotate_api_key) refl
      ]

  pub revoke-alone :
      (key_id org : String) (effort : Effort x sha16) (w : World x sha16)
      → (revoke_api_key x sha16 key_id org effort w).0
        ≡ (revoke_api_key x sha16 key_id org effort (alone org w)).0
  unfolding revoke_api_key
  revoke-alone key_id org effort w =
      let same = sym (find_active-own key_id org w.keys) in
      elim (Option-cases (find_active key_id org w.keys)) [
        | inl absent ↦ rw (absent, same ∙ absent, revoke_api_key) refl
        | inr (k, found) ↦ rw (found, same ∙ found, revoke_api_key) refl
      ]
