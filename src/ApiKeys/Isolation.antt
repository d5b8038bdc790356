-- ===== src/ApiKeys/Isolation.antt =====
-- The endpoints for keys, of one organization, and the keys of the others.
pub mod Rows
pub mod Service
use tao_gateway.Base.{
  ℕ, ◌+◌, ◌≡◌, refl, sym, ap, ◌∙◌, inl, inr, String, Bool, true, false, ◌&&◌, ◌||◌, Option, none,
  some, List, [], ◌∷◌, ◌++◌, map, keep, keep-keep, any, length, take, drop, str_eq, eq_iff, arith,
  leb, ltb, if◌then◌else◌, Bool-cases, Option-cases,
}
use mathlib.Core.List.{reverse}
use tao_gateway.Errors.{Result, ok, err}
use tao_gateway.Usage.{DebugLog}
use tao_gateway.Usage.DebugLogs.{get_debug_logs}
use tao_gateway.ApiKeys.Store.{KeyStore}
use tao_gateway.ApiKeys.Names.{number_of, max_number, next_key_name, key_name}
use tao_gateway.ApiKeys.Listing.{list_api_keys}
use tao_gateway.ApiKeys.Endpoints.{
  ApiKeyCreateResponse, ApiKeyListItem, ApiKeyListResponse, ApiKeyRotateResponse,
  DebugLogListResponse, create_response, update_response, rotate_response, revoke_response,
  logs_response, list_item, post_create, get_list, patch_update, get_logs, post_rotate, delete_key,
}
use tao_gateway.ApiKeys.{
  ApiKey, Table, Environment, Draw, max_keys_per_org, is_active_of, active_count, find_active,
  update_found, new_row, env_of, World, Effort, with_debug, limit_reached, key_not_found,
  create_api_key, revoke_api_key, rotate_api_key, update_api_key,
}
use tao_gateway.ApiKeys.Isolation.Rows.{
  is_own, own, own-append, own-update_found, find_active-own, active_count-own, any-own, found_own,
  list_api_keys-own, key_name-own,
}
use tao_gateway.ApiKeys.Isolation.Service.{
  create-others, update-others, rotate-others, revoke-others, alone, create-alone, update-alone,
  rotate-alone, revoke-alone,
}

-- A request to an endpoint, with what it draws and meets.
pub data Request (E : Type 0) : Type 0 where
  creates : (env : Environment) (name : Option String) (draw : Draw) → Request E
  lists : (limit offset : ℕ) (include_revoked : Bool) → Request E
  updates : (key_id : String) (debug_mode : Option Bool) (effort : E) → Request E
  reads_logs :
      (key_id : String) (logs : List DebugLog) (now retention_hours limit offset : ℕ) → Request E
  rotates : (key_id : String) (draw : Draw) (effort : E) → Request E
  revokes : (key_id : String) (effort : E) → Request E

pub data KeyResponse : Type 0 where
  created : Result ApiKeyCreateResponse → KeyResponse
  listed : ApiKeyListResponse → KeyResponse
  updated : Result ApiKeyListItem → KeyResponse
  logs_read : Result DebugLogListResponse → KeyResponse
  rotated : Result ApiKeyRotateResponse → KeyResponse
  revoked : Result String → KeyResponse

module _ (x : KeyStore) (sha16 : String → String) (key_number : String → Option ℕ)
    (strip : String → String) (uuid : String → ℕ) where
  -- The answer to a request of an organization, and the next world.
  abbrev pub serve : String → Request (Effort x sha16) → World x sha16 → KeyResponse × World x sha16
  serve org (creates env name draw) w =
      let (r, w') = post_create x sha16 key_number strip uuid org env name draw w in (created r, w')
  serve org (lists limit offset include_revoked) w =
      (listed (get_list x sha16 key_number strip uuid org limit offset include_revoked w), w)
  serve org (updates key_id debug_mode effort) w =
      let (r, w') = patch_update x sha16 key_number strip uuid org key_id debug_mode effort w in
      (updated r, w')
  serve org (reads_logs key_id logs now retention_hours limit offset) w = (
    logs_read
        (get_logs x sha16 key_number strip uuid org key_id logs now retention_hours limit offset w),
    w,
  )
  serve org (rotates key_id draw effort) w =
      let (r, w') = post_rotate x sha16 key_number strip uuid org key_id draw effort w in
      (rotated r, w')
  serve org (revokes key_id effort) w =
      let (r, w') = delete_key x sha16 key_number strip uuid org key_id effort w in (revoked r, w')

  serve-others :
      (org other : String) (c : Request (Effort x sha16)) (w : World x sha16)
      → str_eq org other ≡ false
      → own other (serve org c w).1.keys ≡ own other w.keys
  unfolding post_create patch_update post_rotate delete_key
  serve-others org other (creates env name draw) w h =
      create-others x sha16 org other env _ draw w h
  serve-others org other (lists limit offset include_revoked) w h = refl
  serve-others org other (updates key_id debug_mode effort) w h =
      update-others x sha16 key_id org other debug_mode effort w h
  serve-others org other (reads_logs key_id logs now retention_hours limit offset) w h = refl
  serve-others org other (rotates key_id draw effort) w h =
      rotate-others x sha16 key_id org other draw effort w h
  serve-others org other (revokes key_id effort) w h =
      revoke-others x sha16 key_id org other effort w h

  serve-alone :
      (org : String) (c : Request (Effort x sha16)) (w : World x sha16)
      → (serve org c w).0 ≡ (serve org c (alone x sha16 org w)).0
  unfolding post_create get_list patch_update get_logs post_rotate delete_key get_debug_logs
  serve-alone org (creates env name draw) w =
      rw (← key_name-own key_number strip org name w.keys)
        (ap (λ r. created (create_response env draw r)) (create-alone x sha16 org env _ draw w))
  serve-alone org (lists limit offset include_revoked) w =
      rw (list_api_keys-own org w.keys limit offset include_revoked) refl
  serve-alone org (updates key_id debug_mode effort) w =
      ap (λ r. updated (update_response r)) (update-alone x sha16 key_id org debug_mode effort w)
  serve-alone org (reads_logs key_id logs now retention_hours limit offset) w =
      rw (any-own key_id org w.keys) refl
  serve-alone org (rotates key_id draw effort) w =
      ap (λ r. rotated (rotate_response draw r)) (rotate-alone x sha16 key_id org draw effort w)
  serve-alone org (revokes key_id effort) w =
      ap (λ r. revoked (revoke_response r)) (revoke-alone x sha16 key_id org effort w)

  -- A request to an endpoint for keys changes no key of another organization, and its answer is the
  -- same as if no other organization had a key.
  pub serve-isolated :
      (org other : String) (c : Request (Effort x sha16)) (w : World x sha16)
      → str_eq org other ≡ false
      → (own other (serve org c w).1.keys ≡ own other w.keys)
        × ((serve org c w).0 ≡ (serve org c (alone x sha16 org w)).0)
  serve-isolated org other c w h = (serve-others org other c w h, serve-alone org c w)
