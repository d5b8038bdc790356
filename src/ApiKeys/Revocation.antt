-- ===== src/ApiKeys/Revocation.antt =====
-- A revoked key is rejected, whatever the cache holds.
use tao_gateway.Base.{
  ◌≡◌, refl, ◌≢◌, inl, inr, String, true, false, Option, some, [], ◌∷◌, arith, eq_iff, str_append,
  prefix, Bool-cases, ◌==◌, string_eq,
}
use text.Mathlib.TextLemmas.{append_cancel_right}
use tao_gateway.Base.Dict.{beq_self}
use tao_gateway.ApiKeys.Store.{KeyStore, Cached, parts}
use tao_gateway.ApiKeys.{
  ApiKey, api_key_prefix_length, api_key_cache_ttl, revocation_tombstone_ttl, World, ran, cache_key,
  tombstone_key, find_active, revoke_api_key, bury,
}
use tao_gateway.ApiKeys.Auth.{
  Verified, rejected, Calls, invalid_key, get_current_api_key, is_buried,
}

texts_apart : ◌≢◌ {A = String} "api_key:" "api_key_revoked:"
texts_apart e = cc

pub keys_apart : (h : String) → (str_append "api_key:" h == str_append "api_key_revoked:" h) ≡ false
keys_apart h =
    let c = str_append "api_key:" h in
    let t = str_append "api_key_revoked:" h in
    elim (Bool-cases (c == t)) [
      | inr other ↦ other
      | inl same ↦
          absurd (
            texts_apart (append_cancel_right "api_key:" "api_key_revoked:" h ((eq_iff c t).0 same)))
    ]

module _ (x : KeyStore) (sha16 sha256 : String → String) (verify : String → String → Verified)
    (rehash : String → String → Option String) (uuid : String → Option String) where
  open x use {State, get, set, delete}

  abbrev reused : String → Cached → State → State
  reused p v s = set (cache_key x sha16 p) v api_key_cache_ttl (bury x sha16 p ran s)

  tombstone-reused :
      (p : String) (v : Cached) (s : State)
      → get (tombstone_key x sha16 p) (reused p v s) ≡ some (parts ("1" ∷ []))
  tombstone-reused p v s =
      let c = cache_key x sha16 p in
      let t = tombstone_key x sha16 p in
      let s1 = set t (parts ("1" ∷ [])) revocation_tombstone_ttl s in
      ground (
        arith,
        x.get-set c t v api_key_cache_ttl (delete c s1),
        x.get-delete c t s1,
        x.get-set t t (parts ("1" ∷ [])) revocation_tombstone_ttl s,
        keys_apart (sha16 p),
        beq_self t,
      )

  is_buried-reused :
      (p : String) (v : Cached) (calls : Calls) (s : State)
      → calls.exists_ok ≡ true
      → is_buried x sha16 sha256 verify rehash uuid p calls (reused p v s) ≡ true
  is_buried-reused p v calls s h = ground (arith, tombstone-reused p v s)

  -- After a revocation whose effort on Redis ran, and as long as its tombstone lives, every token
  -- with the prefix of the key is rejected wherever the tombstone can be read, whatever a concurrent
  -- request wrote into the cache since, and nothing changes.
  pub revoke_api_key_rejects :
      (key_id org_id token : String) (key : ApiKey) (v : Cached) (calls : Calls) (w : World x sha16)
      → find_active key_id org_id w.keys ≡ some key
      → prefix api_key_prefix_length token ≡ key.prefix
      → calls.exists_ok ≡ true
      → let w1 = (revoke_api_key x sha16 key_id org_id ran w).1 in
        let w2 : World x sha16 = record w1 {
          store = set (cache_key x sha16 key.prefix) v api_key_cache_ttl w1.store;
        } in
        get_current_api_key x sha16 sha256 verify rehash uuid (some token) (some calls) w2
        ≡ (rejected invalid_key, w2)
  unfolding get_current_api_key revoke_api_key
  revoke_api_key_rejects key_id org_id token key v calls w found p ok =
      rw (found, p, revoke_api_key, is_buried-reused key.prefix v calls w.store ok) refl
