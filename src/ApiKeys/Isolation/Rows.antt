-- ===== src/ApiKeys/Isolation/Rows.antt =====
-- The keys of one organization among the rows of the table api_keys.
use tao_gateway.Base.{
  ℕ, ◌≡◌, refl, ap, inl, inr, String, Bool, true, false, ◌&&◌, ◌||◌, Option, none, some, [], ◌∷◌,
  ◌++◌, keep, keep-keep, any, str_eq, eq_iff, arith, ltb, if◌then◌else◌, Bool-cases,
}
use tao_gateway.ApiKeys.Names.{number_of, max_number, next_key_name, key_name}
use tao_gateway.ApiKeys.Listing.{list_api_keys}
use tao_gateway.ApiKeys.{ApiKey, Table, is_active_of, active_count, find_active, update_found}

-- The keys of an organization.
abbrev pub is_own : String → ApiKey → Bool
is_own org k = str_eq k.org_id org

abbrev pub own : String → Table → Table
own org keys = keep (is_own org) keys

pub own-append :
    (other : String) (keys : Table) (k : ApiKey)
    → str_eq k.org_id other ≡ false
    → own other (keys ++ (k ∷ [])) ≡ own other keys
own-append other [] k h = rw h refl
own-append other (j ∷ keys) k h = elim (Bool-cases (is_own other j)) [
  | inl e ↦ rw e (ap (λ l. j ∷ l) (own-append other keys k h))
  | inr e ↦ rw e (own-append other keys k h)
]

-- A change to a key of one organization leaves the keys of another.
pub own-update_found :
    (other key_id org : String) (key' : ApiKey) (keys : Table)
    → str_eq org other ≡ false
    → key'.org_id ≡ org
    → own other (update_found key_id org key' keys) ≡ own other keys
unfolding update_found
own-update_found other key_id org key' [] h e = refl
own-update_found other key_id org key' (k ∷ keys) h e =
    elim (Bool-cases (str_eq k.id key_id && is_active_of org k)) [
      | inl here ↦ rw here (rw (is_other k here, e, h) refl)
      | inr there ↦ rw there (elim (Bool-cases (is_own other k)) [
        | inl o ↦ rw o (ap (λ l. k ∷ l) (own-update_found other key_id org key' keys h e))
        | inr o ↦ rw o (own-update_found other key_id org key' keys h e)
      ])
    ]
  where
    is_other :
        (k : ApiKey)
        → str_eq k.id key_id && is_active_of org k ≡ true
        → str_eq k.org_id other ≡ false
    is_other k here = ground (arith, eq_iff k.org_id org, h)

pub find_active-own :
    (key_id org : String) (keys : Table)
    → find_active key_id org keys ≡ find_active key_id org (own org keys)
unfolding find_active
find_active-own key_id org [] = refl
find_active-own key_id org (k ∷ keys) = elim (Bool-cases (is_own org k)) [
  | inl o ↦ ground (arith, o, find_active-own key_id org keys)
  | inr o ↦ ground (arith, o, find_active-own key_id org keys)
]

pub active_count-own :
    (org : String) (keys : Table) → active_count org keys ≡ active_count org (own org keys)
unfolding active_count
active_count-own org [] = refl
active_count-own org (k ∷ keys) = ground (arith, active_count-own org keys)

pub any-own :
    (key_id org : String) (keys : Table)
    → any (λ (k : ApiKey). str_eq k.id key_id && str_eq k.org_id org) keys
      ≡ any (λ (k : ApiKey). str_eq k.id key_id && str_eq k.org_id org) (own org keys)
any-own key_id org [] = refl
any-own key_id org (k ∷ keys) = ground (arith, any-own key_id org keys)

pub found_own :
    (key_id org : String) (keys : Table) (k : ApiKey)
    → find_active key_id org keys ≡ some k
    → k.org_id ≡ org
unfolding find_active
found_own key_id org [] k h = cc
found_own key_id org (j ∷ keys) k h = elim (Bool-cases (str_eq j.id key_id && is_active_of org j)) [
  | inl here ↦ ground (arith, eq_iff j.org_id org, rw here at h)
  | inr there ↦ found_own key_id org keys k (rw there at h)
]

pub list_api_keys-own :
    (org : String) (keys : Table) (limit offset : ℕ) (include_revoked : Bool)
    → list_api_keys org keys limit offset include_revoked
      ≡ list_api_keys org (own org keys) limit offset include_revoked
unfolding list_api_keys
list_api_keys-own org keys limit offset include_revoked =
    let p = λ (k : ApiKey). str_eq k.org_id org && (include_revoked || k.is_active) in
    rw (keep-keep p (is_own org) keys (λ k h. ground arith)) refl

module _ (key_number : String → Option ℕ) (strip : String → String) where
  max_number-own :
      (org : String) (m : ℕ) (keys : Table)
      → max_number key_number strip org m keys ≡ max_number key_number strip org m (own org keys)
  max_number-own org m [] = refl
  max_number-own org m (k ∷ keys) = elim (Bool-cases (is_own org k)) [
    | inl o ↦
        let n = number_of key_number strip k.name in
        let m' = if ltb m n then n else m in rw (o, max_number) (rw o (max_number-own org m' keys))
    | inr o ↦ rw o (max_number-own org m keys)
  ]

  pub key_name-own :
      (org : String) (name : Option String) (keys : Table)
      → key_name key_number strip org name keys ≡ key_name key_number strip org name (own org keys)
  unfolding key_name next_key_name
  key_name-own org none keys = rw (max_number-own org 0 keys) refl
  key_name-own org (some name) keys = rw (max_number-own org 0 keys) refl
