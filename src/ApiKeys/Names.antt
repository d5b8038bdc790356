-- ===== src/ApiKeys/Names.antt =====
-- The name that a key gets where none is given.
use tao_gateway.Base.{
  ℕ, ◌+◌, ◌≤◌, ◌≡◌, ap, ◌≢◌, ◌⊎◌, inl, inr, String, false, Option, none, some, [], ◌∷◌, arith, All,
  All-map, ltb, str_eq, str, str_append, if◌then◌else◌, Bool-cases,
}
use tao_gateway.ApiKeys.{ApiKey, Table}

-- `key_number` is the number of a name that matches `^Key (\\d+)$`, and `strip` is `str.strip`.
module _ (key_number : String → Option ℕ) (strip : String → String) where
  abbrev pub number_of : Option String → ℕ
  number_of none = 0
  number_of (some name) = elim (key_number name) [ none ↦ 0 | some n ↦ n ]

  -- `max(max_num, …)` over the names of the organization's keys, the revoked ones included.
  abbrev pub max_number : String → ℕ → Table → ℕ
  max_number org_id max_num [] = max_num
  max_number org_id max_num (key ∷ keys) =
      max_number org_id
        (if str_eq key.org_id org_id
          then if ltb max_num (number_of key.name) then number_of key.name else max_num
          else max_num)
        keys

  unfoldable pub next_key_name : String → Table → String
  unfolding str
  next_key_name org_id keys = str_append "Key " (str (max_number org_id 0 keys + 1))

  -- `name.strip() if name and name.strip() else …`
  unfoldable pub key_name : String → Option String → Table → String
  unfolding next_key_name
  key_name org_id none keys = next_key_name org_id keys
  key_name org_id (some name) keys =
      if str_eq (strip name) "" then next_key_name org_id keys else strip name

  max_number-le : (org_id : String) (m : ℕ) (keys : Table) → m ≤ max_number org_id m keys
  max_number-le org_id m [] = omega arith
  max_number-le org_id m (key ∷ keys) =
      ground (arith, max_number-le org_id m keys, max_number-le org_id (number_of key.name) keys)

  numbers_le :
      (org_id : String) (m : ℕ) (keys : Table)
      → All
          (λ k. (str_eq k.org_id org_id ≡ false) ⊎ (number_of k.name ≤ max_number org_id m keys))
          keys
  numbers_le org_id m [] = tt
  numbers_le org_id m (key ∷ keys) =
      let n = number_of key.name in
      let m' = if str_eq key.org_id org_id then if ltb m n then n else m else m in
      (
        elim (Bool-cases (str_eq key.org_id org_id)) [
          | inr other ↦ inl other
          | inl own ↦ inr (ground (arith, own, max_number-le org_id m' keys))
        ],
        numbers_le org_id m' keys,
      )

  fresh_name :
      (org_id : String) (keys : Table) (k : ApiKey)
      → key_number (next_key_name org_id keys) ≡ some (max_number org_id 0 keys + 1)
      → number_of k.name ≤ max_number org_id 0 keys
      → k.name ≢ some (next_key_name org_id keys)
  fresh_name org_id keys k h le e = ground (arith, h, le, e, ap number_of e)

  -- Where the pattern reads the number of a name "Key n" back, the generated name is that of no key
  -- of the organization, active or revoked.
  pub next_key_name-fresh :
      (org_id : String) (keys : Table)
      → key_number (next_key_name org_id keys) ≡ some (max_number org_id 0 keys + 1)
      → All
          (λ k. (str_eq k.org_id org_id ≡ false) ⊎ (k.name ≢ some (next_key_name org_id keys)))
          keys
  next_key_name-fresh org_id keys h =
      All-map _ _
        (λ k o. elim o [ inl other ↦ inl other | inr le ↦ inr (fresh_name org_id keys k h le) ])
        keys (numbers_le org_id 0 keys)
