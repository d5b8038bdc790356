-- ===== src/Redaction/Clean.antt =====
-- What is logged is redacted down to eleven containers.
use tao_gateway.Base.{
  ℕ, zero, suc, ◌+◌, ◌≡◌, ◌⊎◌, inl, inr, String, true, false, ltb, Bool-cases, arith, eq_iff,
  string_eq,
}
use tao_gateway.Redaction.{
  is_sensitive_key, Value, string, scalar, list, dict, Values, nil, cons, Fields, end, field,
  Patterns, redact_string_value, redact_value, redact_values, redact_fields, is_safe_key,
  redact_sensitive_keys,
}

module _ (p : Patterns) where
  -- What is logged for a value, down to a depth of containers: each text with its substitutions, each
  -- scalar as it is, and each list and dictionary with its parts in order, where what has a sensitive
  -- key is masked. A container below that depth is logged as it is.
  mutual
    pub data IsClean : ℕ → Value → Value → Type 0 where
      clean_text :
          (n : ℕ) (s : String)
          → IsClean n (string s) (string (p.sub_cred_url (p.sub_jwt (p.sub_api_key s))))
      clean_scalar : (n i : ℕ) → IsClean n (scalar i) (scalar i)
      clean_list : (n : ℕ) (l m : Values) → AreClean n l m → IsClean (suc n) (list l) (list m)
      clean_dict : (n : ℕ) (f g : Fields) → HasClean n f g → IsClean (suc n) (dict f) (dict g)
      deep_list : (l : Values) → IsClean zero (list l) (list l)
      deep_dict : (f : Fields) → IsClean zero (dict f) (dict f)

    pub data AreClean : ℕ → Values → Values → Type 0 where
      no_values : (n : ℕ) → AreClean n nil nil
      clean_cons :
          (n : ℕ) (v w : Value) (l m : Values)
          → IsClean n v w
          → AreClean n l m
          → AreClean n (cons v l) (cons w m)

    pub data HasClean : ℕ → Fields → Fields → Type 0 where
      no_fields : (n : ℕ) → HasClean n end end
      masked :
          (n : ℕ) (k : String) (v : Value) (f g : Fields)
          → is_sensitive_key k ≡ true
          → HasClean n f g
          → HasClean n (field k v f) (field k (string "****") g)
      clean_field :
          (n : ℕ) (k : String) (v w : Value) (f g : Fields)
          → is_sensitive_key k ≡ false
          → IsClean n v w
          → HasClean n f g
          → HasClean n (field k v f) (field k w g)

  mutual
    unfolding redact_value redact_values redact_fields redact_string_value

    redact_value-IsClean :
        (v : Value) (n depth : ℕ) → depth + n ≡ 11 → IsClean n v (redact_value p v depth)
    redact_value-IsClean (string s) n depth h = clean_text n s
    redact_value-IsClean (scalar i) n depth h = clean_scalar n i
    redact_value-IsClean (list l) zero depth h =
        let deep : ltb 10 depth ≡ true = ground arith in rw deep (deep_list l)
    redact_value-IsClean (list l) (suc n) depth h =
        let shallow : ltb 10 depth ≡ false = ground arith in
        rw shallow (clean_list n l _ (redact_values-AreClean l n (depth + 1) (omega arith)))
    redact_value-IsClean (dict f) zero depth h =
        let deep : ltb 10 depth ≡ true = ground arith in rw deep (deep_dict f)
    redact_value-IsClean (dict f) (suc n) depth h =
        let shallow : ltb 10 depth ≡ false = ground arith in
        rw shallow (clean_dict n f _ (redact_fields-HasClean f n (depth + 1) (omega arith)))

    redact_values-AreClean :
        (l : Values) (n depth : ℕ) → depth + n ≡ 11 → AreClean n l (redact_values p l depth)
    redact_values-AreClean nil n depth h = no_values n
    redact_values-AreClean (cons v l) n depth h =
        clean_cons n v _ l _ (redact_value-IsClean v n depth h) (redact_values-AreClean l n depth h)

    redact_fields-HasClean :
        (f : Fields) (n depth : ℕ) → depth + n ≡ 11 → HasClean n f (redact_fields p f depth)
    redact_fields-HasClean end n depth h = no_fields n
    redact_fields-HasClean (field k v f) n depth h =
        let rest = redact_fields-HasClean f n depth h in
        let inner = redact_value-IsClean v n depth h in
        elim (Bool-cases (is_sensitive_key k)) [
          | inl e ↦ rw e (masked n k v f _ e rest)
          | inr e ↦ rw e (clean_field n k v _ f _ e inner rest)
        ]

  -- The entries of an event: those of the three safe keys as they were, and of the others clean.
  pub data IsCleanEvent : Fields → Fields → Type 0 where
    no_entries : IsCleanEvent end end
    safe_entry :
        (k : String) (v : Value) (f g : Fields)
        → (k ≡ "event") ⊎ (k ≡ "level") ⊎ (k ≡ "timestamp")
        → IsCleanEvent f g
        → IsCleanEvent (field k v f) (field k v g)
    masked_entry :
        (k : String) (v : Value) (f g : Fields)
        → is_sensitive_key k ≡ true
        → IsCleanEvent f g
        → IsCleanEvent (field k v f) (field k (string "****") g)
    clean_entry :
        (k : String) (v w : Value) (f g : Fields)
        → is_sensitive_key k ≡ false
        → IsClean 11 v w
        → IsCleanEvent f g
        → IsCleanEvent (field k v f) (field k w g)

  is_safe_key-cases :
      (k : String) → is_safe_key p k ≡ true → (k ≡ "event") ⊎ (k ≡ "level") ⊎ (k ≡ "timestamp")
  is_safe_key-cases k h = ground (arith, eq_iff k "event", eq_iff k "level", eq_iff k "timestamp")

  -- An event is logged with its keys in their order. The values of the keys event, level and timestamp
  -- stay as they are. Each other value is replaced by four stars if its key is sensitive, and else,
  -- through eleven levels of lists and dictionaries, each of its texts goes through the three
  -- substitutions, of API keys, JWTs and URLs with credentials, each value of a sensitive key is
  -- replaced by four stars, and all else stays as it is. A list or dictionary below that stays.
  pub redact_sensitive_keys-IsCleanEvent : (f : Fields) → IsCleanEvent f (redact_sensitive_keys p f)
  unfolding redact_sensitive_keys
  redact_sensitive_keys-IsCleanEvent end = no_entries
  redact_sensitive_keys-IsCleanEvent (field k v f) =
      let rest = redact_sensitive_keys-IsCleanEvent f in
      let inner = redact_value-IsClean v 11 0 (omega arith) in
      elim (Bool-cases (is_safe_key p k)) [
        | inl e ↦ rw e (safe_entry k v f _ (is_safe_key-cases k e) rest)
        | inr o ↦ elim (Bool-cases (is_sensitive_key k)) [
          | inl e ↦ rw (o, e) (masked_entry k v f _ e rest)
          | inr e ↦ rw (o, e) (clean_entry k v _ f _ e inner rest)
        ]
      ]
