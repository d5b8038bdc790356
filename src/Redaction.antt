-- ===== src/Redaction.antt =====
-- gateway/core/logging.py: the redaction of what is logged and stored. The substitutions of the three
-- compiled patterns are arguments; the configuration of structlog is left out. A value is a text, a
-- scalar that is no text, a list or a dictionary.
pub mod Clean
mod Tests
use text.Mathlib.Text.{find?}
use tao_gateway.Base.{
  ℕ, zero, suc, ◌+◌, String, lower, str_eq, Bool, true, false, ◌||◌, Option, none, some, List, [],
  ◌∷◌, any, ltb, if◌then◌else◌,
}

abbrev pub sensitive_patterns : List String
sensitive_patterns =
    "api_key" ∷ "auth_token" ∷ "bearer_token" ∷ "session_token" ∷ "password" ∷ "secret" ∷ "coldkey"
    ∷ "hotkey" ∷ "authorization" ∷ "cookie" ∷ "email" ∷ "database_url" ∷ "redis_url" ∷ "dsn"
    ∷ "connection_string" ∷ "wallet_path" ∷ "client_ip" ∷ "mnemonic" ∷ "seed_phrase" ∷ "private_key"
    ∷ "access_token" ∷ "refresh_token" ∷ []

abbrev stands_in : Option ℕ → Bool
stands_in none = false
stands_in (some i) = true

-- `_is_sensitive_key`: one of the patterns, which are plain texts, stands in the key.
unfoldable pub is_sensitive_key : String → Bool
is_sensitive_key key = any (λ p. stands_in (find? (lower key) p)) sensitive_patterns

mutual
  pub data Value : Type 0 where
    string : String → Value
    scalar : ℕ → Value
    list : Values → Value
    dict : Fields → Value

  pub data Values : Type 0 where
    nil : Values
    cons : Value → Values → Values

  pub data Fields : Type 0 where
    end : Fields
    field : String → Value → Fields → Fields

-- `_API_KEY_RE.sub`, `_JWT_RE.sub` and `_CRED_URL_RE.sub`, with their replacements.
pub record Patterns : Type 0 where
  pub sub_api_key : String → String
  pub sub_jwt : String → String
  pub sub_cred_url : String → String

abbrev pub mask : Value
mask = string "****"

module _ (p : Patterns) where
  unfoldable pub redact_string_value : String → String
  redact_string_value value = p.sub_cred_url (p.sub_jwt (p.sub_api_key value))

  unfoldable mutual
    -- `_redact_value`
    pub redact_value : Value → ℕ → Value
    redact_value (string s) depth = string (redact_string_value s)
    redact_value (scalar n) depth = scalar n
    redact_value (list l) depth =
        if ltb 10 depth then list l else list (redact_values l (depth + 1))
    redact_value (dict f) depth =
        if ltb 10 depth then dict f else dict (redact_fields f (depth + 1))

    pub redact_values : Values → ℕ → Values
    redact_values nil depth = nil
    redact_values (cons v l) depth = cons (redact_value v depth) (redact_values l depth)

    pub redact_fields : Fields → ℕ → Fields
    redact_fields end depth = end
    redact_fields (field k v f) depth =
        field k (if is_sensitive_key k then mask else redact_value v depth) (redact_fields f depth)

  abbrev pub is_safe_key : String → Bool
  is_safe_key k = str_eq k "event" || (str_eq k "level" || str_eq k "timestamp")

  -- One round of the loop over the event's keys.
  abbrev pub redact_entry : String → Value → Value
  redact_entry k v =
      if is_safe_key k then v else if is_sensitive_key k then mask else redact_value v 0

  -- `_redact_sensitive_keys`
  unfoldable pub redact_sensitive_keys : Fields → Fields
  redact_sensitive_keys end = end
  redact_sensitive_keys (field k v f) = field k (redact_entry k v) (redact_sensitive_keys f)
