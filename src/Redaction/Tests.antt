-- ===== src/Redaction/Tests.antt =====
-- An event with a key, a secret field and a container that is too deep.
use tao_gateway.Base.{◌≡◌, refl, String, str_eq, lower, if◌then◌else◌}
use tao_gateway.Redaction.{
  is_sensitive_key, string, scalar, dict, Fields, end, field, Patterns, mask, redact_string_value,
  redact_value, redact_sensitive_keys,
}
use tao_gateway.Redaction.Clean.{IsCleanEvent, redact_sensitive_keys-IsCleanEvent}

abbrev sub_key : String → String
sub_key s = if str_eq s "tao_sk_live_1" then "tao_sk_****" else s

abbrev same : String → String
same s = s

abbrev patterns : Patterns
patterns = record { sub_api_key = sub_key; sub_jwt = same; sub_cred_url = same }

abbrev inner : Fields
inner = field "Hotkey" (string "5F3sa2TJ") (field "note" (string "tao_sk_live_1") end)

abbrev event : Fields
event =
    field "event" (string "request") (
      field "password" (string "x")
        (field "context" (dict inner) (field "status" (scalar 200) end)))

redact_sensitive_keys-IsCleanEvent_example :
    IsCleanEvent patterns event (redact_sensitive_keys patterns event)
redact_sensitive_keys-IsCleanEvent_example = redact_sensitive_keys-IsCleanEvent patterns event

redacts :
    redact_sensitive_keys patterns event
    ≡ field "event" (string "request") (
        field "password" mask (
          field "context"
            (dict (field "Hotkey" mask (field "note" (string "tao_sk_****") end)))
            (field "status" (scalar 200) end)))
unfolding redact_sensitive_keys is_sensitive_key redact_value redact_string_value lower
redacts = refl

-- In the twelfth container nothing is redacted, texts included.
keeps_deep : redact_value patterns (dict inner) 11 ≡ dict inner
unfolding redact_value
keeps_deep = refl
