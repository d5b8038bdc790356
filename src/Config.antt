-- ===== src/Config.antt =====
-- `validate_jwt_secret` of gateway/core/config.py: what the settings ask of the secret that signs
-- the tokens. The text of an error is left to its constructor.
mod Tests
use Prim.Native.String.{count}
use text.Mathlib.Text.{find?}
use tao_gateway.Base.{
  ℕ, String, lower, str_eq, Bool, true, false, Option, none, some, List, [], ◌∷◌, any, ltb,
  if◌then◌else◌,
}

abbrev pub insecure_default_secret : String
insecure_default_secret = "change-me-in-production"

abbrev pub min_jwt_secret_length : ℕ
min_jwt_secret_length = 32

abbrev pub insecure_markers : List String
insecure_markers = "change-me" ∷ "insecure" ∷ "do-not-use" ∷ "example" ∷ "placeholder" ∷ []

-- The settings are accepted, perhaps with a warning, or a ValueError is raised: for the default, for
-- a marker, for the length.
pub data Validated : Type 0 where
  accepted warned : Validated
  insecure_default insecure_marker too_short : Validated

abbrev stands_in : Option ℕ → Bool
stands_in none = false
stands_in (some i) = true

unfoldable pub has_marker : String → Bool
has_marker text = any (λ marker. stands_in (find? text marker)) insecure_markers

-- The arguments are `jwt_secret_key` and `debug`.
unfoldable pub validate_jwt_secret : String → Bool → Validated
validate_jwt_secret secret debug =
    if str_eq secret insecure_default_secret
    then if debug then warned else insecure_default
    else if debug
    then accepted
    else if has_marker (lower secret)
    then insecure_marker
    else if ltb (count secret) min_jwt_secret_length
    then too_short
    else accepted
