-- ===== src/Config/Tests.antt =====
-- Secrets that the settings accept and refuse.
use tao_gateway.Base.{◌≡◌, refl, lower, true, false}
use tao_gateway.Config.{
  accepted, warned, insecure_default, insecure_marker, too_short, has_marker, validate_jwt_secret,
}

default_in_production : validate_jwt_secret "change-me-in-production" false ≡ insecure_default
unfolding validate_jwt_secret
default_in_production = refl

default_in_debug : validate_jwt_secret "change-me-in-production" true ≡ warned
unfolding validate_jwt_secret
default_in_debug = refl

marked : validate_jwt_secret "An-EXAMPLE-of-a-secret-that-is-long-enough" false ≡ insecure_marker
unfolding validate_jwt_secret has_marker lower
marked = refl

short : validate_jwt_secret "0123456789abcdef0123456789abcde" false ≡ too_short
unfolding validate_jwt_secret has_marker lower
short = refl

long_enough : validate_jwt_secret "0123456789abcdef0123456789abcdef" false ≡ accepted
unfolding validate_jwt_secret has_marker lower
long_enough = refl

short_in_debug : validate_jwt_secret "short" true ≡ accepted
unfolding validate_jwt_secret
short_in_debug = refl
