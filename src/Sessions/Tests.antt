-- ===== src/Sessions/Tests.antt =====
-- A session at concrete tokens, with a digest that leaves a text as it is.
use tao_gateway.Base.{◌≡◌, refl, String, none, [], ◌∷◌}
use tao_gateway.Errors.{GatewayError, ok, err}
use tao_gateway.Sessions.{Table, find_token, rotate_refresh_token}
use tao_gateway.Sessions.Rotation.{Step, Reach, rotate_refresh_token_once}

abbrev same : String → String
same s = s

abbrev table : Table
table = record { token_hash = "r1"; org_id = "o1"; expires_at = 900; revoked_at = none } ∷ []

exchanges : (rotate_refresh_token same 500 "r1" 100 "r2" table).0 ≡ ok ("o1", "r2")
unfolding rotate_refresh_token find_token
exchanges = refl

exchanges_on :
    (rotate_refresh_token same 500 "r2" 300 "r3"
      (rotate_refresh_token same 500 "r1" 100 "r2" table).1).0
    ≡ ok ("o1", "r3")
unfolding rotate_refresh_token find_token
exchanges_on = refl

abbrev after_one : Table
after_one = (rotate_refresh_token same 500 "r1" 100 "r2" table).1

rotate_refresh_token_once_example :
    (e : GatewayError) × (rotate_refresh_token same 500 "r1" 400 "r9"
        (rotate_refresh_token same 500 "r2" 300 "r3" after_one).1
      ≡ (err e, (rotate_refresh_token same 500 "r2" 300 "r3" after_one).1))
rotate_refresh_token_once_example =
    rotate_refresh_token_once same 500 "r1" "r2" "r9" 100 400 table _ ("o1", "r2") refl exchanges
      (Reach.goes Reach.stays (Step.rotates "r2" "r3" 300 after_one refl))
