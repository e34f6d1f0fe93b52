-- ===== src/Auth/Tests.antt =====
-- The middlewares at a concrete request.
use cartnova_go_microservice.Prelude.{pos, ◌≡◌, refl, ◌==◌, some, none, format_int, if◌then◌else◌}
use cartnova_go_microservice.Go.{ok}
use cartnova_go_microservice.Auth.{
  Claims, Jwt, Service, hs256, Request, Identity, served, parse_token, require_role,
}

abbrev claims : Claims
claims = record { user_id = pos 3; role = "ADMIN"; expires_at = 100; issued_at = 1 }

abbrev jwt : Jwt
jwt = record {
  sign = λ secret c. ok "t";
  method = λ token. some hs256;
  verify = λ secret now token. if token == "t" then some claims else none;
}

abbrev service : Service
service = record { secret = "s" }

abbrev request : Request
request = record { authorization = "Bearer t"; query_token = "" }

abbrev identity : Identity
identity = record { claims = claims; x_user_id = "3"; x_user_role = "ADMIN" }

require_role_test : require_role jwt service "ADMIN" 5 request ≡ served identity
unfolding require_role parse_token format_int
require_role_test = refl
