-- ===== src/Gateway/Tests.antt =====
-- The theorems of the gateway at concrete requests.
use cartnova_go_microservice.Gateway.{serve_mux}
use cartnova_go_microservice.Gateway.{take}
use cartnova_go_microservice.Gateway.{routes}
use cartnova_go_microservice.Mux.{takes}
use cartnova_go_microservice.Mux.{method_matches}
use cartnova_go_microservice.Mux.{matches}
use cartnova_go_microservice.Gateway.{passed}
use cartnova_go_microservice.Mux.{admit}
use cartnova_go_microservice.Mux.{better}
use cartnova_go_microservice.Mux.{known}
use Auth.{middleware}
use Auth.{parse_token}
use cartnova_go_microservice.Gateway.{handle}
use cartnova_go_microservice.Gateway.{proxied_path}
use cartnova_go_microservice.Prelude.{format_int}
use cartnova_go_microservice.Backends.{user_routes}
use cartnova_go_microservice.Prelude.{pos, some, none, [], ◌∷◌, ◌≡◌, refl}
use cartnova_go_microservice.Mux.{Url, path_segments, split, choose}
use cartnova_go_microservice.Backends.{user_service, routes_of}
use cartnova_go_microservice.Go.{ok}
use cartnova_go_microservice.Auth
use cartnova_go_microservice.Auth.{Claims, Identity, hs256, Jwt, Request}
use cartnova_go_microservice.Gateway.{serve, forward}
use cartnova_go_microservice.Gateway.Guards.{Allowed, serve-Allowed}
use cartnova_go_microservice.Gateway.Targets.{IsRouted, serve-IsRouted}

abbrev jwt : Jwt
jwt = record {
  sign = λ secret claims. ok "t";
  method = λ token. some hs256;
  verify = λ secret at token.
      some (record { user_id = pos 9; role = "ADMIN"; expires_at = 100; issued_at = 0 });
}

abbrev service : Auth.Service
service = record { secret = "s" }

abbrev request : Request
request = record { authorization = "Bearer t"; query_token = "" }

abbrev stock_url : Url
stock_url = record { segments = "api" ∷ "v1" ∷ "inventory" ∷ []; path = "/api/v1/inventory" }

abbrev order_url : Url
order_url = record { segments = "api" ∷ "v1" ∷ "orders" ∷ "7" ∷ []; path = "/api/v1/orders/7" }

serve-Allowed_example :
    Allowed jwt service 5 request "POST" (serve jwt service 5 request "POST" stock_url)
serve-Allowed_example = serve-Allowed jwt service 5 request "POST" stock_url

plain : path_segments "/api/v1/orders/7" ≡ "api" ∷ "v1" ∷ "orders" ∷ "7" ∷ []
unfolding path_segments split
plain = refl

-- GET /api/v1/users/a%2Fb
abbrev escaped_url : Url
escaped_url = record { segments = "api" ∷ "v1" ∷ "users" ∷ "a/b" ∷ []; path = "/api/v1/users/a/b" }

abbrev administrator : Identity
administrator = record {
  claims = record { user_id = pos 9; role = "ADMIN"; expires_at = 100; issued_at = 0 };
  x_user_id = "9";
  x_user_role = "ADMIN";
}

escaped_slash :
    (serve jwt service 5 request "GET" escaped_url
      ≡ forward user_service "/users/a/b" (some administrator))
    × (choose (routes_of user_service) "GET" (path_segments "/users/a/b") ≡ none)
unfolding serve path_segments split choose routes_of serve_mux take routes takes method_matches
    matches passed admit better known middleware parse_token handle proxied_path format_int
    user_routes
escaped_slash = (refl, refl)

serve-IsRouted_example : IsRouted "GET" (serve jwt service 5 request "GET" order_url)
serve-IsRouted_example = serve-IsRouted jwt service 5 request "GET" order_url plain
