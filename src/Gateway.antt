-- ===== src/Gateway.antt =====
-- cmd/gateway/main.go. The URLs of the services have no path of their own.
pub mod Guards
pub mod Targets
mod Tests
use cartnova_go_microservice.Prelude.{
  ℕ, String, Option, none, some, List, [], ◌∷◌, map, ◌==◌, ◌++◌, if◌then◌else◌,
}
use cartnova_go_microservice.Http.{status_no_content, not_found}
use cartnova_go_microservice.Auth
use cartnova_go_microservice.Auth.{Jwt, Request, Identity, Passage, denied, served, strip_prefix}
use cartnova_go_microservice.Mux.{
  Segment, literal, wildcard, Guard, open_to_all, with_token, with_role, Route, Url, choose,
  some_pattern, admit,
}
use cartnova_go_microservice.Backends.{
  Backend, user_service, product_service, order_service, inventory_service, notification_service,
}

pub data Handler : Type 0 where
  health : Handler
  -- `newProxy`: the service, and the prefix that it strips
  proxy : Backend → String → Handler
  -- `websocketProxy`, to the notification service
  websocket_proxy : Handler

abbrev api : List Segment → List Segment
api rest = literal "api" ∷ literal "v1" ∷ rest

abbrev pub user_proxy : Handler
user_proxy = proxy user_service "/api/v1/auth"

abbrev pub user_api_proxy : Handler
user_api_proxy = proxy user_service "/api/v1"

abbrev pub product_proxy : Handler
product_proxy = proxy product_service "/api/v1"

abbrev pub order_proxy : Handler
order_proxy = proxy order_service "/api/v1"

abbrev pub inventory_proxy : Handler
inventory_proxy = proxy inventory_service "/api/v1"

abbrev pub notification_proxy : Handler
notification_proxy = proxy notification_service "/api/v1"

abbrev route : String → List Segment → Guard → Handler → Route Handler
route method pattern guard handler = record {
  method = method;
  pattern = pattern;
  guard = guard;
  handler = handler;
}

-- The calls of `mux.Handle`, in their order.
unfoldable pub routes : List (Route Handler)
routes =
    route "GET" (literal "health" ∷ []) open_to_all health
    ∷ route "POST" (api (literal "auth" ∷ literal "register" ∷ [])) open_to_all user_proxy
    ∷ route "POST" (api (literal "auth" ∷ literal "login" ∷ [])) open_to_all user_proxy
    ∷ route "GET" (api (literal "users" ∷ wildcard "id" ∷ [])) with_token user_api_proxy
    ∷ route "PUT" (api (literal "users" ∷ wildcard "id" ∷ [])) with_token user_api_proxy
    ∷ route "GET" (api (literal "products" ∷ [])) open_to_all product_proxy
    ∷ route "GET" (api (literal "products" ∷ wildcard "id" ∷ [])) open_to_all product_proxy
    ∷ route "POST" (api (literal "products" ∷ [])) with_token product_proxy
    ∷ route "PUT" (api (literal "products" ∷ wildcard "id" ∷ [])) with_token product_proxy
    ∷ route "DELETE" (api (literal "products" ∷ wildcard "id" ∷ [])) with_token product_proxy
    ∷ route "POST" (api (literal "categories" ∷ [])) with_token product_proxy
    ∷ route "GET" (api (literal "categories" ∷ [])) open_to_all product_proxy
    ∷ route "GET" (api (literal "categories" ∷ wildcard "id" ∷ [])) open_to_all product_proxy
    ∷ route "PUT" (api (literal "categories" ∷ wildcard "id" ∷ [])) with_token product_proxy
    ∷ route "DELETE" (api (literal "categories" ∷ wildcard "id" ∷ [])) with_token product_proxy
    ∷ route "POST" (api (literal "orders" ∷ [])) with_token order_proxy
    ∷ route "GET" (api (literal "orders" ∷ literal "mine" ∷ [])) with_token order_proxy
    ∷ route "GET" (api (literal "orders" ∷ wildcard "id" ∷ [])) with_token order_proxy
    ∷ route "PUT" (api (literal "orders" ∷ wildcard "id" ∷ literal "status" ∷ [])) with_token
        order_proxy
    ∷ route "GET" (api (literal "inventory" ∷ wildcard "productID" ∷ [])) with_token inventory_proxy
    ∷ route "POST" (api (literal "inventory" ∷ [])) (with_role "ADMIN") inventory_proxy
    ∷ route "GET" (api (literal "notifications" ∷ [])) with_token notification_proxy
    ∷ route "GET" (literal "ws" ∷ literal "notifications" ∷ []) with_token websocket_proxy
    ∷ []

-- `strings.TrimPrefix` of `URL.Path`, and the path `/` for an empty one. The escaped form that `URL` may
-- hold beside it is not trimmed, so it no longer fits and is not sent: the slashes of `URL.Path` are.
unfoldable pub proxied_path : String → String → String
proxied_path prefix path = trimmed (strip_prefix prefix path)
  where
    rooted : String → String
    rooted left = if left == "" then "/" else left

    trimmed : Option String → String
    trimmed none = rooted path
    trimmed (some left) = rooted left

-- What the gateway does with a request: it answers, or passes it on, with the identity that a
-- middleware found.
pub data Action : Type 0 where
  answer : ℕ → Action
  healthy : Action
  forward : Backend → String → Option Identity → Action
  -- The upgrade of the connection and of one to the path `/ws` of the notification service.
  bridge : Option Identity → Action

unfoldable pub handle : Handler → String → Option Identity → Action
handle health path identity = healthy
handle (proxy backend prefix) path identity = forward backend (proxied_path prefix path) identity
handle websocket_proxy path identity = bridge identity

unfoldable pub passed : Passage (Option Identity) → Handler → String → Action
passed (denied status) handler path = answer status
passed (served identity) handler path = handle handler path identity

module _ (jwt : Jwt) (service : Auth.Service) (now : ℕ) (request : Request) where
  unfoldable pub take : Option (Route Handler) → Url → Action
  take none url = if some_pattern routes url.segments then answer 405 else answer not_found
  take (some r) url = passed (admit jwt service r.guard now request) r.handler url.path

  -- The mux, a request by its method and target.
  unfoldable pub serve_mux : String → Url → Action
  serve_mux method url = take (choose routes method url.segments) url

  -- `corsMiddleware`; `loggingMiddleware` passes every request on.
  unfoldable pub serve : String → Url → Action
  serve method url = if method == "OPTIONS" then answer status_no_content else serve_mux method url
