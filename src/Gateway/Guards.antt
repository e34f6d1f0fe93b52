-- ===== src/Gateway/Guards.antt =====
-- Which requests the gateway passes on.
use cartnova_go_microservice.Prelude.{
  ℕ, String, ◌≡◌, refl, sym, subst, Bool, Bool-cases, true, false, ◌⊎◌, inl, inr, Option, none,
  some, ◌==◌, eq_iff, if◌then◌else◌, arith,
}
use cartnova_go_microservice.Http.{status_no_content, not_found}
use cartnova_go_microservice.Auth
use cartnova_go_microservice.Auth.{
  Jwt, Request, Identity, Passage, denied, served, middleware, require_role,
}
use cartnova_go_microservice.Auth.Tokens.{Verified, middleware-Verified, require_role-Verified}
use cartnova_go_microservice.Mux.{
  Guard, open_to_all, with_token, with_role, Route, Url, some_pattern, choose, takes,
  method_matches, known, admit,
}
use cartnova_go_microservice.Mux.Laws.{AllRoutes, choose-All}
use cartnova_go_microservice.Backends.{
  Backend, user_service, product_service, order_service, inventory_service, notification_service,
}
use cartnova_go_microservice.Gateway.{
  Handler, health, proxy, websocket_proxy, routes, Action, answer, forward, bridge, handle, passed,
  take, serve_mux, serve,
}

-- What anyone may send on: a POST to the user service, which has the two routes for it, and reading
-- the products and categories.
abbrev pub IsPublic : String → Backend → Type 0
IsPublic method user_service = method ≡ "POST"
IsPublic method product_service = (method ≡ "GET") ⊎ (method ≡ "HEAD")
IsPublic method order_service = ⊥
IsPublic method inventory_service = ⊥
IsPublic method notification_service = ⊥

-- What the table says of a route.
abbrev pub GuardedBy : String → Guard → Handler → Type 0
GuardedBy expected open_to_all (proxy user_service prefix) = expected ≡ "POST"
GuardedBy expected open_to_all (proxy product_service prefix) = expected ≡ "GET"
GuardedBy expected open_to_all (proxy order_service prefix) = ⊥
GuardedBy expected open_to_all (proxy inventory_service prefix) = ⊥
GuardedBy expected open_to_all (proxy notification_service prefix) = ⊥
GuardedBy expected open_to_all health = Unit
GuardedBy expected open_to_all websocket_proxy = ⊥
GuardedBy expected with_token (proxy inventory_service prefix) = expected ≡ "GET"
GuardedBy expected with_token handler = Unit
GuardedBy expected (with_role role) handler = role ≡ "ADMIN"

reads :
    (expected method : String)
    → method_matches expected method ≡ true
    → expected ≡ "GET"
    → (method ≡ "GET") ⊎ (method ≡ "HEAD")
unfolding method_matches
reads expected method h e = elim (Bool-cases (expected == method)) [
  | inl same ↦ inl (grind (arith, eq_iff))
  | inr other ↦ inr (grind (arith, eq_iff))
]

posts :
    (expected method : String)
    → method_matches expected method ≡ true
    → expected ≡ "POST"
    → method ≡ "POST"
unfolding method_matches
posts expected method h e =
    let as_post : method_matches "POST" method ≡ true =
      subst (λ x. method_matches x method ≡ true) e h in
    let same : ("POST" == method) ≡ true = ground arith in sym ((eq_iff "POST" method).0 same)

module _ (jwt : Jwt) (service : Auth.Service) (now : ℕ) (request : Request) where
  -- At the inventory service, whoever does not read is an administrator.
  abbrev MayUse : String → Backend → Identity → Type 0
  MayUse method inventory_service identity =
      ((method ≡ "GET") ⊎ (method ≡ "HEAD")) ⊎ (identity.claims.role ≡ "ADMIN")
  MayUse method backend identity = Unit

  abbrev pub Allowed : String → Action → Type 0
  Allowed method (forward backend path none) = IsPublic method backend
  Allowed method (forward backend path (some identity)) =
      Verified jwt service now request identity × MayUse method backend identity
  Allowed method (bridge none) = ⊥
  Allowed method (bridge (some identity)) = Verified jwt service now request identity
  Allowed method action = Unit

  MayUse-token :
      (expected method prefix : String) (backend : Backend) (identity : Identity)
      → GuardedBy expected with_token (proxy backend prefix)
      → method_matches expected method ≡ true
      → MayUse method backend identity
  MayUse-token expected method prefix inventory_service identity g t =
      inl (reads expected method t g)
  MayUse-token expected method prefix user_service identity g t = tt
  MayUse-token expected method prefix product_service identity g t = tt
  MayUse-token expected method prefix order_service identity g t = tt
  MayUse-token expected method prefix notification_service identity g t = tt

  MayUse-admin :
      (method : String) (backend : Backend) (identity : Identity)
      → identity.claims.role ≡ "ADMIN"
      → MayUse method backend identity
  MayUse-admin method inventory_service identity e = inr e
  MayUse-admin method user_service identity e = tt
  MayUse-admin method product_service identity e = tt
  MayUse-admin method order_service identity e = tt
  MayUse-admin method notification_service identity e = tt

  open-Allowed :
      (expected method path : String) (handler : Handler)
      → GuardedBy expected open_to_all handler
      → method_matches expected method ≡ true
      → Allowed method (handle handler path none)
  unfolding handle
  open-Allowed expected method path health g t = tt
  open-Allowed expected method path websocket_proxy g t = absurd g
  open-Allowed expected method path (proxy user_service prefix) g t = posts expected method t g
  open-Allowed expected method path (proxy product_service prefix) g t = reads expected method t g
  open-Allowed expected method path (proxy order_service prefix) g t = absurd g
  open-Allowed expected method path (proxy inventory_service prefix) g t = absurd g
  open-Allowed expected method path (proxy notification_service prefix) g t = absurd g

  token-Allowed :
      (expected method path : String) (handler : Handler) (p : Passage Identity)
      → GuardedBy expected with_token handler
      → method_matches expected method ≡ true
      → middleware jwt service now request ≡ p
      → Allowed method (passed (known p) handler path)
  unfolding passed known handle
  token-Allowed expected method path handler (denied status) g t e = tt
  token-Allowed expected method path health (served identity) g t e = tt
  token-Allowed expected method path websocket_proxy (served identity) g t e =
      middleware-Verified jwt service now request identity e
  token-Allowed expected method path (proxy backend prefix) (served identity) g t e = (
    middleware-Verified jwt service now request identity e,
    MayUse-token expected method prefix backend identity g t,
  )

  role-Allowed :
      (method path : String) (handler : Handler) (p : Passage Identity)
      → require_role jwt service "ADMIN" now request ≡ p
      → Allowed method (passed (known p) handler path)
  unfolding passed known handle
  role-Allowed method path handler (denied status) e = tt
  role-Allowed method path health (served identity) e = tt
  role-Allowed method path websocket_proxy (served identity) e =
      (require_role-Verified jwt service "ADMIN" now request identity e).0
  role-Allowed method path (proxy backend prefix) (served identity) e =
      let (verified, admin) = require_role-Verified jwt service "ADMIN" now request identity e in
      (verified, MayUse-admin method backend identity admin)

  route-Allowed :
      (expected method path : String) (guard : Guard) (handler : Handler)
      → GuardedBy expected guard handler
      → method_matches expected method ≡ true
      → Allowed method (passed (admit jwt service guard now request) handler path)
  unfolding admit passed
  route-Allowed expected method path open_to_all handler g t =
      open-Allowed expected method path handler g t
  route-Allowed expected method path with_token handler g t =
      token-Allowed expected method path handler (middleware jwt service now request) g t refl
  route-Allowed expected method path (with_role role) handler g t =
      rw (g) (role-Allowed method path handler (require_role jwt service "ADMIN" now request) refl)

  routes-Guarded : AllRoutes (λ r. GuardedBy r.method r.guard r.handler) routes
  unfolding routes
  routes-Guarded = ground arith

  answer-Allowed :
      (b : Bool) (method : String) (code other : ℕ)
      → Allowed method (if b then answer code else answer other)
  answer-Allowed true method code other = tt
  answer-Allowed false method code other = tt

  take-Allowed :
      (method : String) (url : Url) (o : Option (Route Handler))
      → choose routes method url.segments ≡ o
      → Allowed method (take jwt service now request o url)
  unfolding take takes
  take-Allowed method url none e =
      answer-Allowed (some_pattern routes url.segments) method 405 not_found
  take-Allowed method url (some r) e =
      let (g, t) =
        choose-All (λ (r : Route Handler). GuardedBy r.method r.guard r.handler) routes method
          url.segments r routes-Guarded e in
      route-Allowed r.method method url.path r.guard r.handler g (ground arith)

-- A request that the gateway passes on carries a verified token, whose identity goes with it, unless it is
-- a POST to the user service or reads from the product service; what is not read from the inventory service
-- is sent by an administrator; and a websocket is bridged for verified tokens only.
pub serve-Allowed :
    (jwt : Jwt) (service : Auth.Service) (now : ℕ) (request : Request) (method : String) (url : Url)
    → Allowed jwt service now request method (serve jwt service now request method url)
unfolding serve serve_mux
serve-Allowed jwt service now request method url = served_or (method == "OPTIONS")
  where
    served_or :
        (b : Bool)
        → Allowed jwt service now request method
            (if b then answer status_no_content else serve_mux jwt service now request method url)
    served_or true = tt
    served_or false =
        take-Allowed jwt service now request method url (choose routes method url.segments) refl
