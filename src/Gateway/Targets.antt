-- ===== src/Gateway/Targets.antt =====
-- Where the gateway passes requests on to: routes of the services.
use cartnova_go_microservice.Prelude.{
  ℕ, String, ◌≡◌, refl, subst, sym, Bool, Bool-cases, true, false, ◌&&◌, inl, inr, Option, none,
  some, List, [], ◌∷◌, ◌==◌, eq_iff, if◌then◌else◌, arith,
}
use cartnova_go_microservice.Http.{status_no_content, not_found}
use cartnova_go_microservice.Auth
use cartnova_go_microservice.Auth.{Jwt, Request, Identity, Passage, denied, served, strip_prefix}
use cartnova_go_microservice.Mux.{
  Segment, Route, Url, path_segments, split, matches, takes, method_matches, choose, some_pattern,
  admit,
}
use cartnova_go_microservice.Mux.Laws.{
  AllRoutes, choose-All, choose-some, join, join-Strips, drop_literals, matches-drop, same_pattern,
  has_route, has_route-takes,
}
use cartnova_go_microservice.Backends.{
  Backend, Endpoint, routes_of, user_routes, product_routes, order_routes, inventory_routes,
  notification_routes,
}
use cartnova_go_microservice.Gateway.{
  Handler, health, proxy, websocket_proxy, routes, Action, answer, forward, proxied_path, handle,
  passed, take, serve_mux, serve,
}

-- The service has a route for the method and the pattern behind the prefix.
has_target : Backend → String → Option (List Segment) → Bool
has_target backend method none = false
has_target backend method (some []) = false
has_target backend method (some (part ∷ pattern)) =
    has_route (routes_of backend) method (part ∷ pattern)

is_targeted : String → List Segment → Handler → Bool
is_targeted method pattern health = true
is_targeted method pattern websocket_proxy = true
is_targeted method pattern (proxy backend prefix) =
    (join (path_segments prefix) == prefix)
    && has_target backend method (drop_literals (path_segments prefix) pattern)

Routed : Backend → String → String → Type 0
Routed backend method path =
    (r : Route Endpoint) × (choose (routes_of backend) method (path_segments path) ≡ some r)

-- What is behind the prefix is the path, unless it is empty.
proxied_path-Strips :
    (prefix path left : String) (s : String) (rest : List String)
    → strip_prefix prefix path ≡ some left
    → path_segments left ≡ s ∷ rest
    → path_segments (proxied_path prefix path) ≡ s ∷ rest
unfolding proxied_path path_segments
proxied_path-Strips prefix path left s rest e h = elim (Bool-cases (left == "")) [
  | inl empty ↦
      let none_left : path_segments "" ≡ s ∷ rest =
        subst (λ x. path_segments x ≡ s ∷ rest) ((eq_iff left "").0 empty) h in
      absurd (cc)
  | inr full ↦ ground arith
]

target-Routed :
    (backend : Backend) (expected method prefix path : String) (pattern : List Segment)
    (o : Option (List Segment))
    → (join (path_segments prefix) == prefix) ≡ true
    → drop_literals (path_segments prefix) pattern ≡ o
    → has_target backend expected o ≡ true
    → method_matches expected method ≡ true
    → matches pattern (path_segments path) ≡ true
    → Routed backend method (proxied_path prefix path)
unfolding has_target Routed matches
target-Routed backend expected method prefix path pattern none j d h t m = absurd (cc)
target-Routed backend expected method prefix path pattern (some []) j d h t m = absurd (cc)
target-Routed backend expected method prefix path pattern (some (part ∷ behind)) j d h t m =
    let (rest, same, found) =
      matches-drop (path_segments prefix) pattern (part ∷ behind) (path_segments path) d m in
    let (left, stripped, last) = join-Strips (path_segments prefix) path rest same in
    routed rest found left
      (subst (λ x. strip_prefix x path ≡ some left) ((eq_iff _ prefix).0 j) stripped) last
  where
    routed :
        (rest : List String)
        → matches (part ∷ behind) rest ≡ true
        → (left : String) → strip_prefix prefix path ≡ some left
        → path_segments left ≡ rest
        → Routed backend method (proxied_path prefix path)
    routed [] found left e k = absurd (cc)
    routed (s ∷ rest) found left e k =
        choose-some (routes_of backend) method (path_segments (proxied_path prefix path)) (
          has_route-takes (routes_of backend) expected method (part ∷ behind)
            (path_segments (proxied_path prefix path)) h t
            (subst (λ x. matches (part ∷ behind) x ≡ true)
              (sym (proxied_path-Strips prefix path left s rest e k)) found))

routes-targeted : AllRoutes (λ r. is_targeted r.method r.pattern r.handler ≡ true) routes
unfolding routes is_targeted has_target path_segments split join drop_literals has_route
    same_pattern routes_of user_routes product_routes order_routes inventory_routes
    notification_routes
routes-targeted = ground arith

module _ (method : String) where
  -- What is passed on is passed on to a route.
  abbrev pub IsRouted : Action → Type 0
  IsRouted (forward backend target identity) =
      (r : Route Endpoint) × (choose (routes_of backend) method (path_segments target) ≡ some r)
  IsRouted action = Unit

  answer-IsRouted : (b : Bool) (code other : ℕ) → IsRouted (if b then answer code else answer other)
  answer-IsRouted true code other = tt
  answer-IsRouted false code other = tt

  module _ (path : String) where
    handle-IsRouted :
        (expected : String) (pattern : List Segment) (handler : Handler)
        (identity : Option Identity)
        → is_targeted expected pattern handler ≡ true
        → method_matches expected method ≡ true
        → matches pattern (path_segments path) ≡ true
        → IsRouted (handle handler path identity)
    unfolding handle is_targeted Routed
    handle-IsRouted expected pattern health identity g t m = tt
    handle-IsRouted expected pattern websocket_proxy identity g t m = tt
    handle-IsRouted expected pattern (proxy backend prefix) identity g t m =
        target-Routed backend expected method prefix path pattern
          (drop_literals (path_segments prefix) pattern) (ground arith) refl (ground arith) t m

    passed-IsRouted :
        (r : Route Handler) (p : Passage (Option Identity))
        → is_targeted r.method r.pattern r.handler ≡ true
        → takes r method (path_segments path) ≡ true
        → IsRouted (passed p r.handler path)
    unfolding passed takes
    passed-IsRouted r (denied status) g t = tt
    passed-IsRouted r (served identity) g t =
        handle-IsRouted r.method r.pattern r.handler identity g (ground arith) (ground arith)

  module _ (jwt : Jwt) (service : Auth.Service) (now : ℕ) (request : Request) (url : Url) where
    take-IsRouted :
        (o : Option (Route Handler))
        → path_segments url.path ≡ url.segments
        → choose routes method url.segments ≡ o
        → IsRouted (take jwt service now request o url)
    unfolding take
    take-IsRouted none plain e = answer-IsRouted (some_pattern routes url.segments) 405 not_found
    take-IsRouted (some r) plain e =
        let (g, t) =
          choose-All (λ (r : Route Handler). is_targeted r.method r.pattern r.handler ≡ true) routes
            method url.segments r routes-targeted e in
        passed-IsRouted url.path r (admit jwt service r.guard now request) g
          (subst (λ s. takes r method s ≡ true) (sym plain) t)

-- A request whose path is clean and has no escaped slash, if the gateway passes it on to a service, goes on
-- under a path that the mux of the service has a route for.
pub serve-IsRouted :
    (jwt : Jwt) (service : Auth.Service) (now : ℕ) (request : Request) (method : String) (url : Url)
    → path_segments url.path ≡ url.segments
    → IsRouted method (serve jwt service now request method url)
unfolding serve serve_mux
serve-IsRouted jwt service now request method url plain = served_or (method == "OPTIONS")
  where
    served_or :
        (b : Bool)
        → IsRouted method
            (if b then answer status_no_content else serve_mux jwt service now request method url)
    served_or true = tt
    served_or false =
        take-IsRouted method jwt service now request url (choose routes method url.segments) plain
          refl
