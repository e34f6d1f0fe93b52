-- ===== src/Mux.antt =====
-- `http.ServeMux`, as far as the mains use it. A path is clean, as it was sent and when it is decoded: it
-- starts with a slash and has no empty segment but perhaps the last, and no dot segments. ServeMux cuts it
-- at the slashes that are not escaped, and decodes each segment.
pub mod Laws
use Prim.Native.Char.{Char, code}
use cartnova_go_microservice.Prelude.{
  ℕ, String, Bool, true, false, not, ◌||◌, ◌&&◌, Option, none, some, List, [], ◌∷◌, ◌==◌, nat_eq,
  if◌then◌else◌,
}
use cartnova_go_microservice.Auth
use cartnova_go_microservice.Auth.{
  Jwt, Request, Passage, Identity, denied, served, middleware, require_role,
}

pub data Segment : Type 0 where
  literal : String → Segment
  wildcard : String → Segment

-- What stands in front of a handler: nothing, `auth.Middleware`, or `auth.RequireRole`.
pub data Guard : Type 0 where
  open_to_all : Guard
  with_token : Guard
  with_role : String → Guard

-- One call of `mux.Handle`.
pub record Route (A : Type 0) : Type 0 where
  pub method : String
  pub pattern : List Segment
  pub guard : Guard
  pub handler : A

-- The target of a request: the decoded segments that ServeMux matches, and `URL.Path`, the path decoded as
-- a whole. An escaped slash is inside a segment, and between two parts of `URL.Path`.
pub record Url : Type 0 where
  pub segments : List String
  pub path : String

abbrev pub is_slash : Char → Bool
is_slash c = nat_eq (code c) 47

-- A text up to its first slash, and the parts between the slashes behind it.
unfoldable pub split : String → String × List String
split String.[] = ("", [])
split (String.◌∷◌ c s) =
    let (first, rest) = split s in
    if is_slash c then ("", first ∷ rest) else (String.◌∷◌ c first, rest)

unfoldable pub path_segments : String → List String
path_segments String.[] = []
path_segments (String.◌∷◌ c s) =
    let (first, rest) = split s in if is_slash c then first ∷ rest else []

-- A wildcard stands for one segment that is not empty.
unfoldable pub matches : List Segment → List String → Bool
matches [] [] = true
matches [] (s ∷ segments) = false
matches (part ∷ pattern) [] = false
matches (literal text ∷ pattern) (s ∷ segments) = (text == s) && matches pattern segments
matches (wildcard name ∷ pattern) (s ∷ segments) = not (s == "") && matches pattern segments

-- A pattern for GET takes HEAD too.
unfoldable pub method_matches : String → String → Bool
method_matches expected method = (expected == method) || ((expected == "GET") && (method == "HEAD"))

-- Of two patterns that match one path, the one with a literal where they first differ is taken.
unfoldable pub beats : List Segment → List Segment → Bool
beats (literal text ∷ p) (wildcard name ∷ q) = true
beats (wildcard name ∷ p) (literal text ∷ q) = false
beats (literal text ∷ p) (literal other ∷ q) = beats p q
beats (wildcard name ∷ p) (wildcard other ∷ q) = beats p q
beats [] q = false
beats (part ∷ p) [] = false

module _ {A : Type 0} where
  unfoldable pub takes : Route A → String → List String → Bool
  takes r method segments = method_matches r.method method && matches r.pattern segments

  unfoldable pub better : Route A → Option (Route A) → Route A
  better r none = r
  better r (some q) = if beats q.pattern r.pattern then q else r

  -- The route that handles a request.
  unfoldable pub choose : List (Route A) → String → List String → Option (Route A)
  choose [] method segments = none
  choose (r ∷ rest) method segments =
      let best = choose rest method segments in
      if takes r method segments then some (better r best) else best

  unfoldable pub some_pattern : List (Route A) → List String → Bool
  some_pattern [] segments = false
  some_pattern (r ∷ rest) segments = matches r.pattern segments || some_pattern rest segments

unfoldable pub known : Passage Identity → Passage (Option Identity)
known (denied status) = denied status
known (served identity) = served (some identity)

-- Whom the guard lets through, and with which identity.
unfoldable pub admit : Jwt → Auth.Service → Guard → ℕ → Request → Passage (Option Identity)
admit jwt service open_to_all now request = served none
admit jwt service with_token now request = known (middleware jwt service now request)
admit jwt service (with_role role) now request = known (require_role jwt service role now request)
