-- ===== src/Auth.antt =====
-- internal/auth/auth.go. The JWT library is the parameter `Jwt`; a request is what the middleware
-- reads of it.
pub mod Tokens
mod Tests
use Prim.Native.Char.{code}
use cartnova_go_microservice.Prelude.{
  ℕ, ℤ, ◌+◌, ◌*◌, String, ◌==◌, Option, none, some, nat_eq, format_int, if◌then◌else◌,
}
use cartnova_go_microservice.Go.{sentinel, Result, ok, err}
use cartnova_go_microservice.Http.{unauthorized, forbidden}

-- type Claims struct
pub record Claims : Type 0 where
  pub user_id : ℤ
  pub role : String
  pub expires_at : ℕ
  pub issued_at : ℕ

pub data Method : Type 0 where
  hs256 : Method
  other_method : String → Method

-- `sign` is `jwt.NewWithClaims(jwt.SigningMethodHS256, claims).SignedString(secret)`. `method` reads
-- the header of a token, and `verify` checks its signature and its times against the clock.
pub record Jwt : Type 0 where
  pub sign : String → Claims → Result String
  pub method : String → Option Method
  pub verify : String → ℕ → String → Option Claims

-- type Service struct
pub record Service : Type 0 where
  pub secret : String

-- Times are in seconds.
abbrev pub day : ℕ
day = 24 * 60 * 60

module _ (jwt : Jwt) (service : Service) where
  -- `now` is what both calls of `time.Now` read.
  unfoldable pub generate_token : ℤ → String → ℕ → Result String
  generate_token user_id role now =
      jwt.sign service.secret
        (record { user_id = user_id; role = role; expires_at = now + day; issued_at = now })

  -- The key function, and the test of its result.
  unfoldable pub checked : Option Method → ℕ → String → Option Claims
  checked none now token = none
  checked (some hs256) now token = jwt.verify service.secret now token
  checked (some (other_method name)) now token = none

  unfoldable pub valid : Option Claims → Result Claims
  valid none = err (sentinel "invalid token")
  valid (some claims) = ok claims

  unfoldable pub parse_token : ℕ → String → Result Claims
  unfolding checked valid
  parse_token now token = valid (checked (jwt.method token) now token)

-- `strings.HasPrefix` and `strings.TrimPrefix` in one
unfoldable pub strip_prefix : String → String → Option String
strip_prefix String.[] s = some s
strip_prefix (String.◌∷◌ c prefix) String.[] = none
strip_prefix (String.◌∷◌ c prefix) (String.◌∷◌ d s) =
    if nat_eq (code c) (code d) then strip_prefix prefix s else none

-- The header Authorization and the query parameter token; a missing one is empty.
pub record Request : Type 0 where
  pub authorization : String
  pub query_token : String

unfoldable pub bearer_or : Option String → String → String
bearer_or none query_token = query_token
bearer_or (some token) query_token = token

unfoldable pub token_of : Request → String
unfolding strip_prefix bearer_or
token_of request = bearer_or (strip_prefix "Bearer " request.authorization) request.query_token

-- What a middleware does: it answers with a status itself, or serves `next` with what it set.
pub data Passage (A : Type 0) : Type 0 where
  denied : ℕ → Passage A
  served : A → Passage A

-- The claims of the context and the headers that `Middleware` sets.
pub record Identity : Type 0 where
  pub claims : Claims
  pub x_user_id : String
  pub x_user_role : String

unfoldable pub identified : Result Claims → Passage Identity
identified (err e) = denied unauthorized
identified (ok claims) =
    served
      (record { claims = claims; x_user_id = format_int claims.user_id; x_user_role = claims.role })

unfoldable pub role_test : String → Passage Identity → Passage Identity
role_test role (denied status) = denied status
role_test role (served identity) =
    if identity.claims.role == role then served identity else denied forbidden

module _ (jwt : Jwt) (service : Service) where
  unfoldable pub middleware : ℕ → Request → Passage Identity
  unfolding identified token_of
  middleware now request =
      let token = token_of request in
      if token == "" then denied unauthorized else identified (parse_token jwt service now token)

  unfoldable pub require_role : String → ℕ → Request → Passage Identity
  unfolding middleware role_test
  require_role role now request = role_test role (middleware now request)
