-- ===== src/User/Routes.antt =====
-- The routes of cmd/user-service/main.go, as a list of requests that the service answers in turn.
use Prim.Native.Char.{Char}
use cartnova_go_microservice.Prelude.{ℕ, String, some, List, [], ◌∷◌}
use cartnova_go_microservice.Go.{Result}
use cartnova_go_microservice.Http.{Response}
use cartnova_go_microservice.Auth
use cartnova_go_microservice.Auth.{Jwt, Request, Identity, Passage, denied, served, middleware}
use cartnova_go_microservice.World.{Run, return, now, ◌>>=◌}
use cartnova_go_microservice.User.Model.{
  User, RegisterRequest, LoginRequest, UpdateProfileRequest, Tables,
}
use cartnova_go_microservice.User.Service.{Bcrypt}
use cartnova_go_microservice.User.Handler.{
  LoginResponse, handle_register, handle_login, handle_get_by_id, handle_update_profile,
}

-- A request by its route: the body, and what the middleware reads with the value of `{id}`.
pub data UserRequest : Type 0 where
  post_register : Result RegisterRequest → UserRequest
  post_login : Result LoginRequest → UserRequest
  get_user : Request → String → UserRequest
  put_user : Request → String → Result UpdateProfileRequest → UserRequest

pub data Reply : Type 0 where
  user_reply : Response User → Reply
  login_reply : Response LoginResponse → Reply
  refusal : ℕ → Reply

unfoldable pub behind :
    Passage Identity → (Identity → Run Tables (Response User)) → Run Tables Reply
behind (denied status) next = return (refusal status)
behind (served identity) next = do response ← next identity; return (user_reply response)

module _ (jwt : Jwt) (service : Auth.Service) (bcrypt : Bcrypt) (lower : Char → Char) where
  -- `auth.Middleware`, at the time of the request
  unfoldable pub guarded : Request → (Identity → Run Tables (Response User)) → Run Tables Reply
  guarded request next = do time ← now; behind (middleware jwt service time request) next

  unfoldable pub serve : UserRequest → Run Tables Reply
  serve (post_register body) = do
    response ← handle_register bcrypt lower body
    return (user_reply response)
  serve (post_login body) = do
    response ← handle_login jwt service bcrypt lower body
    return (login_reply response)
  serve (get_user request id) = guarded request λ _. handle_get_by_id id
  serve (put_user request id body) =
      guarded request λ identity. handle_update_profile (some identity.claims) id body

  unfoldable pub serve_all : List UserRequest → Run Tables (List Reply)
  serve_all [] = return []
  serve_all (request ∷ rest) = do
    reply ← serve request
    replies ← serve_all rest
    return (reply ∷ replies)
