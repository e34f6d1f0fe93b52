-- ===== src/User/Handler.antt =====
-- internal/user/handler.go. A body arrives as what `httpx.DecodeJSON` made of it, the path value as
-- text, and `claims` is what `auth.ClaimsFromContext` finds.
use Prim.Native.Char.{Char}
use cartnova_go_microservice.Prelude.{
  ℤ, String, Bool, not, ◌&&◌, Option, none, some, ◌==◌, ◌==ℤ◌, parse_int, is_nonpos, if◌then◌else◌,
}
use cartnova_go_microservice.Go.{is, Result, ok, err}
use cartnova_go_microservice.Http.{
  Response, json, error, status_ok, status_created, bad_request, unauthorized, forbidden, not_found,
  conflict, internal_server_error,
}
use cartnova_go_microservice.Auth
use cartnova_go_microservice.Auth.{Claims, Jwt, generate_token}
use cartnova_go_microservice.Reply.{error_with_text}
use cartnova_go_microservice.World.{Run, return, attempt, now, ◌>>=◌}
use cartnova_go_microservice.User.Model.{
  User, RegisterRequest, LoginRequest, UpdateProfileRequest, Tables,
}
use cartnova_go_microservice.User.Service.{Bcrypt, register, login, get_by_id, update_profile}

unfoldable pub registered : Result User → Run Tables (Response User)
registered (ok user) = return (json status_created user)
registered (err e) =
    if is e "email already exists"
    then error_with_text conflict e
    else error_with_text bad_request e

unfoldable pub handle_register :
    Bcrypt → (Char → Char) → Result RegisterRequest → Run Tables (Response User)
handle_register bcrypt lower (err e) = return (error bad_request "invalid request body")
handle_register bcrypt lower (ok request) = do
  user ← attempt (register bcrypt lower request)
  registered user

-- The map that `Login` answers with.
pub record LoginResponse : Type 0 where
  pub token : String
  pub user : User

unfoldable pub tokened : User → Result String → Run Tables (Response LoginResponse)
tokened user (err e) = return (error internal_server_error "could not create token")
tokened user (ok token) = return (json status_ok (record { token = token; user = user }))

module _ (jwt : Jwt) (service : Auth.Service) where
  unfoldable pub logged_in : Result User → Run Tables (Response LoginResponse)
  logged_in (err e) = error_with_text unauthorized e
  logged_in (ok user) = do
    time ← now
    tokened user (generate_token jwt service user.id user.role time)

  unfoldable pub handle_login :
      Bcrypt → (Char → Char) → Result LoginRequest → Run Tables (Response LoginResponse)
  handle_login bcrypt lower (err e) = return (error bad_request "invalid request body")
  handle_login bcrypt lower (ok request) = do
    user ← attempt (login bcrypt lower request)
    logged_in user

unfoldable pub loaded : Result User → Run Tables (Response User)
loaded (ok user) = return (json status_ok user)
loaded (err e) =
    if is e "user not found"
    then error_with_text not_found e
    else return (error internal_server_error "could not load user")

unfoldable pub load : Option ℤ → Run Tables (Response User)
load none = return (error bad_request "invalid user id")
load (some id) =
    if is_nonpos id
    then return (error bad_request "invalid user id")
    else do user ← attempt (get_by_id id); loaded user

unfoldable pub handle_get_by_id : String → Run Tables (Response User)
handle_get_by_id path_value = load (parse_int path_value)

unfoldable pub updated : Result User → Run Tables (Response User)
updated (ok user) = return (json status_ok user)
updated (err e) =
    if is e "user not found" then error_with_text not_found e else error_with_text bad_request e

unfoldable pub change : ℤ → Result UpdateProfileRequest → Run Tables (Response User)
change id (err e) = return (error bad_request "invalid request body")
change id (ok request) = do user ← attempt (update_profile id request); updated user

-- `claims.Role == "ADMIN" || claims.UserID == id`
unfoldable pub may_update : Claims → ℤ → Bool
may_update claims id = not (not (claims.role == "ADMIN") && not (claims.user_id ==ℤ id))

unfoldable pub change_as :
    Claims → Option ℤ → Result UpdateProfileRequest → Run Tables (Response User)
change_as claims none body = return (error bad_request "invalid user id")
change_as claims (some id) body =
    if is_nonpos id
    then return (error bad_request "invalid user id")
    else if may_update claims id
    then change id body
    else return (error forbidden "you cannot update this user")

unfoldable pub handle_update_profile :
    Option Claims → String → Result UpdateProfileRequest → Run Tables (Response User)
handle_update_profile none path_value body = return (error unauthorized "unauthorized")
handle_update_profile (some claims) path_value body = change_as claims (parse_int path_value) body
