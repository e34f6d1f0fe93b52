-- ===== src/User/Requests.antt =====
-- What the requests to the user service leave of its accounts.
use Prim.Native.Char.{Char}
use cartnova_go_microservice.Prelude.{ℤ, String, Option, none, some, List, [], ◌∷◌}
use cartnova_go_microservice.Go.{Result, ok, err}
use cartnova_go_microservice.Http.{Response}
use cartnova_go_microservice.Auth
use cartnova_go_microservice.Auth.{Claims, Jwt, Request, Identity, Passage, denied, served}
use cartnova_go_microservice.Reply.{error_with_text}
use cartnova_go_microservice.World.{World, Run}
use cartnova_go_microservice.World.Keeps.{Keeps, Keeps-bind, keep_rules}
use cartnova_go_microservice.User.Model.{
  User, RegisterRequest, LoginRequest, UpdateProfileRequest, Tables,
}
use cartnova_go_microservice.User.Service.{Bcrypt}
use cartnova_go_microservice.User.Handler.{
  registered, handle_register, tokened, logged_in, handle_login, loaded, load, handle_get_by_id,
  updated, change, change_as, handle_update_profile,
}
use cartnova_go_microservice.User.Routes.{
  UserRequest, post_register, post_login, get_user, put_user, behind, guarded, serve, serve_all,
}
use cartnova_go_microservice.User.Accounts.{
  Accounts, Keeps-register, Keeps-login, Keeps-get_by_id, Keeps-update_profile,
}

module _ {known : List ℤ} where
  Keeps-registered : (r : Result User) → Keeps (Accounts known) (registered r)
  unfolding registered error_with_text
  Keeps-registered (ok u) = search keep_rules
  Keeps-registered (err e) = search keep_rules

  Keeps-handle_register :
      (bcrypt : Bcrypt) (lower : Char → Char) (body : Result RegisterRequest)
      → Keeps (Accounts known) (handle_register bcrypt lower body)
  unfolding handle_register
  Keeps-handle_register bcrypt lower (ok r) = search (keep_rules, Keeps-register, Keeps-registered)
  Keeps-handle_register bcrypt lower (err e) = search keep_rules

  Keeps-tokened : (u : User) (r : Result String) → Keeps (Accounts known) (tokened u r)
  unfolding tokened
  Keeps-tokened u (ok t) = search keep_rules
  Keeps-tokened u (err e) = search keep_rules

  Keeps-logged_in :
      (jwt : Jwt) (service : Auth.Service) (r : Result User)
      → Keeps (Accounts known) (logged_in jwt service r)
  unfolding logged_in error_with_text
  Keeps-logged_in jwt service (ok u) = search (keep_rules, Keeps-tokened)
  Keeps-logged_in jwt service (err e) = search keep_rules

  Keeps-handle_login :
      (jwt : Jwt) (service : Auth.Service) (bcrypt : Bcrypt) (lower : Char → Char)
      (body : Result LoginRequest)
      → Keeps (Accounts known) (handle_login jwt service bcrypt lower body)
  unfolding handle_login
  Keeps-handle_login jwt service bcrypt lower (ok r) =
      search (keep_rules, Keeps-login, Keeps-logged_in)
  Keeps-handle_login jwt service bcrypt lower (err e) = search keep_rules

  Keeps-loaded : (r : Result User) → Keeps (Accounts known) (loaded r)
  unfolding loaded error_with_text
  Keeps-loaded (ok u) = search keep_rules
  Keeps-loaded (err e) = search keep_rules

  Keeps-load : (id : Option ℤ) → Keeps (Accounts known) (load id)
  unfolding load
  Keeps-load none = search keep_rules
  Keeps-load (some id) = search (keep_rules, Keeps-get_by_id, Keeps-loaded)

  Keeps-updated : (r : Result User) → Keeps (Accounts known) (updated r)
  unfolding updated error_with_text
  Keeps-updated (ok u) = search keep_rules
  Keeps-updated (err e) = search keep_rules

  Keeps-change :
      (id : ℤ) (body : Result UpdateProfileRequest) → Keeps (Accounts known) (change id body)
  unfolding change
  Keeps-change id (ok r) = search (keep_rules, Keeps-update_profile, Keeps-updated)
  Keeps-change id (err e) = search keep_rules

  Keeps-change_as :
      (claims : Claims) (id : Option ℤ) (body : Result UpdateProfileRequest)
      → Keeps (Accounts known) (change_as claims id body)
  unfolding change_as
  Keeps-change_as claims none body = search keep_rules
  Keeps-change_as claims (some id) body = search (keep_rules, Keeps-change)

  Keeps-behind :
      (p : Passage Identity) (next : Identity → Run Tables (Response User))
      → ((identity : Identity) → Keeps (Accounts known) (next identity))
      → Keeps (Accounts known) (behind p next)
  unfolding behind
  Keeps-behind (denied status) next k = search keep_rules
  Keeps-behind (served identity) next k = search (keep_rules, k)

  module _ (jwt : Jwt) (service : Auth.Service) (bcrypt : Bcrypt) (lower : Char → Char) where
    Keeps-serve :
        (request : UserRequest) → Keeps (Accounts known) (serve jwt service bcrypt lower request)
    unfolding serve guarded handle_get_by_id handle_update_profile
    Keeps-serve (post_register body) = search (keep_rules, Keeps-handle_register)
    Keeps-serve (post_login body) = search (keep_rules, Keeps-handle_login)
    Keeps-serve (get_user request id) = search (keep_rules, Keeps-behind, Keeps-load)
    Keeps-serve (put_user request id body) = search (keep_rules, Keeps-behind, Keeps-change_as)

    Keeps-serve_all :
        (requests : List UserRequest)
        → Keeps (Accounts known) (serve_all jwt service bcrypt lower requests)
    unfolding serve_all
    Keeps-serve_all [] = search keep_rules
    Keeps-serve_all (request ∷ rest) =
        Keeps-bind (serve jwt service bcrypt lower request) _ (Keeps-serve request) λ reply.
          Keeps-bind (serve_all jwt service bcrypt lower rest) _ (Keeps-serve_all rest)
            (search keep_rules)

-- Whatever requests the user service answers and whatever calls fail, every user keeps a name and an
-- address with an @, no two users share an id or an address, and the administrators stay the same.
pub serve_all-Accounts :
    (jwt : Jwt) (service : Auth.Service) (bcrypt : Bcrypt) (lower : Char → Char) (known : List ℤ)
    (requests : List UserRequest) (w : World Tables)
    → Accounts known w.state
    → Accounts known (serve_all jwt service bcrypt lower requests w).1.state
serve_all-Accounts jwt service bcrypt lower known requests w h =
    (Keeps-serve_all jwt service bcrypt lower requests).at w h
