-- ===== src/User/Tickets.antt =====
-- The token that a login answers with.
use Prim.Native.Char.{Char}
use cartnova_go_microservice.Prelude.{
  ℕ, ◌+◌, ◌<◌, String, ◌≡◌, ap, subst, false, some, ◌==◌, ◌<>◌, arith,
}
use cartnova_go_microservice.Go.{Result, ok, err}
use cartnova_go_microservice.Http.{json}
use cartnova_go_microservice.Auth
use cartnova_go_microservice.Auth.{
  Claims, Method, hs256, Jwt, day, generate_token, served, middleware,
}
use cartnova_go_microservice.Auth.Tokens.{identity_at, issued_accepted}
use cartnova_go_microservice.Reply.{error_with_text}
use cartnova_go_microservice.World.{
  World, attempt, perform, outside_call, query, return, fail, now, text_of, ◌>>=◌,
}
use cartnova_go_microservice.User.Model.{User, LoginRequest, Tables}
use cartnova_go_microservice.User.Tables.{find_email}
use cartnova_go_microservice.User.Repository.{found_or, find_by_email}
use cartnova_go_microservice.User.Service.{Bcrypt, normal_email, verified, login}
use cartnova_go_microservice.User.Handler.{LoginResponse, tokened, logged_in, handle_login}
use cartnova_go_microservice.User.Session.{login_only}

module _ (jwt : Jwt) (service : Auth.Service) (bcrypt : Bcrypt) (lower : Char → Char) where
  login_clock :
      (request : LoginRequest) (w : World Tables)
      → ((login bcrypt lower request w).1.readings ≡ w.readings)
        × ((login bcrypt lower request w).1.outside ≡ w.outside)
  unfolding login find_by_email found_or verified ◌>>=◌ attempt query perform outside_call return
      fail
  login_clock request w = ground arith

  tokened_ok :
      (user : User) (r : Result String) (w : World Tables) (code : ℕ) (response : LoginResponse)
      → (tokened user r w).0 ≡ ok (json code response)
      → (r ≡ ok response.token) × (user ≡ response.user)
  unfolding tokened return
  tokened_ok user (ok t) w code response e = ground arith
  tokened_ok user (err x) w code response e = absurd (cc)

  logged_in_ok :
      (r : Result User) (w : World Tables) (code : ℕ) (response : LoginResponse)
      → (logged_in jwt service r w).0 ≡ ok (json code response)
      → (r ≡ ok response.user)
        × (generate_token jwt service response.user.id response.user.role
              (w.outside.clock w.readings)
            ≡ ok response.token)
  unfolding logged_in error_with_text text_of return now ◌>>=◌
  logged_in_ok (ok user) w code response e =
      let (t, u) = tokened_ok user _ (record w { readings = _ }) code response e in
      (
        ap ok u,
        subst
            (λ (x : User).
              generate_token jwt service x.id x.role (w.outside.clock w.readings)
              ≡ ok response.token)
            u t,
      )
  logged_in_ok (err x) w code response e = absurd (cc)

  -- When `Login` answers with a token and a user, the user is the one of the address, and the token is
  -- accepted as a Bearer token for a day from the time of the login, as that user with that role.
  pub login_accepted :
      ((secret : String) (claims : Claims) (token : String) (at : ℕ)
        → jwt.sign secret claims ≡ ok token
        → at < claims.expires_at
        → (jwt.method token ≡ some hs256)
          × (jwt.verify secret at token ≡ some claims)
          × ((token == "") ≡ false))
      → (request : LoginRequest) (w : World Tables) (code : ℕ) (response : LoginResponse) (at : ℕ)
      → (handle_login jwt service bcrypt lower (ok request) w).0 ≡ ok (json code response)
      → at < w.outside.clock w.readings + day
      → (find_email (normal_email bcrypt lower request.email) w.state.users ≡ some response.user)
        × (middleware jwt service at
              (record { authorization = "Bearer " <> response.token; query_token = "" })
            ≡ served (identity_at response.user.id response.user.role (w.outside.clock w.readings)))
  unfolding handle_login ◌>>=◌ attempt
  login_accepted sound request w code response at e l =
      let v = (login bcrypt lower request w).1 in
      let (found, made) = logged_in_ok (login bcrypt lower request w).0 v code response e in
      let (readings, outside) = login_clock request w in
      let (here, _, _) =
        login_only bcrypt lower request response.user w v (ap (λ r. (r, v)) found) in
      (
        here,
        issued_accepted jwt service sound response.user.id response.user.role response.token
            (w.outside.clock w.readings) at (rw (outside, readings) at made) l,
      )
