-- ===== src/User/Tests.antt =====
-- The theorems of the user service at concrete requests.
use Prim.Native.Char.{Char}
use cartnova_go_microservice.User.Handler.{logged_in}
use cartnova_go_microservice.User.Handler.{tokened}
use Auth.{generate_token}
use cartnova_go_microservice.User.Service.{verified}
use cartnova_go_microservice.User.Repository.{find_by_email}
use cartnova_go_microservice.World.{query}
use cartnova_go_microservice.User.Repository.{found_or}
use cartnova_go_microservice.Prelude.{map_chars}
use cartnova_go_microservice.User.Service.{enrol}
use cartnova_go_microservice.World.{◌>>=◌}
use cartnova_go_microservice.World.{next_draw}
use cartnova_go_microservice.User.Repository.{create}
use cartnova_go_microservice.World.{next_serial}
use cartnova_go_microservice.World.{now}
use cartnova_go_microservice.World.{attempt}
use cartnova_go_microservice.User.Repository.{created}
use cartnova_go_microservice.World.{perform}
use cartnova_go_microservice.User.Tables.{insert_user}
use cartnova_go_microservice.User.Tables.{is_taken}
use cartnova_go_microservice.Prelude.{
  ℕ, ◌<◌, pos, String, ◌≡◌, refl, subst, sym, true, false, ◌&&◌, none, some, [], ◌∷◌, ◌==◌, ◌==ℤ◌,
  ==ℤ_iff, eq_iff, eq_refl, ◌<>◌, nat_eq, trim_space, contains_char, if◌then◌else◌, arith,
}
use cartnova_go_microservice.Go.{foreign, ok, err}
use cartnova_go_microservice.Http.{json}
use cartnova_go_microservice.Auth
use cartnova_go_microservice.Auth.{Claims, hs256, Jwt, day, served, middleware}
use cartnova_go_microservice.Auth.Tokens.{identity_at}
use cartnova_go_microservice.World.Samples.{calm, broken, start}
use cartnova_go_microservice.World.Returns.{Returns}
use cartnova_go_microservice.User.Model.{User, RegisterRequest, LoginRequest, Tables}
use cartnova_go_microservice.User.Tables.{find_email}
use cartnova_go_microservice.User.Service.{Bcrypt, normal_email, register, login}
use cartnova_go_microservice.User.Handler.{handle_login}
use cartnova_go_microservice.User.Routes.{post_register, serve_all}
use cartnova_go_microservice.User.Accounts.{Accounts, admins}
use cartnova_go_microservice.User.Requests.{serve_all-Accounts}
use cartnova_go_microservice.User.Session.{register_then_login, login_only}
use cartnova_go_microservice.User.Tickets.{login_accepted}

abbrev bcrypt : Bcrypt
bcrypt = record {
  generate = λ draw password. ok password;
  matches = λ hash password. hash == password;
}

abbrev lower : Char → Char
lower c = c

abbrev admin : User
admin = record {
  id = pos 9;
  name = "Admin";
  email = "admin@shop";
  password_hash = "secret12";
  role = "ADMIN";
  created_at = 0;
  updated_at = 0;
}

abbrev tables : Tables
tables = record { users = admin ∷ [] }

abbrev request : RegisterRequest
request = record { name = " Ann "; email = "ann@shop "; password = "password1" }

abbrev ann : User
ann = record {
  id = pos 2;
  name = "Ann";
  email = "ann@shop";
  password_hash = "password1";
  role = "CUSTOMER";
  created_at = 0;
  updated_at = 0;
}

abbrev jwt : Jwt
jwt = record {
  sign = λ secret c.
      if (c.user_id ==ℤ pos 9)
        && (c.role == "ADMIN")
        && nat_eq c.expires_at day
        && nat_eq c.issued_at 0
      then ok "t"
      else err (foreign "no key");
  method = λ token. some hs256;
  verify = λ secret at token.
      if token == "t"
      then some (record { user_id = pos 9; role = "ADMIN"; expires_at = day; issued_at = 0 })
      else none;
}

abbrev service : Auth.Service
service = record { secret = "s" }

tables-Accounts : Accounts (pos 9 ∷ []) tables
unfolding admins is_taken contains_char
tables-Accounts = record { distinct = (refl, tt); valid = ((refl, refl), tt); same_admins = refl }

serve_all-Accounts_example :
    Accounts
      (pos 9 ∷ [])
      (serve_all jwt service bcrypt lower
        (post_register (ok request) ∷ post_register (ok request) ∷ [])
        (start (broken 1) tables)).1.state
serve_all-Accounts_example =
    serve_all-Accounts jwt service bcrypt lower (pos 9 ∷ [])
      (post_register (ok request) ∷ post_register (ok request) ∷ []) (start (broken 1) tables)
      tables-Accounts

registers :
    Returns
      (register bcrypt lower request)
      (start calm tables)
      ann
      (register bcrypt lower request (start calm tables)).1
unfolding register trim_space contains_char normal_email map_chars enrol ◌>>=◌ next_draw create
    next_serial now attempt created perform insert_user
registers = refl

register_then_login_example :
    (login bcrypt lower
      (record { email = "  ann@shop"; password = "password1" })
      (register bcrypt lower request (start calm tables)).1).0
    ≡ ok ann
unfolding normal_email register trim_space contains_char map_chars enrol ◌>>=◌ next_draw create
    next_serial now attempt created perform insert_user
register_then_login_example =
    register_then_login bcrypt lower (λ draw password hash e. ground (arith, eq_refl password))
      request ann (start calm tables) (register bcrypt lower request (start calm tables)).1
      (register bcrypt lower request (start calm tables)).1 "  ann@shop" registers refl refl refl

abbrev login_request : LoginRequest
login_request = record { email = "admin@shop"; password = "secret12" }

logs_in :
    Returns
      (login bcrypt lower login_request)
      (start calm tables)
      admin
      (login bcrypt lower login_request (start calm tables)).1
unfolding login ◌>>=◌ attempt verified find_by_email query found_or find_email normal_email
    map_chars trim_space
logs_in = refl

login_only_example :
    (find_email (normal_email bcrypt lower "admin@shop") (admin ∷ []) ≡ some admin)
    × (("secret12" == "secret12") ≡ true)
    × ((login bcrypt lower login_request (start calm tables)).1.state ≡ tables)
login_only_example =
    login_only bcrypt lower login_request admin (start calm tables)
      (login bcrypt lower login_request (start calm tables)).1 logs_in

answers :
    (handle_login jwt service bcrypt lower (ok login_request) (start calm tables)).0
    ≡ ok (json 200 (record { token = "t"; user = admin }))
unfolding handle_login ◌>>=◌ attempt logged_in login verified find_by_email query found_or
    find_email normal_email map_chars trim_space now tokened generate_token
answers = refl

signs :
    (secret : String) (claims : Claims) (token : String) (at : ℕ)
    → jwt.sign secret claims ≡ ok token
    → at < claims.expires_at
    → (jwt.method token ≡ some hs256)
      × (jwt.verify secret at token ≡ some claims)
      × ((token == "") ≡ false)
signs secret claims token at e l =
    let issued : token ≡ "t" = ground arith in
    let (u, r, x, i) : (claims.user_id ≡ pos 9)
        × (claims.role ≡ "ADMIN")
        × (claims.expires_at ≡ day)
        × (claims.issued_at ≡ 0) =
      grind (arith, ==ℤ_iff, eq_iff) in
    (
      refl,
      subst (λ t. jwt.verify secret at t ≡ some claims) (sym issued) (rw (u, r, x, i) refl),
      subst (λ t. (t == "") ≡ false) (sym issued) refl,
    )

login_accepted_example :
    (find_email (normal_email bcrypt lower "admin@shop") (admin ∷ []) ≡ some admin)
    × (middleware jwt service 5 (record { authorization = "Bearer " <> "t"; query_token = "" })
        ≡ served (identity_at (pos 9) "ADMIN" 0))
login_accepted_example =
    login_accepted jwt service bcrypt lower signs login_request (start calm tables) 200
      (record { token = "t"; user = admin }) 5 answers (omega arith)
