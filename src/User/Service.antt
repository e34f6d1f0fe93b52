-- ===== src/User/Service.antt =====
-- internal/user/service.go. bcrypt is the parameter `Bcrypt`: a hash depends on the salt of a random
-- draw. `lower` is the table of `strings.ToLower`.
use Prim.Native.Char.{Char}
use Prim.Native.String
use cartnova_go_microservice.Prelude.{
  ℕ, ℤ, pos, String, Bool, not, ◌==◌, ltb, trim_space, contains_char, map_chars, if◌then◌else◌,
}
use cartnova_go_microservice.Go.{GoError, sentinel, Result, ok, err}
use cartnova_go_microservice.World.{Run, return, fail, lift, attempt, next_draw, ◌>>=◌, ◌>>◌}
use cartnova_go_microservice.User.Model.{
  User, RegisterRequest, LoginRequest, UpdateProfileRequest, Tables,
}
use cartnova_go_microservice.User.Repository.{create, find_by_email, find_by_id, update_name}

abbrev pub err_invalid_name : GoError
err_invalid_name = sentinel "name is required"

abbrev pub err_invalid_email : GoError
err_invalid_email = sentinel "valid email is required"

abbrev pub err_invalid_password : GoError
err_invalid_password = sentinel "password must be at least 8 characters"

abbrev pub err_invalid_credentials : GoError
err_invalid_credentials = sentinel "invalid credentials"

-- `GenerateFromPassword` at a draw, and `CompareHashAndPassword`: does it return nil?
pub record Bcrypt : Type 0 where
  pub generate : ℕ → String → Result String
  pub matches : String → String → Bool

-- The byte length of a password, `len(request.Password)`.
abbrev pub byte_length : String → ℕ
byte_length s = Prim.Native.String.len s

module _ (bcrypt : Bcrypt) (lower : Char → Char) where
  unfoldable pub normal_email : String → String
  normal_email email = map_chars lower (trim_space email)

  -- The part of `Register` behind the validation, with the trimmed name and the normal email.
  unfoldable pub enrol : String → String → String → Run Tables User
  enrol name email password = do
    draw ← next_draw
    hash ← lift (bcrypt.generate draw password)
    create (record {
      id = pos 0;
      name = name;
      email = email;
      password_hash = hash;
      role = "CUSTOMER";
      created_at = 0;
      updated_at = 0;
    })

  unfoldable pub register : RegisterRequest → Run Tables User
  register request =
      if trim_space request.name == ""
      then fail err_invalid_name
      else if not (contains_char "@" (normal_email request.email))
      then fail err_invalid_email
      else if ltb (byte_length request.password) 8
      then fail err_invalid_password
      else enrol (trim_space request.name) (normal_email request.email) request.password

  -- The part of `Login` behind the lookup.
  unfoldable pub verified : String → Result User → Run Tables User
  verified password (err e) = fail err_invalid_credentials
  verified password (ok user) =
      if bcrypt.matches user.password_hash password
      then return user
      else fail err_invalid_credentials

  unfoldable pub login : LoginRequest → Run Tables User
  login request = do
    found ← attempt (find_by_email (normal_email request.email))
    verified request.password found

abbrev pub get_by_id : ℤ → Run Tables User
get_by_id = find_by_id

unfoldable pub update_profile : ℤ → UpdateProfileRequest → Run Tables User
update_profile id request =
    if trim_space request.name == ""
    then fail err_invalid_name
    else do update_name id (trim_space request.name); find_by_id id
