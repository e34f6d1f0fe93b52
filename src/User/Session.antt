-- ===== src/User/Session.antt =====
-- From a registration to a login.
use Prim.Native.Char.{Char}
use cartnova_go_microservice.Prelude.{
  ℕ, String, ◌≡◌, refl, ap, ◌∙◌, subst, sym, Bool, true, false, not, Option, none, some, ◌==◌,
  eq_refl, trim_space, contains_char, ltb, if◌then◌else◌, arith,
}
use cartnova_go_microservice.Go.{GoError, Result, ok, err}
use cartnova_go_microservice.World.{
  World, Run, done, attempt, perform, query, return, fail, lift, next_draw, next_serial, now, ◌>>=◌,
}
use cartnova_go_microservice.World.Returns.{
  Returns, bind-Returns, query_reads, perform-Returns, attempt_ok,
}
use cartnova_go_microservice.User.Model.{User, RegisterRequest, LoginRequest, Tables}
use cartnova_go_microservice.User.Tables.{insert_user, find_email}
use cartnova_go_microservice.User.Repository.{created, create, found_or, find_by_email}
use cartnova_go_microservice.User.Service.{
  Bcrypt, byte_length, normal_email, enrol, register, verified, login,
}

-- The new user stands in the table under its address.
record Stored (email hash : String) (user : User) (t : Tables) : Type 0 where
  pub found : find_email email t.users ≡ some user
  pub hashed : user.password_hash ≡ hash

insert_user-finds :
    (u : User) (t : Tables) (x : Unit {0})
    → (insert_user u t).0 ≡ ok x
    → find_email u.email (insert_user u t).1.users ≡ some u
unfolding insert_user find_email
insert_user-finds u t x h = let r = eq_refl u.email in ground arith

created-Returns :
    (row user : User) (r : Result (Unit {0})) (w v : World Tables)
    → Returns (created row r) w user v
    → (r ≡ ok tt) × (row ≡ user) × (v ≡ w)
unfolding created fail return
created-Returns row user (ok x) w v e = ground arith
created-Returns row user (err x) w v e = absurd (ground arith)

create-Stored :
    (u user : User) (w v : World Tables)
    → Returns (create u) w user v
    → Stored u.email u.password_hash user v.state
unfolding create
create-Stored u user w v e =
    let (id, w1, _, e1) = bind-Returns next_serial _ w e in
    let (time, w2, _, e2) = bind-Returns now _ w1 e1 in
    let (r, w3, put, e3) =
      bind-Returns
        (attempt
          (perform (insert_user (record u { id = id; created_at = time; updated_at = time }))))
        _ w2 e2 in
    let (was, same, last) =
      created-Returns (record u { id = id; created_at = time; updated_at = time }) user r w3 v e3 in
    let (got, after) =
      perform-Returns (insert_user (record u { id = id; created_at = time; updated_at = time })) w2
        w3
        (attempt_ok _ w2 w3 tt (
          subst
            (λ x.
              Returns
                (attempt (
                  perform
                    (insert_user (record u { id = id; created_at = time; updated_at = time }))))
                w2 x w3)
            was put)) in
    let find =
      insert_user-finds (record u { id = id; created_at = time; updated_at = time }) w2.state tt
        got in
    record {
      found =
          ap (λ (x : World Tables). find_email u.email x.state.users) last
          ∙ ap (λ (t : Tables). find_email u.email t.users) after
          ∙ find
          ∙ ap some same;
      hashed = ap (λ (x : User). x.password_hash) (sym same);
    }

lift-Returns :
    {A : Type 0} (r : Result A) (w v : World Tables) {a : A} → Returns (lift r) w a v → r ≡ ok a
unfolding lift
lift-Returns r w v e = ground arith

-- A guard that was passed.
if-Returns :
    {A : Type 0} (b : Bool) (x : GoError) (m : Run Tables A) (w v : World Tables) {a : A}
    → Returns (if b then fail x else m) w a v
    → Returns m w a v
unfolding fail
if-Returns true x m w v e = absurd (cc)
if-Returns false x m w v e = e

found_or-Returns :
    (o : Option User) (user : User) (w v : World Tables)
    → Returns (found_or o) w user v
    → (o ≡ some user) × (v ≡ w)
unfolding found_or fail return
found_or-Returns none user w v e = absurd (cc)
found_or-Returns (some x) user w v e = ground arith

module _ (bcrypt : Bcrypt) (lower : Char → Char) where
  -- A user of this address was stored with a hash that bcrypt made of the password.
  record Enrolled (email password : String) (user : User) (t : Tables) : Type 0 where
    pub draw : ℕ
    pub hash : String
    pub made : bcrypt.generate draw password ≡ ok hash
    pub stored : Stored email hash user t

  enrol-Enrolled :
      (name email password : String) (user : User) (w v : World Tables)
      → Returns (enrol bcrypt lower name email password) w user v
      → Enrolled email password user v.state
  unfolding enrol
  enrol-Enrolled name email password user w v e =
      let (draw, w1, _, e1) = bind-Returns next_draw _ w e in
      let (hash, w2, made, e2) = bind-Returns (lift (bcrypt.generate draw password)) _ w1 e1 in
      record {
        draw = draw;
        hash = hash;
        made = lift-Returns _ w1 w2 made;
        stored = create-Stored _ user w2 v e2;
      }

  register-Enrolled :
      (request : RegisterRequest) (user : User) (w v : World Tables)
      → Returns (register bcrypt lower request) w user v
      → Enrolled (normal_email bcrypt lower request.email) request.password user v.state
  unfolding register
  register-Enrolled request user w v e = enrol-Enrolled _ _ _ user w v (
      if-Returns (ltb (byte_length request.password) 8) _ _ w v (
        if-Returns (not (contains_char "@" (normal_email bcrypt lower request.email))) _ _ w v
          (if-Returns (trim_space request.name == "") _ _ w v e)))

  login_finds :
      (email password : String) (user : User) (w : World Tables)
      → w.outside.fate w.calls ≡ done
      → find_email (normal_email bcrypt lower email) w.state.users ≡ some user
      → bcrypt.matches user.password_hash password ≡ true
      → (login bcrypt lower (record { email = email; password = password }) w).0 ≡ ok user
  unfolding login find_by_email found_or verified ◌>>=◌ attempt query return
  login_finds email password user w f g h = rw (f, g, h) refl

  -- A user that registered can log in with the password and any spelling of the address that has the
  -- same normal form, as long as the table is as the registration left it and the lookup goes through.
  pub register_then_login :
      ((draw : ℕ) (password hash : String)
        → bcrypt.generate draw password ≡ ok hash
        → bcrypt.matches hash password ≡ true)
      → (request : RegisterRequest) (user : User) (w v u : World Tables) (email : String)
      → Returns (register bcrypt lower request) w user v
      → u.state ≡ v.state
      → u.outside.fate u.calls ≡ done
      → normal_email bcrypt lower email ≡ normal_email bcrypt lower request.email
      → (login bcrypt lower (record { email = email; password = request.password }) u).0 ≡ ok user
  register_then_login sound request user w v u email e same f spelling =
      let r = register-Enrolled request user w v e in
      login_finds email request.password user u f
        (ap (λ (t : Tables). find_email (normal_email bcrypt lower email) t.users) same
          ∙ ap (λ x. find_email x v.state.users) spelling
          ∙ r.stored.found)
        (ap (λ x. bcrypt.matches x request.password) r.stored.hashed
          ∙ sound r.draw request.password r.hash r.made)

  verified_only :
      (password : String) (r : Result User) (user : User) (w v : World Tables)
      → Returns (verified bcrypt lower password r) w user v
      → (r ≡ ok user) × (bcrypt.matches user.password_hash password ≡ true) × (v ≡ w)
  unfolding verified return fail
  verified_only password (err x) user w v e = absurd (ground arith)
  verified_only password (ok u) user w v e = ground arith

  found_only :
      (email : String) (user : User) (w v : World Tables)
      → Returns (find_by_email email) w user v
      → (find_email email w.state.users ≡ some user) × (v.state ≡ w.state)
  unfolding find_by_email
  found_only email user w v e =
      let (o, u, read, rest) = bind-Returns (query λ t. ok (find_email email t.users)) _ w e in
      let (found, same, _) = query_reads (λ t. ok (find_email email t.users)) w u read in
      let (here, last) = found_or-Returns o user u v rest in
      (ground arith, ap (λ (x : World Tables). x.state) last ∙ same)

  -- `Login` returns nobody but the user of the normal form of the address, and only if bcrypt matches
  -- the password with the hash of that user; it changes nothing.
  pub login_only :
      (request : LoginRequest) (user : User) (w v : World Tables)
      → Returns (login bcrypt lower request) w user v
      → (find_email (normal_email bcrypt lower request.email) w.state.users ≡ some user)
        × (bcrypt.matches user.password_hash request.password ≡ true)
        × (v.state ≡ w.state)
  unfolding login
  login_only request user w v e =
      let (r, u, found, rest) =
        bind-Returns (attempt (find_by_email (normal_email bcrypt lower request.email))) _ w e in
      let (was, matched, last) = verified_only request.password r user u v rest in
      let (here, same) = found_only (normal_email bcrypt lower request.email) user w u (
        attempt_ok _ w u user (
          subst
            (λ x. Returns (attempt (find_by_email (normal_email bcrypt lower request.email))) w x u)
            was found)) in
      (here, matched, ap (λ (x : World Tables). x.state) last ∙ same)
