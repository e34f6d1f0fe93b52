-- ===== src/User/Accounts.antt =====
-- What every operation of the user service keeps of the accounts.
use Prim.Native.Char.{Char}
use cartnova_go_microservice.Prelude.{
  ℕ, ℤ, String, ◌≡◌, refl, true, false, Option, none, some, List, [], ◌∷◌, ◌==◌, contains_char, not,
  ltb, trim_space, if◌then◌else◌, arith,
}
use cartnova_go_microservice.Go.{Result, ok, err}
use cartnova_go_microservice.World.{perform}
use cartnova_go_microservice.World.Keeps.{Keeps, Keeps-perform, Keeps-test, Keeps-fail, keep_rules}
use cartnova_go_microservice.User.Model.{
  User, RegisterRequest, LoginRequest, UpdateProfileRequest, Tables,
}
use cartnova_go_microservice.User.Tables.{is_taken, insert_user, rename, update_row}
use cartnova_go_microservice.User.Repository.{
  created, create, found_or, find_by_email, find_by_id, affected, update_name,
}
use cartnova_go_microservice.User.Service.{
  byte_length, Bcrypt, normal_email, enrol, register, verified, login, update_profile,
}

-- No other user has the id or the email.
abbrev pub AreDistinct : List User → Type 0
AreDistinct [] = Unit
AreDistinct (u ∷ rest) = (is_taken u.id u.email rest ≡ false) × AreDistinct rest

abbrev pub IsAccount : User → Type 0
IsAccount u = ((u.name == "") ≡ false) × (contains_char "@" u.email ≡ true)

abbrev pub AllAccounts : List User → Type 0
AllAccounts [] = Unit
AllAccounts (u ∷ rest) = IsAccount u × AllAccounts rest

-- The ids of the administrators.
unfoldable pub admins : List User → List ℤ
admins [] = []
admins (u ∷ rest) = let more = admins rest in if u.role == "ADMIN" then u.id ∷ more else more

-- The users have names and addresses, differ in their ids and addresses, and the administrators are
-- the given ones.
pub record Accounts (known : List ℤ) (t : Tables) : Type 0 where
  pub distinct : AreDistinct t.users
  pub valid : AllAccounts t.users
  pub same_admins : admins t.users ≡ known

insert_user-Accounts :
    (known : List ℤ) (u : User) (t : Tables)
    → IsAccount u
    → (u.role == "ADMIN") ≡ false
    → Accounts known t
    → Accounts known (insert_user u t).1
unfolding insert_user admins
insert_user-Accounts known u t valid plain h = ground arith

is_taken-rename :
    (id : ℤ) (name : String) (time : ℕ) (other : ℤ) (email : String) (users : List User)
    → is_taken other email (rename id name time users) ≡ is_taken other email users
unfolding is_taken rename
is_taken-rename id name time other email [] = refl
is_taken-rename id name time other email (u ∷ rest) =
    let ih = is_taken-rename id name time other email rest in ground arith

AreDistinct-rename :
    (id : ℤ) (name : String) (time : ℕ) (users : List User)
    → AreDistinct users
    → AreDistinct (rename id name time users)
unfolding rename
AreDistinct-rename id name time [] h = tt
AreDistinct-rename id name time (u ∷ rest) h =
    let ih = AreDistinct-rename id name time rest h.1 in
    let k = is_taken-rename id name time u.id u.email rest in ground arith

AllAccounts-rename :
    (id : ℤ) (name : String) (time : ℕ) (users : List User)
    → (name == "") ≡ false
    → AllAccounts users
    → AllAccounts (rename id name time users)
unfolding rename
AllAccounts-rename id name time [] n h = tt
AllAccounts-rename id name time (u ∷ rest) n h =
    let ih = AllAccounts-rename id name time rest n h.1 in ground arith

admins-rename :
    (id : ℤ) (name : String) (time : ℕ) (users : List User)
    → admins (rename id name time users) ≡ admins users
unfolding rename admins
admins-rename id name time [] = refl
admins-rename id name time (u ∷ rest) = let ih = admins-rename id name time rest in ground arith

update_row-Accounts :
    (known : List ℤ) (id : ℤ) (name : String) (time : ℕ) (t : Tables)
    → (name == "") ≡ false
    → Accounts known t
    → Accounts known (update_row id name time t).1
unfolding update_row
update_row-Accounts known id name time t n h =
    let d = AreDistinct-rename id name time t.users h.distinct in
    let v = AllAccounts-rename id name time t.users n h.valid in
    let s = admins-rename id name time t.users in ground arith

module _ {known : List ℤ} where
  Keeps-created : (u : User) (r : Result (Unit {0})) → Keeps (Accounts known) (created u r)
  unfolding created
  Keeps-created u (ok _) = search keep_rules
  Keeps-created u (err e) = search keep_rules

  Keeps-found_or : (o : Option User) → Keeps (Accounts known) (found_or o)
  unfolding found_or
  Keeps-found_or none = search keep_rules
  Keeps-found_or (some u) = search keep_rules

  Keeps-insert :
      (u : User)
      → IsAccount u
      → (u.role == "ADMIN") ≡ false
      → Keeps (Accounts known) (perform (insert_user u))
  Keeps-insert u valid plain =
      Keeps-perform (insert_user u) λ t. insert_user-Accounts known u t valid plain

  Keeps-create :
      (u : User) → IsAccount u → (u.role == "ADMIN") ≡ false → Keeps (Accounts known) (create u)
  unfolding create
  Keeps-create u valid plain = search (keep_rules, Keeps-created, Keeps-insert)

  Keeps-update_name :
      (id : ℤ) (name : String) → (name == "") ≡ false → Keeps (Accounts known) (update_name id name)
  unfolding update_name affected
  Keeps-update_name id name n = search (keep_rules, Keeps-perform, update_row-Accounts)

  Keeps-find_by_id : (id : ℤ) → Keeps (Accounts known) (find_by_id id)
  unfolding find_by_id
  Keeps-find_by_id id = search (keep_rules, Keeps-found_or)

  module _ (bcrypt : Bcrypt) (lower : Char → Char) where
    Keeps-enrol :
        (name email password : String)
        → (name == "") ≡ false
        → contains_char "@" email ≡ true
        → Keeps (Accounts known) (enrol bcrypt lower name email password)
    unfolding enrol
    Keeps-enrol name email password n e = search (keep_rules, Keeps-create)

    pub Keeps-register :
        (request : RegisterRequest) → Keeps (Accounts known) (register bcrypt lower request)
    unfolding register
    Keeps-register request =
        Keeps-test (trim_space request.name == "") _ _ (λ _. Keeps-fail _)
          λ n.
            Keeps-test (not (contains_char "@" (normal_email bcrypt lower request.email))) _ _
              (λ _. Keeps-fail _)
              λ e.
                Keeps-test (ltb (byte_length request.password) 8) _ _ (λ _. Keeps-fail _)
                  λ _.
                    Keeps-enrol (trim_space request.name) (normal_email bcrypt lower request.email)
                      request.password n (ground arith)

    Keeps-verified :
        (password : String) (r : Result User)
        → Keeps (Accounts known) (verified bcrypt lower password r)
    unfolding verified
    Keeps-verified password (ok u) = search keep_rules
    Keeps-verified password (err e) = search keep_rules

    pub Keeps-login : (request : LoginRequest) → Keeps (Accounts known) (login bcrypt lower request)
    unfolding login find_by_email
    Keeps-login request = search (keep_rules, Keeps-found_or, Keeps-verified)

  pub Keeps-get_by_id : (id : ℤ) → Keeps (Accounts known) (find_by_id id)
  Keeps-get_by_id = Keeps-find_by_id

  pub Keeps-update_profile :
      (id : ℤ) (request : UpdateProfileRequest) → Keeps (Accounts known) (update_profile id request)
  unfolding update_profile
  Keeps-update_profile id request =
      Keeps-test (trim_space request.name == "") _ _ (λ _. Keeps-fail _)
        λ n. search (keep_rules, Keeps-update_name id (trim_space request.name) n, Keeps-find_by_id)
