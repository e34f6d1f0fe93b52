-- ===== src/User/Tables.antt =====
-- The SQL statements of internal/user/repository.go on the table of migrations/user.
use Prim.Native.String
use cartnova_go_microservice.Prelude.{
  ℕ, ℤ, String, Bool, false, ◌||◌, Option, none, some, List, [], ◌∷◌, ◌==◌, ◌==ℤ◌, ltb,
  if◌then◌else◌,
}
use cartnova_go_microservice.Go.{pg_error, Result, ok, err}
use cartnova_go_microservice.User.Model.{User, Tables}

-- PRIMARY KEY, and UNIQUE of the column `email`
unfoldable pub is_taken : ℤ → String → List User → Bool
is_taken id email [] = false
is_taken id email (u ∷ rest) = (u.id ==ℤ id) || (u.email == email) || is_taken id email rest

-- VARCHAR(n)
abbrev too_long : ℕ → String → Bool
too_long n s = ltb n (Prim.Native.String.count s)

-- INSERT INTO users(...) VALUES(...) RETURNING ...
unfoldable pub insert_user : User → Tables → Result (Unit {0}) × Tables
unfolding is_taken
insert_user u t =
    if too_long 120 u.name || too_long 255 u.email || too_long 30 u.role
    then (err (pg_error "22001"), t)
    else if is_taken u.id u.email t.users
    then (err (pg_error "23505"), t)
    else (ok tt, record t { users = u ∷ t.users })

-- SELECT ... WHERE email = $1
unfoldable pub find_email : String → List User → Option User
find_email email [] = none
find_email email (u ∷ rest) = if u.email == email then some u else find_email email rest

-- SELECT ... WHERE id = $1
unfoldable pub find_user : ℤ → List User → Option User
find_user id [] = none
find_user id (u ∷ rest) = if u.id ==ℤ id then some u else find_user id rest

unfoldable pub rename : ℤ → String → ℕ → List User → List User
rename id name time [] = []
rename id name time (u ∷ rest) =
    (if u.id ==ℤ id then record u { name = name; updated_at = time } else u)
    ∷ rename id name time rest

unfoldable pub is_user : ℤ → List User → Bool
is_user id [] = false
is_user id (u ∷ rest) = (u.id ==ℤ id) || is_user id rest

-- UPDATE users SET name = $1, updated_at = NOW() WHERE id = $2: is a row affected?
unfoldable pub update_row : ℤ → String → ℕ → Tables → Result Bool × Tables
unfolding rename is_user
update_row id name time t =
    if is_user id t.users
    then (if too_long 120 name
        then (err (pg_error "22001"), t)
        else (ok (is_user id t.users), record t { users = rename id name time t.users }))
    else (ok (is_user id t.users), t)
