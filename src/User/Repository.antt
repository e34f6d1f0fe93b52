-- ===== src/User/Repository.antt =====
-- internal/user/repository.go
use cartnova_go_microservice.Prelude.{
  ℤ, String, Bool, false, Option, none, some, ◌==◌, if◌then◌else◌,
}
use cartnova_go_microservice.Go.{GoError, sentinel, wrapped, foreign, pg_error, Result, ok, err}
use cartnova_go_microservice.World.{
  Run, return, fail, attempt, perform, query, next_serial, now, ◌>>=◌,
}
use cartnova_go_microservice.User.Model.{User, Tables}
use cartnova_go_microservice.User.Tables.{insert_user, find_email, find_user, update_row}

abbrev pub err_not_found : GoError
err_not_found = sentinel "user not found"

abbrev pub err_email_exists : GoError
err_email_exists = sentinel "email already exists"

-- `errors.As` looks through wrapped errors.
unfoldable pub is_unique_violation : GoError → Bool
is_unique_violation (sentinel s) = false
is_unique_violation (wrapped prefix e) = is_unique_violation e
is_unique_violation (foreign s) = false
is_unique_violation (pg_error code) = code == "23505"

unfoldable pub created : User → Result (Unit {0}) → Run Tables User
created user (ok _) = return user
created user (err e) = if is_unique_violation e then fail err_email_exists else fail e

-- The user with the columns that the database fills in.
unfoldable pub create : User → Run Tables User
create user = do
  id ← next_serial
  time ← now
  let row : User = record user { id = id; created_at = time; updated_at = time }
  inserted ← attempt (perform (insert_user row))
  created row inserted

unfoldable pub found_or : Option User → Run Tables User
found_or none = fail err_not_found
found_or (some user) = return user

unfoldable pub find_by_email : String → Run Tables User
find_by_email email = do row ← query λ t. ok (find_email email t.users); found_or row

unfoldable pub find_by_id : ℤ → Run Tables User
find_by_id id = do row ← query λ t. ok (find_user id t.users); found_or row

unfoldable pub affected : Bool → Run Tables (Unit {0})
affected found = if found then return tt else fail err_not_found

unfoldable pub update_name : ℤ → String → Run Tables (Unit {0})
update_name id name = do time ← now; found ← perform (update_row id name time); affected found
