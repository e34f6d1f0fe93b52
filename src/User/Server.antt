-- ===== src/User/Server.antt =====
-- internal/user/grpc.go. The texts of a user are valid UTF-8, so `structpb.NewStruct` does not fail.
use cartnova_go_microservice.Prelude.{
  ℤ, Option, none, some, [], ◌∷◌, parse_int, is_nonpos, if◌then◌else◌,
}
use cartnova_go_microservice.Go.{Floats}
use cartnova_go_microservice.Grpc.{Value, number, text, Struct, field, number_of, text_of}
use cartnova_go_microservice.World.{Run, return, fail, ◌>>=◌}
use cartnova_go_microservice.User.Model.{User, Tables}
use cartnova_go_microservice.User.Repository.{err_not_found}
use cartnova_go_microservice.User.Service.{get_by_id}

module _ (floats : Floats) where
  unfoldable pub user_struct : User → Struct
  user_struct user =
      ("id", number (floats.of_int user.id))
      ∷ ("name", text user.name)
      ∷ ("email", text user.email)
      ∷ ("role", text user.role)
      ∷ []

  unfoldable pub answer : Option ℤ → Run Tables Struct
  answer none = fail err_not_found
  answer (some id) = do user ← get_by_id id; return (user_struct user)

  -- The id of the request: its number, or its text where the number is not positive.
  unfoldable pub requested_id : Option Value → Option ℤ
  requested_id value =
      let id = floats.to_int (number_of floats value) in
      if is_nonpos id then parse_int (text_of value) else some id

  unfoldable pub get_user_field : Option Value → Run Tables Struct
  get_user_field none = fail err_not_found
  get_user_field (some value) = answer (requested_id (some value))

  unfoldable pub get_user : Struct → Run Tables Struct
  get_user request = get_user_field (field "id" request)
