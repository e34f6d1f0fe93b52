-- ===== src/Product/Server.antt =====
-- internal/product/grpc.go. The texts of a product are valid UTF-8, so `structpb.NewStruct` does not
-- fail.
use cartnova_go_microservice.Prelude.{
  ℤ, Bool, Option, none, some, [], ◌∷◌, is_nonpos, if◌then◌else◌,
}
use cartnova_go_microservice.Go.{Floats}
use cartnova_go_microservice.Grpc.{Value, number, text, Struct, field, number_of}
use cartnova_go_microservice.World.{Run, return, fail, ◌>>=◌}
use cartnova_go_microservice.Product.Model.{Product, Store}
use cartnova_go_microservice.Product.Repository.{err_not_found}
use cartnova_go_microservice.Product.Service.{get_by_id}

module _ (has_redis : Bool) (floats : Floats) where
  unfoldable pub product_struct : Product → Struct
  product_struct p =
      ("id", number (floats.of_int p.id))
      ∷ ("name", text p.name)
      ∷ ("description", text p.description)
      ∷ ("price", number p.price)
      ∷ ("status", text p.status)
      ∷ []

  unfoldable pub answer : ℤ → Run Store Struct
  answer id =
      if is_nonpos id
      then fail err_not_found
      else do p ← get_by_id has_redis id; return (product_struct p)

  unfoldable pub get_product_field : Option Value → Run Store Struct
  get_product_field none = fail err_not_found
  get_product_field (some value) = answer (floats.to_int (number_of floats (some value)))

  unfoldable pub get_product : Struct → Run Store Struct
  get_product request = get_product_field (field "id" request)
