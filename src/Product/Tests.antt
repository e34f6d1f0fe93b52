-- ===== src/Product/Tests.antt =====
-- The theorems of the product service at concrete requests.
use cartnova_go_microservice.Prelude.{
  pos, ◌≡◌, ◌⊎◌, refl, true, none, some, [], ◌∷◌, ◌==ℤ◌, if◌then◌else◌, arith,
}
use cartnova_go_microservice.World.{attempt, now, query, return, ◌>>=◌}
use cartnova_go_microservice.World.Returns.{Returns}
use cartnova_go_microservice.World.Samples.{calm, start}
use cartnova_go_microservice.Product.Model.{Product, Store, find_product}
use cartnova_go_microservice.Product.Service.{get_by_id}
use cartnova_go_microservice.Product.Cache.{Coherent}
use cartnova_go_microservice.Prelude.{String, Bool, false, trim_space}
use cartnova_go_microservice.World.{perform}
use cartnova_go_microservice.Product.Tables.{update_row, stored_row, replace_product}
use cartnova_go_microservice.Product.Repository.{update, affected, find_by_id, found_or}
use cartnova_go_microservice.Product.Service.{
  updated, invalidate_cache, ignore, cache_delete, put_entry,
}
use cartnova_go_microservice.Go.{ok}
use cartnova_go_microservice.Auth
use cartnova_go_microservice.Auth.{Claims, hs256, Jwt, Request}
use cartnova_go_microservice.World.{World}
use cartnova_go_microservice.World.Samples.{whole_floats}
use cartnova_go_microservice.Product.Model.{
  CreateProductRequest, UpdateProductRequest, has_category,
}
use cartnova_go_microservice.Product.Tables.{has_product}
use cartnova_go_microservice.Product.Routes.{delete_product, serve}
use cartnova_go_microservice.Product.Service.{create_product, update_product, delete_by_id}
use cartnova_go_microservice.Product.Authority.{SameRows, ByAdmin, serve-ByAdmin}
use cartnova_go_microservice.Product.Fresh.{operations-Coherent}
use cartnova_go_microservice.Product.Reread.{update_then_get}

abbrev admin_claims : Claims
admin_claims = record { user_id = pos 9; role = "ADMIN"; expires_at = 100; issued_at = 0 }

abbrev nothing : String → String → Bool
nothing s t = false

abbrev lamp : Product
lamp = record {
  id = pos 1;
  name = "Lamp";
  description = "";
  price = 10;
  category_id = none;
  status = "ACTIVE";
  created_at = 1;
  updated_at = 1;
}

abbrev store : Store
store = record {
  products = lamp ∷ [];
  categories = [];
  cache = λ id. if id ==ℤ pos 1 then some (record { value = some lamp; expires = 300 }) else none;
}

store-Coherent : Coherent store
unfolding find_product
store-Coherent = record { entry = λ id e p h k. ground arith }

abbrev jwt : Jwt
jwt = record {
  sign = λ secret claims. ok "t";
  method = λ token. some hs256;
  verify = λ secret at token. some admin_claims;
}

abbrev service : Auth.Service
service = record { secret = "s" }

abbrev admin_request : Request
admin_request = record { authorization = "Bearer t"; query_token = "" }

abbrev change : UpdateProductRequest
change = record { name = "Lamp"; description = ""; price = 12; category_id = none; status = "" }

abbrev creation : CreateProductRequest
creation = record { name = "Desk"; description = ""; price = 90; category_id = none }

operations-Coherent_example :
    Coherent (get_by_id true (pos 1) (start calm store)).1.state
    × Coherent (create_product true whole_floats (λ s. s) creation (start calm store)).1.state
    × Coherent (update_product true whole_floats (λ s. s) (pos 1) change (start calm store)).1.state
    × Coherent (delete_by_id true (pos 1) (start calm store)).1.state
operations-Coherent_example =
    operations-Coherent whole_floats (λ s. s) (pos 1) creation change (start calm store) (λ k. refl)
      store-Coherent

abbrev dearer : Product
dearer = record lamp { price = 12; updated_at = 0 }

abbrev changed_world : World Store
changed_world = (update_product true whole_floats (λ s. s) (pos 1) change (start calm store)).1

updates :
    Returns
      (update_product true whole_floats (λ s. s) (pos 1) change)
      (start calm store)
      dearer
      changed_world
unfolding update_product trim_space ◌>>=◌ update now perform update_row has_product find_product
    stored_row updated has_category affected invalidate_cache ignore attempt find_by_id query
    found_or cache_delete put_entry replace_product return
updates = refl

update_then_get_example : (get_by_id true (pos 1) changed_world).0 ≡ ok dearer
update_then_get_example =
    update_then_get true whole_floats (λ s. s) (pos 1) change (start calm store) changed_world
      dearer (λ k. refl) updates

serve-ByAdmin_example :
    SameRows store
      (serve jwt service true whole_floats
        (λ s. s)
        nothing
        nothing
        (delete_product admin_request "1")
        (start calm store)).1.state
    ⊎ ByAdmin jwt service 0 (some admin_request)
serve-ByAdmin_example =
    serve-ByAdmin jwt service true whole_floats (λ s. s) nothing nothing
      (delete_product admin_request "1") (start calm store)
