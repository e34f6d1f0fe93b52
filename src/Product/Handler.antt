-- ===== src/Product/Handler.antt =====
-- internal/product/handler.go. A body arrives as what `httpx.DecodeJSON` made of it, path values and
-- query parameters as text; a missing parameter is empty.
use cartnova_go_microservice.Prelude.{
  ℤ, String, Bool, Option, none, some, List, ◌==◌, if◌then◌else◌,
}
use cartnova_go_microservice.Go.{is, Result, ok, err, Floats}
use cartnova_go_microservice.Http.{
  Response, json, error, bare, status_ok, status_created, status_no_content, bad_request, not_found,
  internal_server_error,
}
use cartnova_go_microservice.Reply.{error_with_text, positive_id}
use cartnova_go_microservice.World.{Run, return, attempt, ◌>>=◌}
use cartnova_go_microservice.Product.Model.{
  Product, CreateProductRequest, UpdateProductRequest, Store,
}
use cartnova_go_microservice.Product.Service.{
  create_product, get_by_id, get_all, update_product, delete_by_id,
}

unfoldable pub created : Result Product → Run Store (Response Product)
created (ok p) = return (json status_created p)
created (err e) = error_with_text bad_request e

unfoldable pub loaded : Result Product → Run Store (Response Product)
loaded (ok p) = return (json status_ok p)
loaded (err e) =
    if is e "product not found"
    then error_with_text not_found e
    else return (error internal_server_error "could not load product")

unfoldable pub listed : Result (List Product) → Run Store (Response (List Product))
listed (ok products) = return (json status_ok products)
listed (err e) = return (error internal_server_error "could not load products")

unfoldable pub updated_reply : Result Product → Run Store (Response Product)
updated_reply (ok p) = return (json status_ok p)
updated_reply (err e) =
    if is e "product not found" then error_with_text not_found e else error_with_text bad_request e

unfoldable pub deleted : Result (Unit {0}) → Run Store (Response (Unit {0}))
deleted (ok _) = return (bare status_no_content)
deleted (err e) =
    if is e "product not found"
    then error_with_text not_found e
    else return (error internal_server_error "could not delete product")

module _ (has_redis : Bool) (floats : Floats) (to_upper : String → String) where
  unfoldable pub handle_create : Result CreateProductRequest → Run Store (Response Product)
  handle_create (err e) = return (error bad_request "invalid request body")
  handle_create (ok request) = do
    p ← attempt (create_product has_redis floats to_upper request)
    created p

  unfoldable pub change : ℤ → Result UpdateProductRequest → Run Store (Response Product)
  change id (err e) = return (error bad_request "invalid request body")
  change id (ok request) = do
    p ← attempt (update_product has_redis floats to_upper id request)
    updated_reply p

  unfoldable pub change_id : Option ℤ → Result UpdateProductRequest → Run Store (Response Product)
  change_id none body = return (error bad_request "invalid product id")
  change_id (some id) body = change id body

  unfoldable pub handle_update : String → Result UpdateProductRequest → Run Store (Response Product)
  handle_update path_value body = change_id (positive_id path_value) body

module _ (has_redis : Bool) where
  unfoldable pub load_id : Option ℤ → Run Store (Response Product)
  load_id none = return (error bad_request "invalid product id")
  load_id (some id) = do p ← attempt (get_by_id has_redis id); loaded p

  unfoldable pub handle_get_by_id : String → Run Store (Response Product)
  handle_get_by_id path_value = load_id (positive_id path_value)

  unfoldable pub delete_id : Option ℤ → Run Store (Response (Unit {0}))
  delete_id none = return (error bad_request "invalid product id")
  delete_id (some id) = do done ← attempt (delete_by_id has_redis id); deleted done

  unfoldable pub handle_delete : String → Run Store (Response (Unit {0}))
  handle_delete path_value = delete_id (positive_id path_value)

  module _ (ilike : String → String → Bool) where
    unfoldable pub list : Option ℤ → String → Run Store (Response (List Product))
    list category_id search = do
      products ← attempt (get_all has_redis ilike category_id search)
      listed products

    unfoldable pub list_category : Option ℤ → String → Run Store (Response (List Product))
    list_category none search = return (error bad_request "invalid category id")
    list_category (some id) search = list (some id) search

    -- The parameters `category_id` and `q`.
    unfoldable pub handle_get_all : String → String → Run Store (Response (List Product))
    handle_get_all category_id search =
        if category_id == ""
        then list none search
        else list_category (positive_id category_id) search
