-- ===== src/Inventory/Handler.antt =====
-- internal/inventory/handler.go. The body arrives as what `httpx.DecodeJSON` made of it, and the
-- path value as text.
use cartnova_go_microservice.Prelude.{
  ℤ, String, Option, none, some, parse_int, is_nonpos, if◌then◌else◌,
}
use cartnova_go_microservice.Go.{is, Result, ok, err}
use cartnova_go_microservice.Http.{
  Response, json, error, status_ok, bad_request, not_found, internal_server_error,
}
use cartnova_go_microservice.World.{Run, return, attempt, ◌>>=◌, text_of}
use cartnova_go_microservice.Inventory.Model.{Inventory, Tables}
use cartnova_go_microservice.Inventory.Repository.{get}
use cartnova_go_microservice.Inventory.Service.{add_stock}

-- type AddStockRequest struct
pub record AddStockRequest : Type 0 where
  pub product_id : ℤ
  pub quantity : ℤ

respond_added : Result Inventory → Run Tables (Response Inventory)
respond_added (ok inventory) = return (json status_ok inventory)
respond_added (err e) = do text ← text_of e; return (error bad_request text)

unfoldable pub handle_add_stock : Result AddStockRequest → Run Tables (Response Inventory)
unfolding ◌>>=◌ return attempt respond_added add_stock text_of
handle_add_stock (err e) = return (error bad_request "invalid request body")
handle_add_stock (ok request) = do
  added ← attempt (add_stock request.product_id request.quantity)
  respond_added added

respond_found : Result Inventory → Run Tables (Response Inventory)
respond_found (ok inventory) = return (json status_ok inventory)
respond_found (err e) =
    if is e "inventory not found"
    then (do text ← text_of e; return (error not_found text))
    else return (error internal_server_error "could not load inventory")

get_by_id : Option ℤ → Run Tables (Response Inventory)
unfolding respond_found
get_by_id none = return (error bad_request "invalid product id")
get_by_id (some id) =
    if is_nonpos id
    then return (error bad_request "invalid product id")
    else do found ← attempt (get id); respond_found found

unfoldable pub handle_get : String → Run Tables (Response Inventory)
unfolding ◌>>=◌ return attempt get_by_id get parse_int is text_of
handle_get path_value = get_by_id (parse_int path_value)
