-- ===== src/Order/Handler.antt =====
-- internal/order/handler.go. `claims` is what `auth.ClaimsFromContext` finds; the body arrives as
-- what `httpx.DecodeJSON` made of it, and the path value as text.
use cartnova_go_microservice.Prelude.{
  ℤ, String, Bool, false, not, ◌&&◌, Option, none, some, List, ◌==◌, ◌==ℤ◌, parse_int, is_nonpos,
  if◌then◌else◌,
}
use cartnova_go_microservice.Go.{is, Result, ok, err, Floats}
use cartnova_go_microservice.Http.{
  Response, json, error, status_ok, status_created, bad_request, unauthorized, forbidden, not_found,
  internal_server_error,
}
use cartnova_go_microservice.Auth.{Claims}
use cartnova_go_microservice.Reply.{error_with_text}
use cartnova_go_microservice.World.{Run, return, attempt, ◌>>=◌}
use cartnova_go_microservice.Order.Model.{Order, CreateOrderItem}
use cartnova_go_microservice.Order.Tables.{Tables}
use cartnova_go_microservice.Order.Service.{
  Clients, create_order, get_by_id, get_by_user_id, change_status,
}

created : Result Order → Run Tables (Response Order)
created (ok order) = return (json status_created order)
created (err e) = error_with_text bad_request e

unfoldable pub handle_create :
    Floats → Clients → Option Claims → Result (List CreateOrderItem) → Run Tables (Response Order)
unfolding ◌>>=◌ return attempt created error_with_text
handle_create floats clients none body = return (error unauthorized "unauthorized")
handle_create floats clients (some claims) (err e) =
    return (error bad_request "invalid request body")
handle_create floats clients (some claims) (ok items) = do
  order ← attempt (create_order floats clients claims.user_id items)
  created order

-- `claims.Role == "ADMIN" || claims.UserID == order.UserID`
unfoldable pub may_access : Option Claims → Order → Bool
may_access none order = false
may_access (some claims) order =
    not (not (claims.role == "ADMIN") && not (claims.user_id ==ℤ order.user_id))

unfoldable pub loaded : Option Claims → Result Order → Run Tables (Response Order)
unfolding may_access error_with_text
loaded claims (err e) =
    if is e "order not found"
    then error_with_text not_found e
    else return (error internal_server_error "could not load order")
loaded claims (ok order) =
    if may_access claims order
    then return (json status_ok order)
    else return (error forbidden "you cannot access this order")

unfoldable pub load : Option Claims → Option ℤ → Run Tables (Response Order)
unfolding loaded
load claims none = return (error bad_request "invalid order id")
load claims (some id) =
    if is_nonpos id
    then return (error bad_request "invalid order id")
    else do order ← attempt (get_by_id id); loaded claims order

unfoldable pub handle_get_by_id : Option Claims → String → Run Tables (Response Order)
unfolding ◌>>=◌ return attempt load
handle_get_by_id claims path_value = load claims (parse_int path_value)

unfoldable pub listed : Result (List Order) → Run Tables (Response (List Order))
listed (ok orders) = return (json status_ok orders)
listed (err e) = return (error internal_server_error "could not load orders")

unfoldable pub handle_get_mine : Option Claims → Run Tables (Response (List Order))
unfolding ◌>>=◌ return attempt listed
handle_get_mine none = return (error unauthorized "unauthorized")
handle_get_mine (some claims) = do orders ← attempt (get_by_user_id claims.user_id); listed orders

unfoldable pub updated : Result Order → Run Tables (Response Order)
unfolding error_with_text
updated (ok order) = return (json status_ok order)
updated (err e) =
    if is e "order not found"
    then error_with_text not_found e
    else if is e "invalid order status"
    then error_with_text bad_request e
    else return (error internal_server_error "could not update order status")

unfoldable pub change_to : ℤ → Result String → Run Tables (Response Order)
change_to id (err e) = return (error bad_request "invalid request body")
change_to id (ok status) = do order ← attempt (change_status id status); updated order

unfoldable pub change : Option ℤ → Result String → Run Tables (Response Order)
unfolding updated change_to
change none body = return (error bad_request "invalid order id")
change (some id) body =
    if is_nonpos id then return (error bad_request "invalid order id") else change_to id body

unfoldable pub is_admin : Option Claims → Bool
is_admin none = false
is_admin (some claims) = claims.role == "ADMIN"

-- The body is the field `status` of an UpdateStatusRequest.
unfoldable pub handle_update_status :
    Option Claims → String → Result String → Run Tables (Response Order)
unfolding ◌>>=◌ return attempt change is_admin
handle_update_status claims path_value body =
    if not (is_admin claims)
    then return (error forbidden "admin access required")
    else change (parse_int path_value) body
