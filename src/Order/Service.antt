-- ===== src/Order/Service.antt =====
-- internal/order/service.go without its consumer. The gRPC clients of the user and product services
-- are the parameter `Clients`.
use cartnova_go_microservice.Prelude.{
  ℕ, ℤ, pos, String, Bool, true, false, not, ◌||◌, List, [], ◌∷◌, ◌++◌, ◌==◌, ◌<>◌, format_int,
  is_nonpos, if◌then◌else◌,
}
use cartnova_go_microservice.Go.{GoError, sentinel, wrapped, Result, ok, err, Float64, Floats}
use cartnova_go_microservice.World.{Run, return, fail, attempt, remote, ◌>>=◌, ◌>>◌}
use cartnova_go_microservice.Events.{new_event, publish}
use cartnova_go_microservice.Grpc.{Struct, field, number_of}
use cartnova_go_microservice.Order.Model.{
  Order, OrderItem, CreateOrderItem, is_allowed_status, err_invalid_status, marshal_created_payload,
  marshal_result_payload,
}
use cartnova_go_microservice.Order.Tables.{Tables}
use cartnova_go_microservice.Order.Repository.{create, find_by_id, find_by_user_id, update_status}

abbrev pub err_empty_items : GoError
err_empty_items = sentinel "order must contain at least one item"

abbrev pub err_invalid_quantity : GoError
err_invalid_quantity = sentinel "quantity must be greater than zero"

abbrev pub order_events_topic : String
order_events_topic = "order-events"

abbrev pub inventory_events_topic : String
inventory_events_topic = "inventory-events"

-- What the services answer to a request for an id, at the n-th call. `has_user` is `s.user != nil`.
pub record Clients : Type 0 where
  pub has_user : Bool
  pub get_user : ℕ → Float64 → Result Struct
  pub get_product : ℕ → Float64 → Result Struct

-- `fmt.Errorf("prefix: %w", err)` for an error, and the value otherwise
unfoldable pub or_wrapped : {A : Type 0} → String → Result A → Run Tables A
unfolding return fail
or_wrapped prefix (ok a) = return a
or_wrapped prefix (err e) = fail (wrapped prefix e)

module _ (floats : Floats) (clients : Clients) where
  open floats use {zero_float, add, mul, of_int}

  unfoldable pub validate_user : ℤ → Run Tables (Unit {0})
  unfolding ◌>>=◌ return attempt remote or_wrapped
  validate_user user_id =
      if clients.has_user
      then (do
        response ← attempt (remote λ n. clients.get_user n (of_int user_id))
        or_wrapped "validate user" response
        return tt)
      else return tt

  -- One round of the loop over `request.Items`.
  unfoldable pub price_item : CreateOrderItem → Run Tables OrderItem
  unfolding ◌>>=◌ return fail attempt remote or_wrapped number_of
  price_item requested =
      if is_nonpos requested.product_id || is_nonpos requested.quantity
      then fail err_invalid_quantity
      else do
        answer ← attempt (remote λ n. clients.get_product n (of_int requested.product_id))
        response ← or_wrapped ("get product " <> format_int requested.product_id) answer
        return (record {
          id = pos 0;
          product_id = requested.product_id;
          quantity = requested.quantity;
          price = number_of floats (field "price" response);
        })

  -- The loop, with its variables `items` and `total`.
  unfoldable pub price_items :
      List CreateOrderItem → List OrderItem → Float64 → Run Tables (List OrderItem × Float64)
  unfolding ◌>>=◌ return
  price_items [] items total = return (items, total)
  price_items (requested ∷ rest) items total = do
    item ← price_item requested
    price_items rest (items ++ item ∷ []) (add total (mul item.price (of_int item.quantity)))

  unfoldable pub is_empty : List CreateOrderItem → Bool
  is_empty [] = true
  is_empty (_ ∷ _) = false

  unfoldable pub publish_created : Order → Run Tables (Unit {0})
  publish_created order = do
    event ← new_event "OrderCreated" (
        marshal_created_payload floats
          (record { order_id = order.id; user_id = order.user_id; items = order.items }))
    published ← attempt (publish order_events_topic event)
    or_wrapped "publish order event" published

  unfoldable pub create_order : ℤ → List CreateOrderItem → Run Tables Order
  unfolding is_empty
  create_order user_id requested = if is_empty requested then fail err_empty_items else do
    validate_user user_id
    (items, total) ← price_items requested [] zero_float
    order ← create floats user_id items total
    publish_created order
    return order

abbrev pub get_by_id : ℤ → Run Tables Order
get_by_id = find_by_id

abbrev pub get_by_user_id : ℤ → Run Tables (List Order)
get_by_user_id = find_by_user_id

unfoldable pub status_title : String → String
status_title status =
    if status == "CREATED"
    then "Created"
    else if status == "CONFIRMED"
    then "Confirmed"
    else if status == "PROCESSING"
    then "Processing"
    else if status == "SHIPPED"
    then "Shipped"
    else if status == "DELIVERED"
    then "Delivered"
    else if status == "CANCELLED"
    then "Cancelled"
    else status

-- `Service.UpdateStatus`
unfoldable pub change_status : ℤ → String → Run Tables Order
unfolding ◌>>=◌ fail
change_status id status = if not (is_allowed_status status) then fail err_invalid_status else do
  order ← find_by_id id
  update_status id status
  event ←
      new_event ("Order" <> status_title status) (
        ok
          (marshal_result_payload (record { order_id = id; user_id = order.user_id; reason = "" })))
  publish order_events_topic event
  find_by_id id
