-- ===== src/Inventory/Service.antt =====
-- internal/inventory/service.go. A worker's consumer is the list of what its fetches return.
use cartnova_go_microservice.Prelude.{
  ℤ, String, not, ◌||◌, List, [], ◌∷◌, ◌==◌, is_nonpos, ltb_ℤ, pos, if◌then◌else◌,
}
use cartnova_go_microservice.Go.{GoError, sentinel, Result, ok, err}
use cartnova_go_microservice.World.{Run, return, fail, lift, attempt, ◌>>=◌, ◌>>◌, text_of}
use cartnova_go_microservice.Events.{KafkaMessage, Message, new_event, publish, fetch, commit}
use cartnova_go_microservice.Inventory.Model.{
  Inventory, InventoryOrderPayload, Tables, unmarshal_order_payload, marshal_result_payload,
}
use cartnova_go_microservice.Inventory.Repository.{
  create_or_update, reserve_order, mark_event_processed,
}

abbrev pub order_events_topic : String
order_events_topic = "order-events"

abbrev pub inventory_events_topic : String
inventory_events_topic = "inventory-events"

-- `NewService` keeps at least one worker: four, if the configured number is below one.
unfoldable pub worker_count : ℤ → ℤ
worker_count workers = if ltb_ℤ workers (pos 1) then pos 4 else workers

abbrev pub err_not_positive : GoError
err_not_positive = sentinel "product id and quantity must be greater than zero"

unfoldable pub add_stock : ℤ → ℤ → Run Tables Inventory
unfolding fail create_or_update
add_stock product_id quantity =
    if is_nonpos product_id || is_nonpos quantity
    then fail err_not_positive
    else create_or_update product_id quantity

unfoldable pub publish_result : String → ℤ → ℤ → String → Run Tables Unit
unfolding ◌>>=◌ new_event publish marshal_result_payload
publish_result event_type order_id user_id reason = do
  event ← new_event event_type (
      ok (
        marshal_result_payload
          (record { order_id = order_id; user_id = user_id; reason = reason })))
  publish inventory_events_topic event

unfoldable pub publish_failure : ℤ → ℤ → String → Run Tables Unit
unfolding publish_result
publish_failure order_id user_id reason =
    publish_result "InventoryReservationFailed" order_id user_id reason

-- What follows `ReserveOrder`, by its result.
unfoldable pub after_reserve : Message → InventoryOrderPayload → Result (Unit {0}) → Run Tables Unit
unfolding ◌>>=◌ commit text_of publish_failure mark_event_processed
after_reserve message payload (err e) = do
  reason ← text_of e
  publish_failure payload.order_id payload.user_id reason
  commit message
after_reserve message payload (ok _) = do
  mark_event_processed message.event.id
  commit message
  publish_result "InventoryReserved" payload.order_id payload.user_id ""

unfoldable pub process_order_event : Message → Run Tables Unit
unfolding ◌>>=◌ lift attempt
process_order_event message =
    if not (message.event.event_type == "OrderCreated") then commit message else do
      payload ← lift (unmarshal_order_payload message.event.payload)
      reserved ← attempt (reserve_order payload.order_id payload.items)
      after_reserve message payload reserved

-- One worker of `ConsumeOrders`: it stops at the first error, of a fetch or of an event. The list
-- ends where the next fetch has not returned.
unfoldable pub consume_orders : List (Result KafkaMessage) → Run Tables Unit
unfolding ◌>>=◌ return
consume_orders [] = return tt
consume_orders (fetched ∷ rest) = do
  message ← fetch fetched
  process_order_event message
  consume_orders rest
