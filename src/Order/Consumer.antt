-- ===== src/Order/Consumer.antt =====
-- `ConsumeInventoryEvents` of internal/order/service.go. The body calls `s.publishStatusEvent`, which
-- no file of the repository defines: it is the parameter `publish_status_event`.
use cartnova_go_microservice.Prelude.{String, Bool, not, ◌&&◌, List, [], ◌∷◌, ◌==◌, if◌then◌else◌}
use cartnova_go_microservice.Go.{Result}
use cartnova_go_microservice.World.{Run, return, lift, ◌>>=◌, ◌>>◌}
use cartnova_go_microservice.Events.{KafkaMessage, Message, fetch, commit}
use cartnova_go_microservice.Order.Model.{InventoryResultPayload, unmarshal_result_payload}
use cartnova_go_microservice.Order.Tables.{Tables}
use cartnova_go_microservice.Order.Repository.{update_status, mark_event_processed}

-- The status that an inventory event leads to, and the type of the event that says so.
unfoldable pub status_for : String → String
status_for event_type =
    if event_type == "InventoryReservationFailed" then "CANCELLED" else "CONFIRMED"

unfoldable pub status_event_type : String → String
status_event_type status = if status == "CANCELLED" then "OrderCancelled" else "OrderConfirmed"

unfoldable pub is_inventory_event : String → Bool
is_inventory_event event_type =
    not
      (not (event_type == "InventoryReserved") && not (event_type == "InventoryReservationFailed"))

module _ (publish_status_event : String → InventoryResultPayload → Run Tables (Unit {0})) where
  -- What follows `MarkEventProcessed`.
  unfoldable pub settle_order : Message → InventoryResultPayload → Bool → Run Tables (Unit {0})
  unfolding ◌>>=◌ status_for status_event_type
  settle_order message payload processed = if not processed then commit message else do
    let status : String = status_for message.event.event_type
    update_status payload.order_id status
    publish_status_event (status_event_type status) payload
    commit message

  -- One round of the loop, after `Fetch`.
  unfoldable pub process_inventory_event : Message → Run Tables (Unit {0})
  unfolding ◌>>=◌ lift is_inventory_event
  process_inventory_event message =
      if not (is_inventory_event message.event.event_type) then commit message else do
        payload ← lift (unmarshal_result_payload message.event.payload)
        processed ← mark_event_processed message.event.id
        settle_order message payload processed

  -- The loop over what the fetches return; it ends with the first error.
  unfoldable pub consume_inventory_events : List (Result KafkaMessage) → Run Tables (Unit {0})
  unfolding ◌>>=◌ return
  consume_inventory_events [] = return tt
  consume_inventory_events (fetched ∷ rest) = do
    message ← fetch fetched
    process_inventory_event message
    consume_inventory_events rest
