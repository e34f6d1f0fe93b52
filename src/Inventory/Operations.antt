-- ===== src/Inventory/Operations.antt =====
-- The inventory invariant across the operations of the service.
use cartnova_go_microservice.Prelude.{ℤ, String, List, [], ◌∷◌}
use cartnova_go_microservice.Go.{Result, ok, err}
use cartnova_go_microservice.World.{World, ◌>>◌}
use cartnova_go_microservice.World.Keeps.{Keeps, Keeps-bind}
use cartnova_go_microservice.Events.{KafkaMessage, Message, fetch}
use cartnova_go_microservice.Events.Keeps.{Keeps-fetch, event_rules}
use cartnova_go_microservice.Inventory.Model.{InventoryOrderPayload, Tables}
use cartnova_go_microservice.Inventory.Service.{
  publish_result, publish_failure, after_reserve, process_order_event, consume_orders,
}
use cartnova_go_microservice.Inventory.Consistent.{
  Consistent, reserve_order-Consistent, mark_event_processed-Consistent,
}

Keeps-publish_result :
    {P : Tables → Type 0} (event_type : String) (order_id user_id : ℤ) (reason : String)
    → Keeps P (publish_result event_type order_id user_id reason)
unfolding publish_result
Keeps-publish_result event_type order_id user_id reason = search event_rules

Keeps-publish_failure :
    {P : Tables → Type 0} (order_id user_id : ℤ) (reason : String)
    → Keeps P (publish_failure order_id user_id reason)
unfolding publish_failure
Keeps-publish_failure order_id user_id reason = Keeps-publish_result _ order_id user_id reason

after_reserve-Consistent :
    (message : Message) (payload : InventoryOrderPayload) (r : Result (Unit {0}))
    → Keeps Consistent (after_reserve message payload r)
unfolding after_reserve
after_reserve-Consistent message payload (err e) = search (event_rules, Keeps-publish_failure)
after_reserve-Consistent message payload (ok _) =
    search (event_rules, Keeps-publish_result, mark_event_processed-Consistent)

process_order_event-Consistent :
    (message : Message) → Keeps Consistent (process_order_event message)
unfolding process_order_event
process_order_event-Consistent message =
    search (event_rules, reserve_order-Consistent, after_reserve-Consistent)

consume_orders-Keeps :
    (fetches : List (Result KafkaMessage)) → Keeps Consistent (consume_orders fetches)
unfolding consume_orders
consume_orders-Keeps [] = search event_rules
consume_orders-Keeps (fetched ∷ rest) =
    Keeps-bind (fetch fetched) (λ message. process_order_event message >> consume_orders rest)
      (Keeps-fetch fetched)
      λ message.
        Keeps-bind (process_order_event message) (λ _. consume_orders rest)
          (process_order_event-Consistent message) (λ _. consume_orders-Keeps rest)

-- Whatever messages a worker fetches and whatever calls fail, the tables stay consistent.
pub consume_orders-Consistent :
    (fetches : List (Result KafkaMessage)) (w : World Tables)
    → Consistent w.state
    → Consistent (consume_orders fetches w).1.state
consume_orders-Consistent fetches w h = (consume_orders-Keeps fetches).at w h
