-- ===== src/Inventory/Tests.antt =====
-- The theorems of the inventory service at concrete orders.
use cartnova_go_microservice.Prelude.{
  ℤ, ◌-ℤ◌, ◌+ℤ◌, pos, ◌≡◌, refl, false, some, List, [], ◌∷◌, ◌++◌,
}
use cartnova_go_microservice.Inventory.Settled.{process_order_event_settles}
use cartnova_go_microservice.Go.{foreign, ok, err}
use cartnova_go_microservice.Json.{Json, num, arr, obj, nil, cons, end, member}
use cartnova_go_microservice.World.Samples.{calm, broken, start}
use cartnova_go_microservice.World.Transaction.{IsAtomic, pair, outcome}
use cartnova_go_microservice.Events.{Message}
use cartnova_go_microservice.Inventory.Model.{
  ReservationItem, InventoryOrderPayload, Tables, unmarshal_order_payload,
}
use cartnova_go_microservice.Inventory.Repository.{reserve_order}
use cartnova_go_microservice.Inventory.Service.{after_reserve, process_order_event, consume_orders}
use cartnova_go_microservice.Inventory.Plan.Stock.{total}
use cartnova_go_microservice.Inventory.Atomic.{
  planned_order, reserve_order-IsAtomic, reserve_order-outcome,
}
use cartnova_go_microservice.Inventory.Reserve.{
  reserve_order-total, reserve_order_again, second_line_ignored,
}
use cartnova_go_microservice.Inventory.Consistent.{Consistent}
use cartnova_go_microservice.Inventory.Operations.{consume_orders-Consistent}
use cartnova_go_microservice.Inventory.Announce.{
  Announced, Decided, reserved, process_order_event-Decided,
}
use cartnova_go_microservice.Inventory.Gaps.{unavailable_acknowledged, reserved_unannounced}

-- Five units of every product.
abbrev stocked : Tables
stocked = record {
  inventory = λ p. some (record { available = pos 5; reserved = pos 0 });
  reservations = [];
  processed_events = λ id. false;
}

abbrev line : ℤ → ℤ → ReservationItem
line product_id quantity = record { product_id = product_id; quantity = quantity }

abbrev order_lines : List ReservationItem
order_lines = line (pos 1) (pos 2) ∷ line (pos 2) (pos 3) ∷ []

abbrev payload : InventoryOrderPayload
payload = record { order_id = pos 7; user_id = pos 3; items = line (pos 1) (pos 2) ∷ [] }

abbrev document : Json
document = obj (
    member "order_id" (num (pos 7)) (
      member "user_id" (num (pos 3)) (
        member "items"
          (arr (
            cons (obj (member "product_id" (num (pos 1)) (member "quantity" (num (pos 2)) end)))
              nil))
          end)))

abbrev message : Message
message = record {
  event = record { id = "e1"; event_type = "OrderCreated"; occurred_at = 1; payload = document };
  message = record {
    offset = 4;
    value =
        some
          (record { id = "e1"; event_type = "OrderCreated"; occurred_at = 1; payload = document });
  };
}

decoded : unmarshal_order_payload document ≡ ok payload
unfolding unmarshal_order_payload
decoded = refl

reserve_order-IsAtomic_example :
    IsAtomic stocked
      (planned_order (pos 7) order_lines stocked)
      (reserve_order (pos 7) order_lines (start (broken 3) stocked)).0
      (reserve_order (pos 7) order_lines (start (broken 3) stocked)).1.state
reserve_order-IsAtomic_example =
    reserve_order-IsAtomic (pos 7) order_lines (start (broken 3) stocked)

reserve_order-outcome_example :
    pair (reserve_order (pos 7) order_lines (start calm stocked))
    ≡ outcome stocked (planned_order (pos 7) order_lines stocked)
reserve_order-outcome_example =
    reserve_order-outcome (pos 7) order_lines (start calm stocked) (λ k. refl)

reserve_order-total_example :
    total (reserve_order (pos 7) order_lines (start (broken 9) stocked)).1.state (pos 2)
    ≡ total stocked (pos 2)
reserve_order-total_example =
    reserve_order-total (pos 7) order_lines (start (broken 9) stocked) (pos 2)

reserves : (reserve_order (pos 7) order_lines (start calm stocked)).0 ≡ ok tt
unfolding reserve_order ◌-ℤ◌ ◌+ℤ◌
reserves = refl

reserve_order_again_example :
    pair
      (reserve_order (pos 7) order_lines (reserve_order (pos 7) order_lines (start calm stocked)).1)
    ≡ (ok tt, (reserve_order (pos 7) order_lines (start calm stocked)).1.state)
reserve_order_again_example =
    reserve_order_again (pos 7) order_lines (start calm stocked) (λ k. refl) reserves

second_line_ignored_example :
    pair (
      reserve_order (pos 7) (line (pos 1) (pos 2) ∷ line (pos 1) (pos 3) ∷ []) (start calm stocked))
    ≡ pair (reserve_order (pos 7) (line (pos 1) (pos 2) ∷ []) (start calm stocked))
second_line_ignored_example =
    second_line_ignored (pos 7) (line (pos 1) (pos 2)) (line (pos 1) (pos 3)) (start calm stocked)
      (λ k. refl) refl

stocked-Consistent : Consistent stocked
stocked-Consistent = record {
  fits = record { row = λ p. (refl, refl, refl, refl) };
  balances = record { row = λ p. refl };
}

consume_orders-Consistent_example :
    Consistent
      (consume_orders
        (ok message.message ∷ ok message.message ∷ err (foreign "closed") ∷ [])
        (start (broken 8) stocked)).1.state
consume_orders-Consistent_example =
    consume_orders-Consistent
      (ok message.message ∷ ok message.message ∷ err (foreign "closed") ∷ [])
      (start (broken 8) stocked) stocked-Consistent

settles : (process_order_event message (start calm stocked)).0 ≡ ok tt
unfolding ◌-ℤ◌ ◌+ℤ◌ process_order_event reserve_order after_reserve unmarshal_order_payload
settles = refl

process_order_event-Decided_example :
    Decided message payload
      (start calm stocked)
      (process_order_event message (start calm stocked)).1
process_order_event-Decided_example =
    process_order_event-Decided message payload (start calm stocked) refl decoded settles

unavailable_acknowledged_example :
    ((process_order_event message (start (broken 0) stocked)).0 ≡ ok tt)
    × ((process_order_event message (start (broken 0) stocked)).1.state ≡ stocked)
    × Announced "InventoryReservationFailed" "down" message payload
        (start (broken 0) stocked)
        (process_order_event message (start (broken 0) stocked)).1
unavailable_acknowledged_example =
    unavailable_acknowledged message payload (start (broken 0) stocked) "down" refl decoded refl
      refl refl

reserves_one : (reserved payload (start (broken 8) stocked)).0 ≡ ok tt
unfolding reserve_order ◌-ℤ◌ ◌+ℤ◌
reserves_one = refl

calls_made : (reserved payload (start (broken 8) stocked)).1.calls ≡ 6
unfolding reserve_order ◌-ℤ◌ ◌+ℤ◌
calls_made = refl

reserved_unannounced_example :
    ((process_order_event message (start (broken 8) stocked)).0 ≡ err (foreign "down"))
    × ((process_order_event message (start (broken 8) stocked)).1.committed ≡ [] ++ 4 ∷ [])
    × ((process_order_event message (start (broken 8) stocked)).1.published ≡ [])
unfolding reserve_order ◌-ℤ◌ ◌+ℤ◌
reserved_unannounced_example =
    reserved_unannounced message payload (start (broken 8) stocked) "down" refl decoded refl
      reserves_one refl refl refl

process_order_event_settles_example :
    ((process_order_event message (start calm stocked)).0 ≡ ok tt)
    × Decided message payload
        (start calm stocked)
        (process_order_event message (start calm stocked)).1
process_order_event_settles_example =
    process_order_event_settles message payload (start calm stocked) refl decoded refl (λ k. refl)
