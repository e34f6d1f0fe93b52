-- ===== src/Inventory/Settled.antt =====
-- An order event is settled whenever its calls go through.
use cartnova_go_microservice.Prelude.{suc, ltb, false, ◌≡◌, refl, ap, ◌∙◌}
use cartnova_go_microservice.Go.{Result, ok, err}
use cartnova_go_microservice.World.{World}
use cartnova_go_microservice.World.Computes.{IsClear}
use cartnova_go_microservice.Events.{Message}
use cartnova_go_microservice.Inventory.Model.{
  InventoryOrderPayload, Tables, unmarshal_order_payload,
}
use cartnova_go_microservice.Inventory.Atomic.{reserve_order-SameBroker}
use cartnova_go_microservice.Inventory.Service.{after_reserve, process_order_event}
use cartnova_go_microservice.Inventory.Announce.{
  Decided, insert_processed_short, reserved, process_created, process_order_event-Decided,
}

after_reserve_clear :
    (message : Message) (payload : InventoryOrderPayload) (r : Result (Unit {0})) (v : World Tables)
    → ltb 100 (Prim.Native.String.count message.event.id) ≡ false
    → IsClear v
    → (after_reserve message payload r v).0 ≡ ok tt
unfolding after_reserve
after_reserve_clear message payload (ok x) v short c =
    rw
      (
        c v.calls,
        insert_processed_short message.event.id v.state short,
        c (suc v.calls),
        c (suc (suc v.calls)),
      )
      refl
after_reserve_clear message payload (err e) v short c = rw (c v.calls, c (suc v.calls)) refl

-- When no call fails, processing an OrderCreated event with an id of at most 100 characters and a
-- readable payload returns nil; the event is acknowledged and the result of its reservation is
-- published.
pub process_order_event_settles :
    (message : Message) (payload : InventoryOrderPayload) (w : World Tables)
    → message.event.event_type ≡ "OrderCreated"
    → unmarshal_order_payload message.event.payload ≡ ok payload
    → ltb 100 (Prim.Native.String.count message.event.id) ≡ false
    → IsClear w
    → ((process_order_event message w).0 ≡ ok tt)
      × Decided message payload w (process_order_event message w).1
process_order_event_settles message payload w created decoded short clear =
    let later = (reserved payload w).1 in
    let same = reserve_order-SameBroker payload.order_id payload.items w in
    let done : (process_order_event message w).0 ≡ ok tt =
      ap (λ q. q.0) (process_created message payload w created decoded)
      ∙ after_reserve_clear message payload (reserved payload w).0 later short
          (λ k. rw (same.outside) (clear k)) in
    (done, process_order_event-Decided message payload w created decoded done)
