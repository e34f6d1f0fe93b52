-- ===== src/Inventory/Gaps.antt =====
-- Failures after which an order event is acknowledged although its order is not settled.
use cartnova_go_microservice.Prelude.{suc, ltb, false, String, ◌≡◌, refl, ◌∙◌, [], ◌∷◌, ◌++◌}
use cartnova_go_microservice.Go.{GoError, foreign, error_text, ok, err}
use cartnova_go_microservice.World.{World, done, refused}
use cartnova_go_microservice.World.Transaction.{transaction_refused, SameBroker}
use cartnova_go_microservice.Events.{Message}
use cartnova_go_microservice.Inventory.Model.{
  InventoryOrderPayload, Tables, unmarshal_order_payload,
}
use cartnova_go_microservice.Inventory.Repository.{reserve_body, reserve_order}
use cartnova_go_microservice.Inventory.Atomic.{reserve_order-SameBroker}
use cartnova_go_microservice.Inventory.Service.{after_reserve, process_order_event}
use cartnova_go_microservice.Inventory.Announce.{
  Announced, Announced-from, insert_processed_short, reserved, after_failure, process_created,
}

after_failure_done :
    (message : Message) (payload : InventoryOrderPayload) (w : World Tables) (e : GoError)
    → w.outside.fate w.calls ≡ done
    → w.outside.fate (suc w.calls) ≡ done
    → ((after_reserve message payload (err e) w).0 ≡ ok tt)
      × ((after_reserve message payload (err e) w).1.state ≡ w.state)
unfolding after_reserve
after_failure_done message payload w e f g = rw (f, g) (refl, refl)

reserved_refused :
    (payload : InventoryOrderPayload) (w : World Tables) (text : String)
    → w.outside.fate w.calls ≡ refused text
    → reserved payload w ≡ (err (foreign text), record w { calls = suc w.calls })
unfolding reserve_order
reserved_refused payload w text f =
    transaction_refused (reserve_body payload.order_id payload.items) w text f

-- The database is not reached: `Begin` fails, and the two calls after it go through. The event is
-- acknowledged all the same, with InventoryReservationFailed, and nothing was reserved.
pub unavailable_acknowledged :
    (message : Message) (payload : InventoryOrderPayload) (w : World Tables) (text : String)
    → message.event.event_type ≡ "OrderCreated"
    → unmarshal_order_payload message.event.payload ≡ ok payload
    → w.outside.fate w.calls ≡ refused text
    → w.outside.fate (suc w.calls) ≡ done
    → w.outside.fate (suc (suc w.calls)) ≡ done
    → ((process_order_event message w).0 ≡ ok tt)
      × ((process_order_event message w).1.state ≡ w.state)
      × Announced "InventoryReservationFailed" text message payload w
          (process_order_event message w).1
unfolding error_text
unavailable_acknowledged message payload w text created decoded f g h =
    let v : World Tables = record w { calls = suc w.calls } in
    let (nil, same) = after_failure_done message payload v (foreign text) g h in
    rw (process_created message payload w created decoded, reserved_refused payload w text f)
      (nil, same, Announced-from refl refl (after_failure message payload v (foreign text) nil))

after_success_lost :
    (message : Message) (payload : InventoryOrderPayload) (v : World Tables) (text : String)
    → ltb 100 (Prim.Native.String.count message.event.id) ≡ false
    → v.outside.fate v.calls ≡ done
    → v.outside.fate (suc v.calls) ≡ done
    → v.outside.fate (suc (suc v.calls)) ≡ refused text
    → ((after_reserve message payload (ok tt) v).0 ≡ err (foreign text))
      × ((after_reserve message payload (ok tt) v).1.committed
          ≡ v.committed ++ message.message.offset ∷ [])
      × ((after_reserve message payload (ok tt) v).1.published ≡ v.published)
unfolding after_reserve
after_success_lost message payload v text short f g h =
    rw (f, insert_processed_short message.event.id v.state short, g, h) (refl, refl, refl)

module _ (message : Message) (payload : InventoryOrderPayload) (w : World Tables)
    (text : String) where
  -- The world when `ReserveOrder` has returned.
  abbrev later : World Tables
  later = (reserved payload w).1

  -- The reservation succeeds, and its event, with an id of at most 100 characters, is acknowledged before the result is published: if the
  -- publication fails then, nobody is told, and the event is not delivered again.
  pub reserved_unannounced :
      message.event.event_type ≡ "OrderCreated"
      → unmarshal_order_payload message.event.payload ≡ ok payload
      → ltb 100 (Prim.Native.String.count message.event.id) ≡ false
      → (reserved payload w).0 ≡ ok tt
      → later.outside.fate later.calls ≡ done
      → later.outside.fate (suc later.calls) ≡ done
      → later.outside.fate (suc (suc later.calls)) ≡ refused text
      → ((process_order_event message w).0 ≡ err (foreign text))
        × ((process_order_event message w).1.committed ≡ w.committed ++ message.message.offset ∷ [])
        × ((process_order_event message w).1.published ≡ w.published)
  reserved_unannounced created decoded short r f g h =
      let same : SameBroker w later = reserve_order-SameBroker payload.order_id payload.items w in
      let (failed, acked, silent) = after_success_lost message payload later text short f g h in
      rw (process_created message payload w created decoded, r)
        (failed, rw (acked, same.committed) refl, silent ∙ same.published)
