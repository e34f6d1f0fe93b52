-- ===== src/Order/Settle.antt =====
-- What the consumer of inventory events does with a message.
use cartnova_go_microservice.Prelude.{
  suc, String, ◌≡◌, refl, ap, ltb, ◌⊎◌, true, false, ◌||◌, [], ◌∷◌, ◌++◌, ◌==◌, eq_refl, arith,
}
use cartnova_go_microservice.Go.{ok, err, foreign}
use cartnova_go_microservice.World.{
  World, Run, outside_call, lift, now, done, refused, perform, ◌>>=◌,
}
use cartnova_go_microservice.World.Keeps.{Keeps}
use cartnova_go_microservice.World.Returns.{Returns}
use cartnova_go_microservice.Events.{Message, commit}
use cartnova_go_microservice.Order.Model.{InventoryResultPayload, unmarshal_result_payload}
use cartnova_go_microservice.Order.Tables.{Tables}
use cartnova_go_microservice.Order.Repository.{update_status, mark_event_processed}
use cartnova_go_microservice.Order.Consumer.{
  is_inventory_event, settle_order, process_inventory_event,
}

-- The tables with the event recorded.
abbrev pub recorded : String → Tables → Tables
recorded event_id t = record t {
  processed_events = λ other. (event_id == other) || t.processed_events other;
}

-- The status of the order that a result of the inventory service means.
abbrev pub LeadsTo : String → String → Type 0
LeadsTo event_type status =
    ((event_type ≡ "InventoryReserved") × (status ≡ "CONFIRMED"))
    ⊎ ((event_type ≡ "InventoryReservationFailed") × (status ≡ "CANCELLED"))

module _ (publish_status_event : String → InventoryResultPayload → Run Tables (Unit {0})) where
  module _ (message : Message) (w : World Tables) where
    -- A redelivered result changes no order and publishes nothing, however the calls outside end.
    pub result_redelivery_ignored :
        w.state.processed_events message.event.id ≡ true
        → ((process_inventory_event publish_status_event message w).1.state.orders ≡ w.state.orders)
          × ((process_inventory_event publish_status_event message w).1.state.order_items
              ≡ w.state.order_items)
          × ((process_inventory_event publish_status_event message w).1.published ≡ w.published)
    unfolding process_inventory_event mark_event_processed settle_order commit ◌>>=◌ perform
        outside_call lift
    result_redelivery_ignored h = ground arith

    half_done : World Tables
    half_done = record w {
      calls = suc (suc w.calls);
      readings = suc w.readings;
      state = recorded message.event.id w.state;
    }

    update_refused :
        (payload : InventoryResultPayload) (text : String)
        → is_inventory_event message.event.event_type ≡ true
        → unmarshal_result_payload message.event.payload ≡ ok payload
        → ltb 100 (Prim.Native.String.count message.event.id) ≡ false
        → w.state.processed_events message.event.id ≡ false
        → w.outside.fate w.calls ≡ done
        → w.outside.fate (suc w.calls) ≡ refused text
        → process_inventory_event publish_status_event message w ≡ (err (foreign text), half_done)
    unfolding process_inventory_event mark_event_processed settle_order update_status ◌>>=◌ perform
        outside_call lift now half_done
    update_refused payload text i d short fresh f g = rw (i, d, f, short, fresh, g) refl

    -- (applied to `half_done`)
    commit_again :
        (payload : InventoryResultPayload)
        → is_inventory_event message.event.event_type ≡ true
        → unmarshal_result_payload message.event.payload ≡ ok payload
        → ltb 100 (Prim.Native.String.count message.event.id) ≡ false
        → w.state.processed_events message.event.id ≡ true
        → w.outside.fate w.calls ≡ done
        → w.outside.fate (suc w.calls) ≡ done
        → process_inventory_event publish_status_event message w ≡ (
          ok tt,
          record w {
            calls = suc (suc w.calls);
            committed = w.committed ++ message.message.offset ∷ [];
            state = recorded message.event.id w.state;
          },
        )
    unfolding process_inventory_event mark_event_processed settle_order commit ◌>>=◌ perform
        outside_call lift
    commit_again payload i d short h f g = rw (i, d, f, short, h, g) refl

  -- A result with an id of at most 100 characters is recorded before the order is updated: if the update fails then, the consumer ends with
  -- the error, and when the result comes again it is acknowledged and the order keeps its old status.
  pub status_lost :
      (message : Message) (w : World Tables) (payload : InventoryResultPayload) (text : String)
      → is_inventory_event message.event.event_type ≡ true
      → unmarshal_result_payload message.event.payload ≡ ok payload
      → ltb 100 (Prim.Native.String.count message.event.id) ≡ false
      → w.state.processed_events message.event.id ≡ false
      → w.outside.fate w.calls ≡ done
      → w.outside.fate (suc w.calls) ≡ refused text
      → w.outside.fate (suc (suc w.calls)) ≡ done
      → w.outside.fate (suc (suc (suc w.calls))) ≡ done
      → let (first, v) = process_inventory_event publish_status_event message w in
        let (second, u) = process_inventory_event publish_status_event message v in
        (first ≡ err (foreign text))
        × (second ≡ ok tt)
        × (u.state.orders ≡ w.state.orders)
        × (u.committed ≡ w.committed ++ message.message.offset ∷ [])
  unfolding half_done
  status_lost message w payload text i d short fresh f g k l =
      rw
        (
          update_refused message w payload text i d short fresh f g,
          commit_again message (half_done message w) payload i d short
              (ap (λ b. b || w.state.processed_events message.event.id) (eq_refl message.event.id))
              k l,
        )
        (refl, refl, refl, refl)
