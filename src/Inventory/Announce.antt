-- ===== src/Inventory/Announce.antt =====
-- What `processOrderEvent` publishes and acknowledges.
use cartnova_go_microservice.Prelude.{
  String, false, not, ltb, ◌||◌, ◌==◌, ◌≡◌, refl, subst, ◌⊎◌, inl, inr, [], ◌∷◌, ◌++◌, arith,
}
use cartnova_go_microservice.Go.{GoError, error_text, Result, ok, err}
use cartnova_go_microservice.World.{Event, Outside, World}
use cartnova_go_microservice.World.Transaction.{SameBroker}
use cartnova_go_microservice.Inventory.Atomic.{reserve_order-SameBroker}
use cartnova_go_microservice.Events.{Message}
use cartnova_go_microservice.Inventory.Model.{
  InventoryOrderPayload, Tables, unmarshal_order_payload, marshal_result_payload,
}
use cartnova_go_microservice.Inventory.Repository.{single, reserve_order}
use cartnova_go_microservice.Inventory.Tables.{insert_processed}
use cartnova_go_microservice.Inventory.Service.{
  inventory_events_topic, after_reserve, process_order_event,
}

-- One event was published with this type and reason for the order, and the message was committed.
pub record Announced (event_type reason : String) (message : Message)
    (payload : InventoryOrderPayload) (v w : World Tables) : Type 0 where
  pub event : Event
  pub typed : event.event_type ≡ event_type
  pub body :
      event.payload
      ≡ marshal_result_payload
          (record { order_id = payload.order_id; user_id = payload.user_id; reason = reason })
  pub published : w.published ≡ v.published ++ (inventory_events_topic, event) ∷ []
  pub committed : w.committed ≡ v.committed ++ message.message.offset ∷ []

-- The statement of `MarkEventProcessed` with an id that fits its column.
pub insert_processed_short :
    (event_id : String) (t : Tables)
    → ltb 100 (Prim.Native.String.count event_id) ≡ false
    → single (insert_processed event_id) t ≡ (
      ok (not (t.processed_events event_id)),
      record t { processed_events = λ other. (event_id == other) || t.processed_events other },
    )
unfolding insert_processed
insert_processed_short event_id t short = rw (single, short) refl

module _ (message : Message) (payload : InventoryOrderPayload) (w : World Tables) where
  abbrev event_of : String → String → World Tables → Event
  event_of event_type reason v = record {
    id = v.outside.uuid v.drawn;
    event_type = event_type;
    occurred_at = v.outside.clock v.readings;
    payload =
        marshal_result_payload
          (record { order_id = payload.order_id; user_id = payload.user_id; reason = reason });
  }

  pub after_failure :
      (e : GoError)
      → (after_reserve message payload (err e) w).0 ≡ ok tt
      → Announced "InventoryReservationFailed"
          (error_text w.outside.pg_message e)
          message
          payload
          w
          (after_reserve message payload (err e) w).1
  unfolding after_reserve
  after_failure e h = record {
    event = event_of "InventoryReservationFailed" (error_text w.outside.pg_message e) w;
    typed = refl;
    body = refl;
    published = ground arith;
    committed = ground arith;
  }

  pub after_success :
      (after_reserve message payload (ok tt) w).0 ≡ ok tt
      → Announced "InventoryReserved" "" message payload w
          (after_reserve message payload (ok tt) w).1
  unfolding after_reserve
  after_success h = record {
    event = event_of "InventoryReserved" "" w;
    typed = refl;
    body = refl;
    published = ground arith;
    committed = ground arith;
  }

abbrev pub reserved : InventoryOrderPayload → World Tables → Result (Unit {0}) × World Tables
reserved payload w = reserve_order payload.order_id payload.items w

pub process_created :
    (message : Message) (payload : InventoryOrderPayload) (w : World Tables)
    → message.event.event_type ≡ "OrderCreated"
    → unmarshal_order_payload message.event.payload ≡ ok payload
    → process_order_event message w
      ≡ after_reserve message payload (reserved payload w).0 (reserved payload w).1
unfolding process_order_event
process_created message payload w created decoded = rw (created, decoded) refl

-- What an order created event leads to when its processing returns nil.
abbrev pub Decided : Message → InventoryOrderPayload → World Tables → World Tables → Type 0
Decided message payload w w' =
    (((reserved payload w).0 ≡ ok tt) × Announced "InventoryReserved" "" message payload w w')
    ⊎ ((e : GoError) × ((reserved payload w).0 ≡ err e)
        × Announced "InventoryReservationFailed" (error_text w.outside.pg_message e) message payload
            w w')

pub Announced-from :
    {event_type reason : String} {message : Message} {payload : InventoryOrderPayload}
    {u v w : World Tables}
    → v.published ≡ u.published
    → v.committed ≡ u.committed
    → Announced event_type reason message payload v w
    → Announced event_type reason message payload u w
Announced-from p c a = record {
  event = a.event;
  typed = a.typed;
  body = a.body;
  published = rw (← p) a.published;
  committed = rw (← c) a.committed;
}

-- When processing an OrderCreated event returns nil, the event is acknowledged and exactly one
-- result was published: InventoryReserved if the reservation succeeded, and otherwise
-- InventoryReservationFailed with the text of the error.
pub process_order_event-Decided :
    (message : Message) (payload : InventoryOrderPayload) (w : World Tables)
    → message.event.event_type ≡ "OrderCreated"
    → unmarshal_order_payload message.event.payload ≡ ok payload
    → (process_order_event message w).0 ≡ ok tt
    → Decided message payload w (process_order_event message w).1
process_order_event-Decided message payload w created decoded h =
    let e = process_created message payload w created decoded in
    rw e (decide (reserved payload w).0 refl (rw (← e) h))
  where
    same : SameBroker w (reserved payload w).1
    same = reserve_order-SameBroker payload.order_id payload.items w

    decide :
        (r : Result (Unit {0}))
        → (reserved payload w).0 ≡ r
        → (after_reserve message payload r (reserved payload w).1).0 ≡ ok tt
        → Decided message payload w
            (after_reserve message payload (reserved payload w).0 (reserved payload w).1).1
    decide (ok _) k n = rw k (
        inl (
          refl,
          Announced-from same.published same.committed
              (after_success message payload (reserved payload w).1 n),
        ))
    decide (err x) k n = rw k (
        inr (
          x,
          refl,
          Announced-from same.published same.committed (
              subst
                (λ (o : Outside).
                  Announced "InventoryReservationFailed" (error_text o.pg_message x) message payload
                    (reserved payload w).1
                    (after_reserve message payload (err x) (reserved payload w).1).1)
                same.outside (after_failure message payload (reserved payload w).1 x n)),
        ))
