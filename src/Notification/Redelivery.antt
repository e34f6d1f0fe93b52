-- ===== src/Notification/Redelivery.antt =====
-- What the consumer of order events does with a message that it has recorded.
use cartnova_go_microservice.Prelude.{
  suc, String, ◌≡◌, refl, ap, true, false, ◌||◌, [], ◌∷◌, ◌++◌, ◌==◌, eq_refl, arith,
}
use cartnova_go_microservice.Go.{ok, err, foreign}
use cartnova_go_microservice.World.{
  World, outside_call, lift, new_uuid, now, done, refused, perform, ◌>>=◌,
}
use cartnova_go_microservice.Events.{Message, commit}
use cartnova_go_microservice.Notification.Model.{OrderEventPayload, Store, unmarshal_order_event}
use cartnova_go_microservice.Notification.Repository.{mark_processed, create}
use cartnova_go_microservice.Notification.Service.{
  notification_message, notify, process_event, after_mark, process_message,
}
use cartnova_go_microservice.Notification.Delivery.{recorded}

-- The world when the insert of a notification was refused.
abbrev half_done : Message → World Store → World Store
half_done message w = record w {
  calls = suc (suc w.calls);
  drawn = suc w.drawn;
  readings = suc w.readings;
  state = recorded message.event.id w.state;
}

create_refused :
    (payload : OrderEventPayload) (event_type message : String) (w : World Store) (text : String)
    → (message == "") ≡ false
    → w.outside.fate w.calls ≡ refused text
    → notify payload event_type message w ≡ (
      err (foreign text),
      record w { calls = suc w.calls; drawn = suc w.drawn; readings = suc w.readings },
    )
unfolding notify create ◌>>=◌ perform outside_call new_uuid now
create_refused payload event_type message w text h g = rw (h, g) refl

module _ (message : Message) (w : World Store) where
  insert_refused :
      (payload : OrderEventPayload) (text : String)
      → w.state.processed_events message.event.id ≡ false
      → unmarshal_order_event message.event.payload ≡ ok payload
      → (notification_message message.event.event_type payload.order_id payload.reason == "")
        ≡ false
      → w.outside.fate w.calls ≡ done
      → w.outside.fate (suc w.calls) ≡ refused text
      → process_message message w ≡ (err (foreign text), half_done message w)
  unfolding process_message mark_processed after_mark process_event ◌>>=◌ perform outside_call lift
  insert_refused payload text fresh d h f g =
      rw (f, fresh, d)
        (rw
          (create_refused payload message.event.event_type _
            (record w { calls = suc w.calls; state = recorded message.event.id w.state }) text h g)
          refl)

  commit_again :
      w.state.processed_events message.event.id ≡ true
      → w.outside.fate w.calls ≡ done
      → w.outside.fate (suc w.calls) ≡ done
      → process_message message w ≡ (
        ok tt,
        record w {
          calls = suc (suc w.calls);
          committed = w.committed ++ message.message.offset ∷ [];
          state = recorded message.event.id w.state;
        },
      )
  unfolding process_message mark_processed after_mark commit ◌>>=◌ perform outside_call
  commit_again h f g = rw (f, h, g) refl

-- The message of an event that was recorded before.
module _ (message : Message) (w : World Store) where
  -- A redelivered event makes no second notification and writes to no connection, however the calls
  -- outside end.
  pub redelivery_ignored :
      w.state.processed_events message.event.id ≡ true
      → ((process_message message w).1.state.notifications ≡ w.state.notifications)
        × ((process_message message w).1.state.sent ≡ w.state.sent)
        × ((process_message message w).1.state.hub ≡ w.state.hub)
  unfolding process_message mark_processed after_mark commit ◌>>=◌ perform outside_call
  redelivery_ignored h = ground arith

  -- The event is recorded before its notification is stored: if the insert fails then, the consumer
  -- ends with the error, and when the event comes again it is acknowledged without a notification.
  pub notification_lost :
      (payload : OrderEventPayload) (text : String)
      → w.state.processed_events message.event.id ≡ false
      → unmarshal_order_event message.event.payload ≡ ok payload
      → (notification_message message.event.event_type payload.order_id payload.reason == "")
        ≡ false
      → w.outside.fate w.calls ≡ done
      → w.outside.fate (suc w.calls) ≡ refused text
      → w.outside.fate (suc (suc w.calls)) ≡ done
      → w.outside.fate (suc (suc (suc w.calls))) ≡ done
      → let (first, v) = process_message message w in
        let (second, u) = process_message message v in
        (first ≡ err (foreign text))
        × (second ≡ ok tt)
        × (u.state.notifications ≡ w.state.notifications)
        × (u.committed ≡ w.committed ++ message.message.offset ∷ [])
  notification_lost payload text fresh d h f g k l =
      rw
        (
          insert_refused message w payload text fresh d h f g,
          commit_again message (half_done message w)
              (ap (λ b. b || w.state.processed_events message.event.id) (eq_refl message.event.id))
              k l,
        )
        (refl, refl, refl, refl)
