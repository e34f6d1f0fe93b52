-- ===== src/Notification/Delivery.antt =====
-- What the consumer of order events does with a message that it has not recorded.
use cartnova_go_microservice.Prelude.{
  String, ◌≡◌, refl, ap, ◌∙◌, subst, Bool, true, false, not, ◌||◌, List, [], ◌∷◌, ◌++◌, ◌==◌,
  if◌then◌else◌, arith,
}
use cartnova_go_microservice.Go.{ok}
use cartnova_go_microservice.World.{
  World, outside_call, lift, new_uuid, now, perform, ◌>>=◌, return,
}
use cartnova_go_microservice.World.Keeps.{Keeps-perform}
use cartnova_go_microservice.World.Returns.{Returns, bind-Returns, Keeps-Returns}
use cartnova_go_microservice.Events.{Message, commit}
use cartnova_go_microservice.Events.Keeps.{event_rules}
use cartnova_go_microservice.Notification.Model.{
  Notification, OrderEventPayload, Store, unmarshal_order_event,
}
use cartnova_go_microservice.Notification.Repository.{mark_processed, insert_one, create}
use cartnova_go_microservice.Notification.Service.{
  write_message, dropped, broadcast, notification_message, notify, process_event, after_mark,
  process_message,
}
use cartnova_go_microservice.Notification.Steps.{Writes, Keeps-broadcast}

-- Sending leaves the two collections alone.
abbrev SameCollections : List Notification → (String → Bool) → Store → Type 0
SameCollections notifications processed s =
    (s.notifications ≡ notifications) × (s.processed_events ≡ processed)

SameCollections-writes :
    (notifications : List Notification) (processed : String → Bool)
    → Writes (SameCollections notifications processed)
unfolding write_message dropped
SameCollections-writes notifications processed = record {
  written = λ c n. Keeps-perform _ (λ s h. h);
  drops = λ user_id c s h. h;
}

-- One notification of these contents was stored.
pub record Notified (payload : OrderEventPayload) (event_type message : String) (s s' : Store)
    : Type 0 where
  pub notification : Notification
  pub user : notification.user_id ≡ payload.user_id
  pub order : notification.order_id ≡ payload.order_id
  pub typed : notification.event_type ≡ event_type
  pub text : notification.message ≡ message
  pub stored : s'.notifications ≡ s.notifications ++ notification ∷ []
  pub processed : s'.processed_events ≡ s.processed_events

create-Notified :
    (payload : OrderEventPayload) (event_type message : String) (w v : World Store)
    (n : Notification)
    → Returns (create payload.user_id payload.order_id event_type message) w n v
    → Notified payload event_type message w.state v.state
unfolding create insert_one perform outside_call new_uuid now return ◌>>=◌
create-Notified payload event_type message w v n e = record {
  notification = n;
  user = ground arith;
  order = ground arith;
  typed = ground arith;
  text = ground arith;
  stored = ground arith;
  processed = ground arith;
}

Notified-kept :
    (payload : OrderEventPayload) (event_type message : String) (s t u : Store)
    → SameCollections t.notifications t.processed_events u
    → Notified payload event_type message s t
    → Notified payload event_type message s u
Notified-kept payload event_type message s t u h k = record {
  notification = k.notification;
  user = k.user;
  order = k.order;
  typed = k.typed;
  text = k.text;
  stored = h.0 ∙ k.stored;
  processed = h.1 ∙ k.processed;
}

notify-Notified :
    (payload : OrderEventPayload) (event_type message : String) (w v : World Store)
    → (message == "") ≡ false
    → Returns (notify payload event_type message) w tt v
    → Notified payload event_type message w.state v.state
unfolding notify
notify-Notified payload event_type message w v h e =
    let made : Returns
        (create payload.user_id payload.order_id event_type message >>= λ n.
          broadcast payload.user_id n)
        w tt v =
      subst
        (λ b.
          Returns
            (if b
              then return tt
              else create payload.user_id payload.order_id event_type message >>= λ n.
                  broadcast payload.user_id n)
            w tt v)
        h e in
    let (n, u, stored, sent) =
      bind-Returns (create payload.user_id payload.order_id event_type message) _ w made in
    let same =
      Keeps-Returns {P = SameCollections u.state.notifications u.state.processed_events}
        (broadcast payload.user_id n) u v
        (Keeps-broadcast (SameCollections-writes u.state.notifications u.state.processed_events)
          payload.user_id n)
        sent (refl, refl) in
    Notified-kept payload event_type message w.state u.state v.state same
      (create-Notified payload event_type message w u n stored)

-- The state with the event recorded.
abbrev pub recorded : String → Store → Store
recorded event_id s = record s {
  processed_events = λ other. (event_id == other) || s.processed_events other;
}

mark-Returns :
    (event_id : String) (w v : World Store) (b : Bool)
    → Returns (mark_processed event_id) w b v
    → (b ≡ not (w.state.processed_events event_id)) × (v.state ≡ recorded event_id w.state)
unfolding mark_processed perform outside_call
mark-Returns event_id w v b e = ground arith

process_event-Notified :
    (message : Message) (payload : OrderEventPayload) (w v : World Store)
    → unmarshal_order_event message.event.payload ≡ ok payload
    → (notification_message message.event.event_type payload.order_id payload.reason == "") ≡ false
    → Returns (process_event message.event) w tt v
    → Notified payload message.event.event_type
        (notification_message message.event.event_type payload.order_id payload.reason)
        w.state
        v.state
unfolding process_event lift ◌>>=◌
process_event-Notified message payload w v d h e =
    notify-Notified payload message.event.event_type _ w v h (
      subst
        (λ r.
          Returns
            (lift r >>= λ p.
              notify p message.event.event_type
                (notification_message message.event.event_type p.order_id p.reason))
            w tt v)
        d e)

after_mark-Notified :
    (message : Message) (payload : OrderEventPayload) (b : Bool) (w v : World Store)
    → b ≡ true
    → unmarshal_order_event message.event.payload ≡ ok payload
    → (notification_message message.event.event_type payload.order_id payload.reason == "") ≡ false
    → Returns (after_mark message b) w tt v
    → Notified payload message.event.event_type
        (notification_message message.event.event_type payload.order_id payload.reason)
        w.state
        v.state
unfolding after_mark
after_mark-Notified message payload false w v t d h e = absurd (cc)
after_mark-Notified message payload true w v t d h e =
    let (_, u, told, acked) = bind-Returns (process_event message.event) _ w e in
    let same =
      Keeps-Returns {P = SameCollections u.state.notifications u.state.processed_events}
        (commit message) u v (search event_rules) acked (refl, refl) in
    Notified-kept payload _ _ w.state u.state v.state same
      (process_event-Notified message payload w u d h told)

-- An event that was not recorded, whose type has a text: if the consumer is done with it, the event is
-- recorded and one notification of that text was stored for the user and the order of its payload.
pub process_message-Notified :
    (message : Message) (payload : OrderEventPayload) (w w' : World Store)
    → w.state.processed_events message.event.id ≡ false
    → unmarshal_order_event message.event.payload ≡ ok payload
    → (notification_message message.event.event_type payload.order_id payload.reason == "") ≡ false
    → Returns (process_message message) w tt w'
    → Notified payload message.event.event_type
        (notification_message message.event.event_type payload.order_id payload.reason)
        (recorded message.event.id w.state)
        w'.state
unfolding process_message
process_message-Notified message payload w w' fresh d h e =
    let (b, u, marked, rest) = bind-Returns (mark_processed message.event.id) _ w e in
    let (was, now_recorded) = mark-Returns message.event.id w u b marked in
    subst
      (λ s.
        Notified payload message.event.event_type
          (notification_message message.event.event_type payload.order_id payload.reason) s
          w'.state)
      now_recorded (after_mark-Notified message payload b u w' (was ∙ ap not fresh) d h rest)
