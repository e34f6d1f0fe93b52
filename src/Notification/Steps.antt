-- ===== src/Notification/Steps.antt =====
-- What every statement of the consumer keeps, the consumer keeps.
use cartnova_go_microservice.Prelude.{ℕ, ℤ, String, Bool, true, false, List, [], ◌∷◌, arith}
use cartnova_go_microservice.Go.{Result, ok, err}
use cartnova_go_microservice.World.{World, perform, attempt}
use cartnova_go_microservice.World.Keeps.{
  Keeps, Keeps-perform, Keeps-bind, Keeps-attempt, keep_rules,
}
use cartnova_go_microservice.Events.{KafkaMessage, Message, fetch}
use cartnova_go_microservice.Events.Keeps.{event_rules, Keeps-fetch}
use cartnova_go_microservice.Notification.HubLaws.{IsHub, IsHub-remove}
use cartnova_go_microservice.Notification.Model.{Notification, OrderEventPayload, Store}
use cartnova_go_microservice.Notification.Repository.{mark_processed, insert_one, create}
use cartnova_go_microservice.Notification.Service.{
  write_message, modify, dropped, after_write, send_all, snapshot, broadcast, notify, process_event,
  after_mark, process_message, consume_order_events,
}

Keeps-modify :
    {P : Store → Type 0} (change : Store → Store)
    → ((s : Store) → P s → P (change s))
    → Keeps P (modify change)
unfolding modify
Keeps-modify change k = record { at = λ w h. k w.state h }

Keeps-snapshot : {P : Store → Type 0} (user_id : ℤ) → Keeps P (snapshot user_id)
unfolding snapshot
Keeps-snapshot user_id = record { at = λ w h. h }

-- The statements of `Broadcast`, for a predicate of the store.
pub record Writes (P : Store → Type 0) : Type 0 where
  pub written : (c : ℕ) (n : Notification) → Keeps P (write_message c n)
  pub drops : (user_id : ℤ) (c : ℕ) (s : Store) → P s → P (dropped user_id c s)

-- The statements of the consumer.
record Steps (P : Store → Type 0) : Type 0 where
  pub marked : (event_id : String) → Keeps P (mark_processed event_id)
  pub inserted : (n : Notification) → Keeps P (perform (insert_one n))
  pub writes : Writes P

module _ {P : Store → Type 0} (steps : Writes P) where
  Keeps-after_write :
      (user_id : ℤ) (c : ℕ) (r : Result (Unit {0})) → Keeps P (after_write user_id c r)
  unfolding after_write
  Keeps-after_write user_id c (ok x) = search keep_rules
  Keeps-after_write user_id c (err e) = Keeps-modify (dropped user_id c) (steps.drops user_id c)

  Keeps-send_all :
      (user_id : ℤ) (n : Notification) (clients : List ℕ) → Keeps P (send_all user_id n clients)
  unfolding send_all
  Keeps-send_all user_id n [] = search keep_rules
  Keeps-send_all user_id n (c ∷ rest) =
      Keeps-bind (attempt (write_message c n)) _
        (Keeps-attempt (write_message c n) (steps.written c n))
        λ written.
          Keeps-bind (after_write user_id c written) _ (Keeps-after_write user_id c written)
            λ _. Keeps-send_all user_id n rest

  pub Keeps-broadcast : (user_id : ℤ) (n : Notification) → Keeps P (broadcast user_id n)
  unfolding broadcast
  Keeps-broadcast user_id n = search (keep_rules, Keeps-snapshot, Keeps-send_all)

module _ {P : Store → Type 0} (steps : Steps P) where
  Keeps-create :
      (user_id order_id : ℤ) (event_type message : String)
      → Keeps P (create user_id order_id event_type message)
  unfolding create
  Keeps-create user_id order_id event_type message = search (keep_rules, steps.inserted)

  Keeps-notify :
      (p : OrderEventPayload) (event_type message : String) → Keeps P (notify p event_type message)
  unfolding notify
  Keeps-notify p event_type message =
      search (keep_rules, Keeps-create, Keeps-broadcast steps.writes)

  Keeps-after_mark : (m : Message) (b : Bool) → Keeps P (after_mark m b)
  unfolding after_mark process_event
  Keeps-after_mark m true = search (keep_rules, event_rules, Keeps-notify)
  Keeps-after_mark m false = search (keep_rules, event_rules)

  Keeps-process_message : (m : Message) → Keeps P (process_message m)
  unfolding process_message
  Keeps-process_message m = search (keep_rules, steps.marked, Keeps-after_mark)

  Keeps-consume : (fetched : List (Result KafkaMessage)) → Keeps P (consume_order_events fetched)
  unfolding consume_order_events
  Keeps-consume [] = search keep_rules
  Keeps-consume (f ∷ rest) = Keeps-bind (fetch f) _ (Keeps-fetch f) λ message.
      Keeps-bind (process_message message) _ (Keeps-process_message message) λ _. Keeps-consume rest

IsHub-steps : Steps (λ s. IsHub s.hub)
unfolding mark_processed insert_one write_message dropped
IsHub-steps = record {
  marked = λ event_id. Keeps-perform _ (λ s h. h);
  inserted = λ n. Keeps-perform (insert_one n) (λ s h. ground (arith, h));
  writes = record {
    written = λ c n. Keeps-perform _ (λ s h. h);
    drops = λ user_id c s h. IsHub-remove s.hub user_id c h;
  };
}

-- However the calls outside end, the consumer leaves no user with an empty set of connections in the
-- hub, and no connection twice.
pub consume_order_events-IsHub :
    (fetched : List (Result KafkaMessage)) (w : World Store)
    → IsHub w.state.hub
    → IsHub (consume_order_events fetched w).1.state.hub
consume_order_events-IsHub fetched w h = (Keeps-consume IsHub-steps fetched).at w h
