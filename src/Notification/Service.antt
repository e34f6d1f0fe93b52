-- ===== src/Notification/Service.antt =====
-- internal/notification/service.go, and `Hub.Broadcast`. A `Notification` is always marshalled; a
-- write to a connection is a call of something outside.
use cartnova_go_microservice.Prelude.{
  ℕ, ℤ, String, Bool, true, false, not, List, [], ◌∷◌, ◌++◌, ◌==◌, ◌<>◌, format_int, if◌then◌else◌,
}
use cartnova_go_microservice.Go.{Result, ok, err}
use cartnova_go_microservice.World.{Event, Run, return, lift, attempt, perform, ◌>>=◌, ◌>>◌}
use cartnova_go_microservice.Events.{KafkaMessage, Message, fetch, commit}
use cartnova_go_microservice.Notification.Hub.{connections, remove}
use cartnova_go_microservice.Notification.Model.{
  Notification, OrderEventPayload, Store, unmarshal_order_event,
}
use cartnova_go_microservice.Notification.Repository.{mark_processed, create}

-- `connection.WriteMessage(websocket.TextMessage, data)`
unfoldable pub write_message : ℕ → Notification → Run Store Unit
write_message connection n =
    perform λ s. (ok tt, record s { sent = s.sent ++ (connection, n) ∷ [] })

-- Work on the memory of the process, which cannot fail.
unfoldable pub modify : (Store → Store) → Run Store Unit
modify change w = (ok tt, record w { state = change w.state })

-- What the loop does when a write failed: `h.Remove` and `connection.Close`.
unfoldable pub dropped : ℤ → ℕ → Store → Store
dropped user_id connection s = record s {
  hub = remove user_id connection s.hub;
  closed = s.closed ++ connection ∷ [];
}

unfoldable pub after_write : ℤ → ℕ → Result (Unit {0}) → Run Store Unit
after_write user_id connection (ok _) = return tt
after_write user_id connection (err e) = modify (dropped user_id connection)

unfoldable pub send_all : ℤ → Notification → List ℕ → Run Store Unit
send_all user_id n [] = return tt
send_all user_id n (connection ∷ rest) = do
  written ← attempt (write_message connection n)
  after_write user_id connection written
  send_all user_id n rest

-- The hub is read at once, with its lock held.
unfoldable pub snapshot : ℤ → Run Store (List ℕ)
snapshot user_id w = (ok (connections user_id w.state.hub), w)

unfoldable pub broadcast : ℤ → Notification → Run Store Unit
broadcast user_id n = do clients ← snapshot user_id; send_all user_id n clients

unfoldable pub notification_message : String → ℤ → String → String
notification_message event_type order_id reason =
    let subject : String = "Order #" <> format_int order_id in
    if event_type == "OrderCreated"
    then subject <> " has been created."
    else if event_type == "OrderConfirmed"
    then subject <> " has been confirmed."
    else if event_type == "OrderCancelled"
    then (if not (reason == "")
        then subject <> " was cancelled: " <> reason
        else subject <> " was cancelled.")
    else if event_type == "OrderProcessing"
    then subject <> " is being processed."
    else if event_type == "OrderShipped"
    then subject <> " has been shipped."
    else if event_type == "OrderDelivered"
    then subject <> " has been delivered."
    else ""

-- The part of `processEvent` behind the test for an empty message.
unfoldable pub notify : OrderEventPayload → String → String → Run Store Unit
notify payload event_type message = if message == "" then return tt else do
  created ← create payload.user_id payload.order_id event_type message
  broadcast payload.user_id created

unfoldable pub process_event : Event → Run Store Unit
process_event event = do
  payload ← lift (unmarshal_order_event event.payload)
  notify payload event.event_type
      (notification_message event.event_type payload.order_id payload.reason)

unfoldable pub after_mark : Message → Bool → Run Store Unit
after_mark message false = commit message
after_mark message true = do process_event message.event; commit message

-- One round of the loop, after `Fetch`.
unfoldable pub process_message : Message → Run Store Unit
process_message message = do
  processed ← mark_processed message.event.id
  after_mark message processed

-- The loop over what the fetches return; it ends with the first error.
unfoldable pub consume_order_events : List (Result KafkaMessage) → Run Store Unit
consume_order_events [] = return tt
consume_order_events (fetched ∷ rest) = do
  message ← fetch fetched
  process_message message
  consume_order_events rest
