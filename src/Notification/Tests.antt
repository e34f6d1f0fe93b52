-- ===== src/Notification/Tests.antt =====
-- The theorems of the notification service at concrete events.
use cartnova_go_microservice.Prelude.{pos, ◌≡◌, refl, ◌==◌, false, some, [], ◌∷◌, ◌++◌, format_int}
use cartnova_go_microservice.Go.{foreign, ok, err}
use cartnova_go_microservice.Json.{Json, int_field, string_field, num, obj, end, member}
use cartnova_go_microservice.World.{
  ◌>>=◌, perform, outside_call, new_uuid, now, attempt, lift, return,
}
use cartnova_go_microservice.Notification.Repository.{
  mark_processed, create, insert_one, has_notification,
}
use cartnova_go_microservice.World.Samples.{calm, broken, start}
use cartnova_go_microservice.World.Returns.{Returns}
use cartnova_go_microservice.Events.{Message, commit}
use cartnova_go_microservice.Order.Model.{InventoryResultPayload, marshal_result_payload}
use cartnova_go_microservice.Notification.Hub.{Hub}
use cartnova_go_microservice.Notification.HubLaws.{holds, IsHub}
use cartnova_go_microservice.Notification.Model.{OrderEventPayload, Store, unmarshal_order_event}
use cartnova_go_microservice.Notification.Service.{
  after_mark, process_event, notify, broadcast, snapshot, send_all, write_message, after_write,
  notification_message, process_message, consume_order_events,
}
use cartnova_go_microservice.Notification.Ids.{swapped_ids}
use cartnova_go_microservice.Notification.Steps.{consume_order_events-IsHub}
use cartnova_go_microservice.Notification.Delivery.{Notified, recorded, process_message-Notified}
use cartnova_go_microservice.Notification.Redelivery.{redelivery_ignored, notification_lost}

abbrev result : InventoryResultPayload
result = record { order_id = pos 7; user_id = pos 3; reason = "" }

swapped_ids_example :
    unmarshal_order_event (marshal_result_payload result)
    ≡ ok (record { order_id = pos 3; user_id = pos 0; reason = "" })
swapped_ids_example = swapped_ids result refl

abbrev full_hub : Hub
full_hub = record { clients = λ u. some (11 ∷ []) }

full_hub-IsHub : IsHub full_hub
unfolding holds
full_hub-IsHub = λ u. (refl, tt)

abbrev store : Store
store = record {
  notifications = [];
  processed_events = λ id. false;
  hub = full_hub;
  sent = [];
  closed = [];
}

abbrev seen : Store
seen = record store { processed_events = λ id. "e1" == id }

abbrev document : Json
document = obj (member "order_id" (num (pos 7)) (member "user_id" (num (pos 3)) end))

abbrev payload : OrderEventPayload
payload = record { order_id = pos 7; user_id = pos 3; reason = "" }

abbrev message : Message
message = record {
  event = record { id = "e1"; event_type = "OrderCreated"; occurred_at = 1; payload = document };
  message = record {
    offset = 4;
    value =
        some
          (record { id = "e1"; event_type = "OrderCreated"; occurred_at = 1; payload = document });
  };
}

decoded : unmarshal_order_event document ≡ ok payload
unfolding unmarshal_order_event
decoded = refl

told : (notification_message "OrderCreated" (pos 7) "" == "") ≡ false
unfolding notification_message format_int
told = refl

consume_order_events-IsHub_example :
    IsHub
      (consume_order_events
        (ok message.message ∷ ok message.message ∷ [])
        (start (broken 2) store)).1.state.hub
consume_order_events-IsHub_example =
    consume_order_events-IsHub (ok message.message ∷ ok message.message ∷ [])
      (start (broken 2) store) full_hub-IsHub

redelivery_ignored_example :
    ((process_message message (start calm seen)).1.state.notifications ≡ [])
    × ((process_message message (start calm seen)).1.state.sent ≡ [])
    × ((process_message message (start calm seen)).1.state.hub ≡ full_hub)
redelivery_ignored_example = redelivery_ignored message (start calm seen) refl

delivers :
    Returns
      (process_message message)
      (start calm store)
      tt
      (process_message message (start calm store)).1
unfolding process_message ◌>>=◌ mark_processed perform outside_call after_mark process_event
    unmarshal_order_event notify notification_message format_int create new_uuid now insert_one
    broadcast snapshot send_all write_message after_write attempt lift return commit int_field
    string_field has_notification
delivers = refl

process_message-Notified_example :
    Notified payload "OrderCreated"
      (notification_message "OrderCreated" (pos 7) "")
      (recorded "e1" store)
      (process_message message (start calm store)).1.state
process_message-Notified_example =
    process_message-Notified message payload (start calm store)
      (process_message message (start calm store)).1 refl decoded told delivers

notification_lost_example :
    let (first, v) = process_message message (start (broken 1) store) in
    let (second, u) = process_message message v in
    (first ≡ err (foreign "down"))
    × (second ≡ ok tt)
    × (u.state.notifications ≡ [])
    × (u.committed ≡ [] ++ 4 ∷ [])
notification_lost_example =
    notification_lost message (start (broken 1) store) payload "down" refl decoded told refl refl
      refl refl
