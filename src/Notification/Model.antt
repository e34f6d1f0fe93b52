-- ===== src/Notification/Model.antt =====
-- internal/notification/model.go, the payload of order events, and the state of the service: the two
-- collections of MongoDB, the hub, and what was written to and closed of the connections.
use cartnova_go_microservice.Prelude.{ℕ, ℤ, pos, String, Bool, List}
use cartnova_go_microservice.Go.{Result, ok, ◌>>=◌}
use cartnova_go_microservice.Json.{Json, int_field, string_field, members}
use cartnova_go_microservice.Notification.Hub.{Hub}

-- type Notification struct
pub record Notification : Type 0 where
  pub id : String
  pub user_id : ℤ
  pub order_id : ℤ
  pub event_type : String
  pub message : String
  pub created_at : ℕ

-- type OrderEventPayload struct
pub record OrderEventPayload : Type 0 where
  pub order_id : ℤ
  pub user_id : ℤ
  pub reason : String

-- `json.Unmarshal(event.Payload, &payload)`
unfoldable pub unmarshal_order_event : Json → Result OrderEventPayload
unfolding int_field string_field members
unmarshal_order_event document = do
  fields ← members document
  order_id ← int_field "order_id" (pos 0) fields
  user_id ← int_field "user_id" (pos 0) fields
  reason ← string_field "reason" "" fields
  ok (record { order_id = order_id; user_id = user_id; reason = reason })

pub record Store : Type 0 where
  pub notifications : List Notification
  pub processed_events : String → Bool
  pub hub : Hub
  pub sent : List (ℕ × Notification)
  pub closed : List ℕ
