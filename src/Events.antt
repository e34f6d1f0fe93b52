-- ===== src/Events.antt =====
-- internal/events/events.go. A Kafka message is its offset and the event that its value holds, or
-- `none` where the value is no event. `Outside` decides whether a write or a commit goes through.
pub mod Keeps
pub mod Returns
use cartnova_go_microservice.Prelude.{ℕ, String, Option, none, some, [], ◌∷◌, ◌++◌}
use cartnova_go_microservice.Go.{foreign, Result, ok, err}
use cartnova_go_microservice.Json.{Json}
use cartnova_go_microservice.World.{
  Event, Run, return, fail, lift, outside_call, ◌>>=◌, new_uuid, now,
}

-- `marshalled` is `json.Marshal(payload)`.
unfoldable pub new_event : {S : Type 0} → String → Result Json → Run S Event
unfolding new_uuid now
new_event event_type marshalled = do
  payload ← lift marshalled
  id ← new_uuid
  time ← now
  return (record { id = id; event_type = event_type; occurred_at = time; payload = payload })

-- A marshalled `Event` is always a document, so only the write can fail.
unfoldable pub publish : {S : Type 0} → String → Event → Run S Unit
unfolding outside_call
publish topic event =
    outside_call λ w. (ok tt, record w { published = w.published ++ (topic, event) ∷ [] })

-- kafka.Message
pub record KafkaMessage : Type 0 where
  pub offset : ℕ
  pub value : Option Event

-- type Message struct
pub record Message : Type 0 where
  pub event : Event
  pub message : KafkaMessage

read_value : {S : Type 0} → KafkaMessage → Option Event → Run S Message
read_value message none = fail (foreign "json: cannot unmarshal event")
read_value message (some event) = return (record { event = event; message = message })

-- `fetched` is what `reader.FetchMessage` returned.
unfoldable pub fetch : {S : Type 0} → Result KafkaMessage → Run S Message
unfolding read_value fail return
fetch (err e) = fail e
fetch (ok message) = read_value message message.value

unfoldable pub commit : {S : Type 0} → Message → Run S Unit
unfolding outside_call
commit message =
    outside_call λ w. (ok tt, record w { committed = w.committed ++ message.message.offset ∷ [] })
