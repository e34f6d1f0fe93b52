-- ===== src/Events/Keeps.antt =====
-- Publishing, fetching and committing leave the state of the service alone.
use cartnova_go_microservice.Prelude.{arith, String, none, some, Option}
use cartnova_go_microservice.Go.{Result, ok, err}
use cartnova_go_microservice.Json.{Json}
use cartnova_go_microservice.World.{Event}
use cartnova_go_microservice.World.Keeps.{Keeps, keep_rules}
use cartnova_go_microservice.Events.{
  KafkaMessage, Message, new_event, publish, fetch, read_value, commit,
}

module _ {S : Type 0} {P : S → Type 0} where
  pub Keeps-new_event :
      (event_type : String) (marshalled : Result Json) → Keeps P (new_event event_type marshalled)
  unfolding new_event
  Keeps-new_event event_type marshalled = search keep_rules

  pub Keeps-publish : (topic : String) (event : Event) → Keeps P (publish topic event)
  unfolding publish
  Keeps-publish topic event = record { at = λ w h. ground arith }

  pub Keeps-commit : (message : Message) → Keeps P (commit message)
  unfolding commit
  Keeps-commit message = record { at = λ w h. ground arith }

  Keeps-read_value :
      (message : KafkaMessage) (value : Option Event) → Keeps P (read_value message value)
  unfolding read_value
  Keeps-read_value message none = search keep_rules
  Keeps-read_value message (some event) = search keep_rules

  pub Keeps-fetch : (fetched : Result KafkaMessage) → Keeps P (fetch fetched)
  unfolding fetch
  Keeps-fetch (ok message) = Keeps-read_value message message.value
  Keeps-fetch (err e) = search keep_rules

pub ruleset event_rules = (keep_rules, Keeps-new_event, Keeps-publish, Keeps-commit, Keeps-fetch)
