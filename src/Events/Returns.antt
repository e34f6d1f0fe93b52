-- ===== src/Events/Returns.antt =====
-- What publishing and committing have done when they returned.
use cartnova_go_microservice.Prelude.{String, ◌≡◌, [], ◌∷◌, ◌++◌, arith}
use cartnova_go_microservice.Go.{Result, ok, err}
use cartnova_go_microservice.Json.{Json}
use cartnova_go_microservice.World.{Event, World, ◌>>=◌}
use cartnova_go_microservice.World.Returns.{Returns}
use cartnova_go_microservice.Events.{new_event, publish}

-- The event has the type and the marshalled payload, and only the counters moved.
pub record IsNew {S : Type 0} (event_type : String) (marshalled : Result Json) (event : Event)
    (v w : World S) : Type 0 where
  pub typed : event.event_type ≡ event_type
  pub body : marshalled ≡ ok event.payload
  pub published : w.published ≡ v.published
  pub committed : w.committed ≡ v.committed
  pub state : w.state ≡ v.state

module _ {S : Type 0} where
  pub new_event-Returns :
      (event_type : String) (marshalled : Result Json) (v w : World S) (event : Event)
      → Returns (new_event event_type marshalled) v event w
      → IsNew event_type marshalled event v w
  unfolding new_event ◌>>=◌
  new_event-Returns event_type (ok payload) v w event e = ground arith
  new_event-Returns event_type (err x) v w event e = absurd (cc)

  pub publish-Returns :
      (topic : String) (event : Event) (v w : World S)
      → Returns (publish topic event) v tt w
      → (w.published ≡ v.published ++ (topic, event) ∷ [])
        × (w.committed ≡ v.committed)
        × (w.state ≡ v.state)
  unfolding publish
  publish-Returns topic event v w e = ground arith
