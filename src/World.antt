-- ===== src/World.antt =====
-- What a service acts on. `Outside` is what the services do not implement: whether each call of a
-- database, a broker or another service goes through, the ids that uuid and the sequences of
-- PostgreSQL draw, the clock, and the wording of PostgreSQL. It is a parameter of every theorem.
-- `World` holds it with the state that the service keeps in its stores, the events that it published
-- and the offsets that it committed.
pub mod Keeps
pub mod Transaction
pub mod Returns
pub mod Computes
pub mod Clear
pub mod Samples
use cartnova_go_microservice.Prelude.{ℕ, suc, ℤ, String, List}
use cartnova_go_microservice.Go.{GoError, foreign, error_text, Result, ok, err}
use cartnova_go_microservice.Json.{Json}

-- type Event struct
pub record Event : Type 0 where
  pub id : String
  pub event_type : String
  pub occurred_at : ℕ
  pub payload : Json

-- One call of something outside: it is done; it fails and did nothing; or it did its work and the
-- caller gets an error all the same, as when the connection breaks before the reply.
pub data Fate : Type 0 where
  done : Fate
  refused : String → Fate
  unacked : String → Fate

pub record Outside : Type 0 where
  pub fate : ℕ → Fate
  pub uuid : ℕ → String
  pub serial : ℕ → ℤ
  pub clock : ℕ → ℕ
  pub pg_message : String → String

pub record World (S : Type 0) : Type 0 where
  pub outside : Outside
  pub calls : ℕ
  pub drawn : ℕ
  pub readings : ℕ
  pub published : List (String × Event)
  pub committed : List ℕ
  pub state : S

-- Code that may fail. What was done before an error stays done.
abbrev pub Run : Type 0 → Type 0 → Type 0
Run S A = World S → Result A × World S

module _ {S A : Type 0} where
  unfoldable pub return : A → Run S A
  return a w = (ok a, w)

  unfoldable pub fail : GoError → Run S A
  fail e w = (err e, w)

  unfoldable pub lift : Result A → Run S A
  lift r w = (r, w)

  -- An error that the caller looks at.
  unfoldable pub attempt : Run S A → Run S (Result A)
  attempt m w = let (r, w') = m w in (ok r, w')

  abbrev pub settle : Fate → Result A → World S → World S → Result A × World S
  settle done r before after = (r, after)
  settle (refused text) r before after = (err (foreign text), before)
  settle (unacked text) r before after = (err (foreign text), after)

  -- The next call of something outside. `effect` is what it does to the world if it does it.
  unfoldable pub outside_call : (World S → Result A × World S) → Run S A
  outside_call effect w =
      let (r, after) = effect (record w { calls = suc w.calls }) in
      settle (w.outside.fate w.calls) r (record w { calls = suc w.calls }) after

module _ {S A : Type 0} where
  -- A call of the service's store.
  unfoldable pub perform : (S → Result A × S) → Run S A
  unfolding outside_call
  perform effect = outside_call λ w. let (r, s) = effect w.state in (r, record w { state = s })

  -- A call that reads only.
  unfoldable pub query : (S → Result A) → Run S A
  unfolding perform
  query look = perform λ s. (look s, s)

  -- A call of another service, which answers as it does at that time.
  unfoldable pub remote : (ℕ → Result A) → Run S A
  unfolding outside_call
  remote reply = outside_call λ w. (reply w.calls, w)

module _ {S A B : Type 0} where
  abbrev continue : Result A → (A → Run S B) → Run S B
  continue (ok a) f w = f a w
  continue (err e) f w = (err e, w)

  infixl 5 ◌>>=◌ ◌>>◌
  unfoldable pub ◌>>=◌ : Run S A → (A → Run S B) → Run S B
  unfolding return fail lift
  ◌>>=◌ m f w = let (r, w') = m w in continue r f w'

  abbrev pub ◌>>◌ : Run S A → Run S B → Run S B
  m >> n = m >>= λ _. n

module _ {S : Type 0} where
  -- uuid.NewString()
  unfoldable pub new_uuid : Run S String
  new_uuid w = (ok (w.outside.uuid w.drawn), record w { drawn = suc w.drawn })

  -- nextval of a sequence. What was drawn stays drawn when a transaction is rolled back.
  unfoldable pub next_serial : Run S ℤ
  next_serial w = (ok (w.outside.serial w.drawn), record w { drawn = suc w.drawn })

  -- The number of a random draw: what is drawn is a function of it.
  unfoldable pub next_draw : Run S ℕ
  next_draw w = (ok w.drawn, record w { drawn = suc w.drawn })

  -- time.Now(), and NOW() of a database
  unfoldable pub now : Run S ℕ
  now w = (ok (w.outside.clock w.readings), record w { readings = suc w.readings })

  -- `err.Error()`
  unfoldable pub text_of : GoError → Run S String
  unfolding error_text
  text_of e w = (ok (error_text w.outside.pg_message e), w)
