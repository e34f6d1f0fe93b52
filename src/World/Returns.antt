-- ===== src/World/Returns.antt =====
-- Inversion of code that returned without an error, and code that the broker does not see.
use cartnova_go_microservice.Prelude.{
  ℕ, ◌≡◌, refl, ap, subst, Bool, true, false, if◌then◌else◌, arith,
}
use cartnova_go_microservice.Go.{GoError, Result, ok, err}
use cartnova_go_microservice.World.{
  World, Run, return, fail, lift, attempt, perform, query, remote, ◌>>=◌, continue, next_serial,
  now,
}
use cartnova_go_microservice.World.Keeps.{Keeps}
use cartnova_go_microservice.World.Transaction.{SameBroker, transaction, commit_transaction}

-- `m` returned `a` and left the world `v`.
abbrev pub Returns : {S A : Type 0} → Run S A → World S → A → World S → Type 0
Returns m w a v = m w ≡ (ok a, v)

module _ {S A B : Type 0} where
  continue-Returns :
      (r : Result A) (f : A → Run S B) (v : World S) {b : B} {w' : World S}
      → continue r f v ≡ (ok b, w')
      → (a : A) × (r ≡ ok a) × (f a v ≡ (ok b, w'))
  continue-Returns (ok a) f v e = (a, refl, e)
  continue-Returns (err x) f v e = absurd (cc)

  pub bind-Returns :
      (m : Run S A) (f : A → Run S B) (w : World S) {b : B} {w' : World S}
      → Returns (m >>= f) w b w'
      → (a : A) × (v : World S) × Returns m w a v × Returns (f a) v b w'
  unfolding ◌>>=◌
  bind-Returns m f w e =
      let (a, k, l) = continue-Returns (m w).0 f (m w).1 e in (a, (m w).1, ground arith, l)

module _ {S A : Type 0} where
  pub return-Returns : (a : A) (w v : World S) {b : A} → Returns (return a) w b v → a ≡ b
  unfolding return
  return-Returns a w v e = ground arith

  pub return_world : (a : A) (w v : World S) {b : A} → Returns (return a) w b v → w ≡ v
  unfolding return
  return_world a w v e = ap (λ q. q.1) e

  -- A statement of a transaction.
  pub query-Returns :
      (r : Result A) (w v : World S) {a : A} → Returns (query λ _. r) w a v → r ≡ ok a
  unfolding query
  query-Returns r w v e = ground arith

  pub query_reads :
      (look : S → Result A) (w v : World S) {a : A}
      → Returns (query look) w a v
      → (look w.state ≡ ok a) × (v.state ≡ w.state) × (v.published ≡ w.published)
  unfolding query
  query_reads look w v e = ground arith

  pub perform-Returns :
      (effect : S → Result A × S) (w v : World S) {a : A}
      → Returns (perform effect) w a v
      → ((effect w.state).0 ≡ ok a) × (v.state ≡ (effect w.state).1)
  unfolding perform
  perform-Returns effect w v e = ground arith

  -- An attempt that found a value: the code returned it.
  pub attempt_ok :
      (m : Run S A) (w v : World S) (a : A) → Returns (attempt m) w (ok a) v → Returns m w a v
  unfolding attempt
  attempt_ok m w v a e = ground arith

-- What the code does, the broker does not see.
pub record Silent {S A : Type 0} (m : Run S A) : Type 0 where
  pub at : (w : World S) → SameBroker w (m w).1

SameBroker-trans : {S : Type 0} {u v w : World S} → SameBroker u v → SameBroker v w → SameBroker u w
SameBroker-trans h k = ground arith

module _ {S A : Type 0} where
  pub Silent-return : (a : A) → Silent {S = S} (return a)
  unfolding return
  Silent-return a = record { at = λ w. ground arith }

  pub Silent-fail : (e : GoError) → Silent {S = S} {A = A} (fail e)
  unfolding fail
  Silent-fail e = record { at = λ w. ground arith }

  pub Silent-lift : (r : Result A) → Silent {S = S} (lift r)
  unfolding lift
  Silent-lift r = record { at = λ w. ground arith }

  pub Silent-attempt : (m : Run S A) → Silent m → Silent (attempt m)
  unfolding attempt
  Silent-attempt m k = record { at = λ w. k.at w }

  pub Silent-perform : (effect : S → Result A × S) → Silent (perform effect)
  unfolding perform
  Silent-perform effect = record { at = λ w. ground arith }

  pub Silent-query : (look : S → Result A) → Silent (query look)
  unfolding query
  Silent-query look = record { at = λ w. ground arith }

  pub Silent-remote : (reply : ℕ → Result A) → Silent {S = S} (remote reply)
  unfolding remote
  Silent-remote reply = record { at = λ w. ground arith }

  pub Silent-if : (b : Bool) (m n : Run S A) → Silent m → Silent n → Silent (if b then m else n)
  Silent-if true m n km kn = km
  Silent-if false m n km kn = kn

module _ {S : Type 0} where
  pub Silent-next_serial : Silent {S = S} next_serial
  unfolding next_serial
  Silent-next_serial = record { at = λ w. ground arith }

  pub Silent-now : Silent {S = S} now
  unfolding now
  Silent-now = record { at = λ w. ground arith }

module _ {S A B : Type 0} where
  Silent-continue :
      (u v : World S) (r : Result A) (f : A → Run S B)
      → SameBroker u v
      → ((a : A) → Silent (f a))
      → SameBroker u (continue r f v).1
  Silent-continue u v (ok a) f h k = SameBroker-trans h ((k a).at v)
  Silent-continue u v (err e) f h k = h

  pub Silent-bind :
      (m : Run S A) (f : A → Run S B) → Silent m → ((a : A) → Silent (f a)) → Silent (m >>= f)
  unfolding ◌>>=◌
  Silent-bind m f km kf = record { at = λ w. Silent-continue w (m w).1 (m w).0 f (km.at w) kf }

pub ruleset silent_rules = (
  Silent-return, Silent-fail, Silent-lift, Silent-attempt, Silent-perform, Silent-query,
  Silent-remote, Silent-if, Silent-next_serial, Silent-now, Silent-bind,
)

pub Silent-transaction :
    {S A : Type 0} (body : S → Run S (A × S))
    → ((tx : S) → Silent (body tx))
    → Silent (transaction body)
unfolding transaction commit_transaction
Silent-transaction body k =
    Silent-bind (query ok) (λ tx. body tx >>= commit_transaction) (Silent-query ok)
      λ tx.
        Silent-bind (body tx) commit_transaction (k tx)
          (λ done. Silent-perform (λ _. (ok done.0, done.1)))

module _ {S A : Type 0} where
  pub Keeps-Returns :
      {P : S → Type 0} (m : Run S A) (w v : World S) {a : A}
      → Keeps P m
      → Returns m w a v
      → P w.state
      → P v.state
  Keeps-Returns {P} m w v k e h = subst (λ (q : Result A × World S). P q.1.state) e (k.at w h)

  pub Silent-Returns :
      (m : Run S A) (w v : World S) {a : A} → Silent m → Returns m w a v → SameBroker w v
  Silent-Returns m w v k e = subst (λ (q : Result A × World S). SameBroker w q.1) e (k.at w)
