-- ===== src/World/Keeps.antt =====
-- Invariants of the state, one rule for each way to build a `Run`.
use cartnova_go_microservice.Prelude.{◌≡◌, refl, ℕ, Bool, true, false, if◌then◌else◌, arith, suc}
use cartnova_go_microservice.Go.{GoError, Result, ok, err}
use cartnova_go_microservice.World.{
  World, Fate, done, refused, unacked, settle, Run, return, fail, lift, attempt, outside_call,
  perform, query, remote, next_serial, ◌>>=◌, continue, new_uuid, next_draw, now, text_of,
}

-- `m` keeps `P`, whether it returns or fails.
pub record Keeps {S A : Type 0} (P : S → Type 0) (m : Run S A) : Type 0 where
  pub at : (w : World S) → P w.state → P (m w).1.state

module _ {S A : Type 0} {P : S → Type 0} where
  pub Keeps-return : (a : A) → Keeps P (return a)
  unfolding return
  Keeps-return a = record { at = λ w h. h }

  pub Keeps-fail : (e : GoError) → Keeps P (fail {A = A} e)
  unfolding fail
  Keeps-fail e = record { at = λ w h. h }

  pub Keeps-lift : (r : Result A) → Keeps P (lift r)
  unfolding lift
  Keeps-lift r = record { at = λ w h. h }

  pub Keeps-attempt : (m : Run S A) → Keeps P m → Keeps P (attempt m)
  unfolding attempt
  Keeps-attempt m k = record { at = λ w h. k.at w h }

  -- A call outside that keeps `P` if it is done keeps it whatever its fate.
  pub Keeps-outside_call :
      (effect : World S → Result A × World S)
      → ((w : World S) → P w.state → P (effect w).1.state)
      → Keeps P (outside_call effect)
  unfolding outside_call
  Keeps-outside_call effect k = record {
    at = λ w h. ground (arith, k (record w { calls = suc w.calls }) h);
  }

  pub Keeps-perform :
      (effect : S → Result A × S) → ((s : S) → P s → P (effect s).1) → Keeps P (perform effect)
  unfolding perform
  Keeps-perform effect k = record { at = λ w h. ground (arith, k w.state h) }

  pub Keeps-query : (look : S → Result A) → Keeps P (query look)
  unfolding query
  Keeps-query look = record { at = λ w h. ground arith }

  pub Keeps-remote : (reply : ℕ → Result A) → Keeps P (remote reply)
  unfolding remote
  Keeps-remote reply = record { at = λ w h. ground arith }

  pub Keeps-if : (b : Bool) (m n : Run S A) → Keeps P m → Keeps P n → Keeps P (if b then m else n)
  Keeps-if true m n km kn = km
  Keeps-if false m n km kn = kn

  -- The test itself may be used.
  pub Keeps-test :
      (b : Bool) (m n : Run S A)
      → (b ≡ true → Keeps P m)
      → (b ≡ false → Keeps P n)
      → Keeps P (if b then m else n)
  Keeps-test true m n km kn = km refl
  Keeps-test false m n km kn = kn refl

module _ {S A B : Type 0} {P : S → Type 0} where
  Keeps-continue :
      (r : Result A) (f : A → Run S B) → ((a : A) → Keeps P (f a)) → Keeps P (λ w. continue r f w)
  Keeps-continue (ok a) f k = record { at = λ w h. (k a).at w h }
  Keeps-continue (err e) f k = record { at = λ w h. h }

  pub Keeps-bind :
      (m : Run S A) (f : A → Run S B) → Keeps P m → ((a : A) → Keeps P (f a)) → Keeps P (m >>= f)
  unfolding ◌>>=◌
  Keeps-bind m f km kf = record {
    at = λ w h. let (r, w') = m w in (Keeps-continue r f kf).at w' (km.at w h);
  }

  remote_answers :
      (fate : Fate) (r : Result A) (f : A → Run S B) (v : World S)
      → ((a : A) → r ≡ ok a → Keeps P (f a))
      → P v.state
      → P (continue (settle fate r v v).0 f (settle fate r v v).1).1.state
  remote_answers done (ok a) f v k h = (k a refl).at v h
  remote_answers done (err e) f v k h = h
  remote_answers (refused text) r f v k h = h
  remote_answers (unacked text) r f v k h = h

  -- What follows an answer of another service may use that it is one.
  pub Keeps-remote_bind :
      (reply : ℕ → Result A) (f : A → Run S B)
      → ((n : ℕ) (a : A) → reply n ≡ ok a → Keeps P (f a))
      → Keeps P (remote reply >>= f)
  unfolding remote ◌>>=◌ outside_call
  Keeps-remote_bind reply f k = record {
    at = λ w h.
        remote_answers (w.outside.fate w.calls) (reply (suc w.calls)) f
          (record w { calls = suc w.calls }) (k (suc w.calls)) h;
  }

module _ {S : Type 0} {P : S → Type 0} where
  pub Keeps-new_uuid : Keeps P new_uuid
  unfolding new_uuid
  Keeps-new_uuid = record { at = λ w h. h }

  pub Keeps-next_serial : Keeps P next_serial
  unfolding next_serial
  Keeps-next_serial = record { at = λ w h. h }

  pub Keeps-next_draw : Keeps P next_draw
  unfolding next_draw
  Keeps-next_draw = record { at = λ w h. h }

  pub Keeps-now : Keeps P now
  unfolding now
  Keeps-now = record { at = λ w h. h }

  pub Keeps-text_of : (e : GoError) → Keeps P (text_of e)
  unfolding text_of
  Keeps-text_of e = record { at = λ w h. h }

pub ruleset keep_rules = (
  Keeps-return, Keeps-fail, Keeps-lift, Keeps-attempt, Keeps-query, Keeps-remote, Keeps-if,
  Keeps-bind, Keeps-new_uuid, Keeps-next_serial, Keeps-next_draw, Keeps-now, Keeps-text_of,
)
