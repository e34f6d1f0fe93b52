-- ===== src/World/Clear.antt =====
-- What code does when every call goes through: a condition on the state before, and one after it for
-- each value that it returns and one for its errors.
use cartnova_go_microservice.Prelude.{◌≡◌, refl, ◌∙◌, Bool, true, false, if◌then◌else◌, arith}
use cartnova_go_microservice.Go.{GoError, Result, ok, err}
use cartnova_go_microservice.World.{
  World, Run, return, fail, attempt, perform, next_serial, now, ◌>>=◌, continue,
}
use cartnova_go_microservice.World.Computes.{IsClear}

abbrev pub After : {S A : Type 0} → (A → S → Type 0) → (S → Type 0) → Result A → S → Type 0
After Q R (ok a) s = Q a s
After Q R (err e) s = R s

pub record Clear {S A : Type 0} (P : S → Type 0) (m : Run S A) (Q : A → S → Type 0) (R : S → Type 0)
    : Type 0 where
  pub at : (w : World S) → IsClear w → P w.state → After Q R (m w).0 (m w).1.state
  pub outside : (w : World S) → (m w).1.outside ≡ w.outside

module _ {S A : Type 0} {P R : S → Type 0} {Q : A → S → Type 0} where
  pub Clear-return : (a : A) → ((s : S) → P s → Q a s) → Clear P (return a) Q R
  unfolding return
  Clear-return a k = record { at = λ w c h. k w.state h; outside = λ w. refl }

  pub Clear-fail : (e : GoError) → ((s : S) → P s → R s) → Clear P (fail {A = A} e) Q R
  unfolding fail
  Clear-fail e k = record { at = λ w c h. k w.state h; outside = λ w. refl }

  pub Clear-perform :
      (effect : S → Result A × S)
      → ((s : S) → P s → After Q R (effect s).0 (effect s).1)
      → Clear P (perform effect) Q R
  unfolding perform
  Clear-perform effect k = record {
    at = λ w c h. ground (arith, c w.calls, k w.state h);
    outside = λ w. ground arith;
  }

  pub Clear-if :
      (b : Bool) (m n : Run S A) → Clear P m Q R → Clear P n Q R → Clear P (if b then m else n) Q R
  Clear-if true m n km kn = km
  Clear-if false m n km kn = kn

module _ {S A : Type 0} {P Q R : S → Type 0} where
  -- An error that is not looked at.
  pub Clear-attempt :
      (m : Run S A) → ((s : S) → R s → Q s) → Clear P m (λ a. Q) R → Clear P (attempt m) (λ r. Q) R
  unfolding attempt
  Clear-attempt m k h = record {
    at = λ w c p. either (m w).0 (m w).1.state (h.at w c p);
    outside = h.outside;
  }
    where
      either : (r : Result A) (s : S) → After (λ a. Q) R r s → Q s
      either (ok a) s q = q
      either (err e) s q = k s q

module _ {S A : Type 0} {P R T : S → Type 0} {Q : A → S → Type 0} where
  -- A weaker condition after an error.
  pub Clear-weaken : (m : Run S A) → ((s : S) → R s → T s) → Clear P m Q R → Clear P m Q T
  Clear-weaken m k h = record {
    at = λ w c p. either (m w).0 (m w).1.state (h.at w c p);
    outside = h.outside;
  }
    where
      either : (r : Result A) (s : S) → After Q R r s → After Q T r s
      either (ok a) s q = q
      either (err e) s q = k s q

module _ {S : Type 0} {P R : S → Type 0} where
  pub Clear-now : Clear P now (λ a. P) R
  unfolding now
  Clear-now = record { at = λ w c h. h; outside = λ w. refl }

  pub Clear-next_serial : Clear P next_serial (λ a. P) R
  unfolding next_serial
  Clear-next_serial = record { at = λ w c h. h; outside = λ w. refl }

module _ {S A B : Type 0} {P R : S → Type 0} {Q : A → S → Type 0} {T : B → S → Type 0} where
  pub Clear-bind :
      (m : Run S A) (f : A → Run S B)
      → Clear P m Q R
      → ((a : A) → Clear (Q a) (f a) T R)
      → Clear P (m >>= f) T R
  unfolding ◌>>=◌
  Clear-bind m f km kf = record {
    at = λ w c h. after (m w).0 (m w).1 (λ n. rw ((km.outside w)) (c n)) (km.at w c h);
    outside = λ w. same (m w).0 (m w).1 ∙ km.outside w;
  }
    where
      after :
          (r : Result A) (v : World S)
          → IsClear v
          → After Q R r v.state
          → After T R (continue r f v).0 (continue r f v).1.state
      after (ok a) v c q = (kf a).at v c q
      after (err e) v c q = q

      same : (r : Result A) (v : World S) → (continue r f v).1.outside ≡ v.outside
      same (ok a) v = (kf a).outside v
      same (err e) v = refl
