-- ===== src/World/Computes.antt =====
-- Code that changes nothing but the counters of `World`: what it returns, whatever the fates, and
-- what it returns when every call goes through.
use cartnova_go_microservice.Prelude.{
  ℕ, String, ◌≡◌, refl, ◌⊎◌, inl, inr, Bool, true, false, if◌then◌else◌, arith,
}
use cartnova_go_microservice.Go
use cartnova_go_microservice.Go.{GoError, foreign, Result, ok, err}
use cartnova_go_microservice.World.{
  World, Fate, Run, done, refused, unacked, settle, return, fail, query, ◌>>=◌, continue,
}

-- Every call goes through.
abbrev pub IsClear : {S : Type 0} → World S → Type 0
IsClear w = (k : ℕ) → w.outside.fate k ≡ done

-- Nothing but the counters differs.
pub record SameWorld {S : Type 0} (v w : World S) : Type 0 where
  pub outside : w.outside ≡ v.outside
  pub state : w.state ≡ v.state
  pub published : w.published ≡ v.published
  pub committed : w.committed ≡ v.committed

abbrev pub IsForeign : {A : Type 0} → Result A → Type 0
IsForeign r = (text : String) × (r ≡ err (foreign text))

pub record Computes {S A : Type 0} (m : Run S A) (r : Result A) : Type 0 where
  pub same : (w : World S) → SameWorld w (m w).1
  pub value : (w : World S) → ((m w).0 ≡ r) ⊎ IsForeign (m w).0
  pub clear : (w : World S) → IsClear w → (m w).0 ≡ r

module _ {S A : Type 0} where
  pub Computes-return : (a : A) → Computes {S = S} (return a) (ok a)
  unfolding return
  Computes-return a = record {
    same = λ w. record { outside = refl; state = refl; published = refl; committed = refl };
    value = λ w. inl refl;
    clear = λ w h. refl;
  }

  pub Computes-fail : (e : GoError) → Computes {S = S} (fail {A = A} e) (err e)
  unfolding fail
  Computes-fail e = record {
    same = λ w. record { outside = refl; state = refl; published = refl; committed = refl };
    value = λ w. inl refl;
    clear = λ w h. refl;
  }

  pub settle_value :
      (fate : Fate) (r : Result A) (before after : World S)
      → ((settle fate r before after).0 ≡ r) ⊎ IsForeign (settle fate r before after).0
  settle_value done r before after = inl refl
  settle_value (refused text) r before after = inr (text, refl)
  settle_value (unacked text) r before after = inr (text, refl)

  pub Computes-query : (r : Result A) → Computes {S = S} (query λ _. r) r
  unfolding query
  Computes-query r = record {
    same = λ w. ground arith;
    value = λ w. settle_value (w.outside.fate w.calls) r _ _;
    clear = λ w h. ground (arith, h w.calls);
  }

  pub Computes-if :
      (b : Bool) {m n : Run S A} {r s : Result A}
      → Computes m r
      → Computes n s
      → Computes (if b then m else n) (if b then r else s)
  Computes-if true cm cn = cm
  Computes-if false cm cn = cn

SameWorld-trans : {S : Type 0} {u v w : World S} → SameWorld u v → SameWorld v w → SameWorld u w
SameWorld-trans h k = ground arith

module _ {S A B : Type 0} (f : A → Run S B) (g : A → Result B)
    (cf : (a : A) → Computes (f a) (g a)) where
  continue_same : (r : Result A) (v w : World S) → SameWorld v w → SameWorld v (continue r f w).1
  continue_same (ok a) v w h = SameWorld-trans h ((cf a).same w)
  continue_same (err e) v w h = h

  continue_value :
      (r' r : Result A) (w : World S)
      → (r' ≡ r) ⊎ IsForeign r'
      → ((continue r' f w).0 ≡ Go.◌>>=◌ r g) ⊎ IsForeign (continue r' f w).0
  continue_value (ok a) r w (inl e) = rw (← e) ((cf a).value w)
  continue_value (ok a) r w (inr (text, e)) = absurd (cc)
  continue_value (err x) r w (inl e) = rw (← e) (inl refl)
  continue_value (err x) r w (inr (text, e)) = inr (text, cc)

  continue_clear :
      (r' r : Result A) (w : World S) → r' ≡ r → IsClear w → (continue r' f w).0 ≡ Go.◌>>=◌ r g
  continue_clear (ok a) r w e h = rw (← e) ((cf a).clear w h)
  continue_clear (err x) r w e h = rw (← e) refl

  pub Computes-bind :
      {m : Run S A} {r : Result A} → Computes m r → Computes (m >>= f) (Go.◌>>=◌ r g)
  unfolding ◌>>=◌
  Computes-bind {m} {r} cm = record {
    same = λ w. continue_same (m w).0 w (m w).1 (cm.same w);
    value = λ w. continue_value (m w).0 r (m w).1 (cm.value w);
    clear = λ w h.
        continue_clear (m w).0 r (m w).1 (cm.clear w h) (λ k. rw ((cm.same w).outside) (h k));
  }
