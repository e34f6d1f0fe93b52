-- ===== src/World/Transaction.antt =====
-- Database transactions. A transaction works on its own copy of the tables, which its commit puts
-- in place; `defer tx.Rollback(ctx)` is that the copy is dropped.
use cartnova_go_microservice.Prelude.{◌≡◌, refl, sym, ◌∙◌, ◌⊎◌, inl, inr, suc, String, arith}
use cartnova_go_microservice.Go.{GoError, foreign, Result, ok, err}
use cartnova_go_microservice.World.{
  World, Fate, Run, done, refused, unacked, settle, perform, query, ◌>>=◌, continue,
}
use cartnova_go_microservice.World.Computes.{IsForeign, IsClear, Computes, settle_value}

-- The broker has seen nothing between the two.
pub record SameBroker {S : Type 0} (v w : World S) : Type 0 where
  pub outside : w.outside ≡ v.outside
  pub published : w.published ≡ v.published
  pub committed : w.committed ≡ v.committed

module _ {S A : Type 0} where
  -- `tx.Commit(ctx)`
  unfoldable pub commit_transaction : A × S → Run S A
  unfolding perform
  commit_transaction (a, tx) = perform λ _. (ok a, tx)

  -- `db.Begin`, the statements, and the commit.
  unfoldable pub transaction : (S → Run S (A × S)) → Run S A
  unfolding ◌>>=◌ query commit_transaction
  transaction body = do tx ← query ok; finished ← body tx; commit_transaction finished

  -- The tables are as before, with an error; or they are the planned ones, and an error can only say
  -- that the commit was not acknowledged.
  abbrev pub IsAtomic : S → Result (A × S) → Result A → S → Type 0
  IsAtomic old plan result new =
      ((new ≡ old) × ((e : GoError) × (result ≡ err e)))
      ⊎ ((a : A) × (plan ≡ ok (a, new)) × ((result ≡ ok a) ⊎ IsForeign result))

  abbrev pub pair : Result A × World S → Result A × S
  pair (r, w) = (r, w.state)

  -- The result and the tables of a transaction none of whose calls fails.
  abbrev pub outcome : S → Result (A × S) → Result A × S
  outcome old (ok (a, new)) = (ok a, new)
  outcome old (err e) = (err e, old)

module _ {S A : Type 0} (body : S → Run S (A × S)) (plan : S → Result (A × S))
    (cb : (tx : S) → Computes (body tx) (plan tx)) where
  commit-IsAtomic :
      (old : S) (p r : Result (A × S)) (w : World S)
      → w.state ≡ old
      → (r ≡ p) ⊎ IsForeign r
      → IsAtomic old p (continue r commit_transaction w).0 (continue r commit_transaction w).1.state
  unfolding commit_transaction
  commit-IsAtomic old p (err e) w h k = inl (h, (e, refl))
  commit-IsAtomic old p (ok (a, tx)) w h (inr k) = absurd (cc)
  commit-IsAtomic old p (ok (a, tx)) w h (inl k) = fated (w.outside.fate w.calls)
    where
      fated :
          (fate : Fate)
          → IsAtomic old p
              (settle {S = S} fate
                (ok a)
                (record w { calls = suc w.calls })
                (record w { calls = suc w.calls; state = tx })).0
              (settle {S = S} {A = A} fate
                (ok a)
                (record w { calls = suc w.calls })
                (record w { calls = suc w.calls; state = tx })).1.state
      fated done = inr (a, sym k, inl refl)
      fated (refused text) = inl (h, (foreign text, refl))
      fated (unacked text) = inr (a, sym k, inr (text, refl))

  begun-IsAtomic :
      (old : S) (r : Result S) (w : World S)
      → w.state ≡ old
      → (r ≡ ok old) ⊎ IsForeign r
      → IsAtomic old
          (plan old)
          (continue r (λ tx. body tx >>= commit_transaction) w).0
          (continue r (λ tx. body tx >>= commit_transaction) w).1.state
  unfolding ◌>>=◌
  begun-IsAtomic old (err e) w h k = inl (h, (e, refl))
  begun-IsAtomic old (ok tx) w h (inr k) = absurd (cc)
  begun-IsAtomic old (ok tx) w h (inl k) =
      let e : tx ≡ old = cc in
      rw (← e) (
        commit-IsAtomic tx (plan tx) (body tx w).0 (body tx w).1
          (((cb tx).same w).state ∙ h ∙ sym e) ((cb tx).value w))

  pub transaction-IsAtomic :
      (w : World S)
      → IsAtomic w.state (plan w.state) (transaction body w).0 (transaction body w).1.state
  unfolding transaction
  transaction-IsAtomic w =
      begun-IsAtomic w.state _ _ (ground arith)
        (settle_value (w.outside.fate w.calls) (ok w.state) _ _)

  commit-outcome :
      (old : S) (p r : Result (A × S)) (w : World S)
      → w.state ≡ old
      → r ≡ p
      → IsClear w
      → pair (continue r commit_transaction w) ≡ outcome old p
  unfolding commit_transaction
  commit-outcome old p (err e) w h k c = rw (← k, h) refl
  commit-outcome old p (ok (a, tx)) w h k c = rw (← k) (ground (arith, c w.calls))

  pub transaction-outcome :
      (w : World S) → IsClear w → pair (transaction body w) ≡ outcome w.state (plan w.state)
  unfolding transaction
  transaction-outcome w c = rw (c w.calls) (
      let v : World S = record w { calls = suc w.calls } in
      let same = (cb w.state).same v in
      commit-outcome w.state (plan w.state) (body w.state v).0 (body w.state v).1 same.state
        ((cb w.state).clear v c) (λ k. rw (same.outside) (c k)))

  commit-SameBroker :
      (v : World S) (r : Result (A × S)) (w : World S)
      → SameBroker v w
      → SameBroker v (continue r commit_transaction w).1
  unfolding commit_transaction
  commit-SameBroker v (err e) w h = h
  commit-SameBroker v (ok (a, tx)) w h = ground arith

  begun-SameBroker :
      (v : World S) (r : Result S) (w : World S)
      → SameBroker v w
      → SameBroker v (continue r (λ tx. body tx >>= commit_transaction) w).1
  unfolding ◌>>=◌
  begun-SameBroker v (err e) w h = h
  begun-SameBroker v (ok tx) w h =
      commit-SameBroker v (body tx w).0 (body tx w).1 (ground (arith, (cb tx).same w))

  -- A transaction publishes and commits no message.
  pub transaction-SameBroker : (w : World S) → SameBroker w (transaction body w).1
  unfolding transaction
  transaction-SameBroker w =
      begun-SameBroker w (query ok w).0 (query ok w).1 (unfold query in ground arith)

-- `db.Begin` fails and did nothing.
pub transaction_refused :
    {S A : Type 0} (body : S → Run S (A × S)) (w : World S) (text : String)
    → w.outside.fate w.calls ≡ refused text
    → transaction body w ≡ (err (foreign text), record w { calls = suc w.calls })
unfolding transaction
transaction_refused body w text f = rw f refl

-- A transaction that returned a value: the statements returned it with the tables that are in place
-- now. One that failed left the tables alone, or its commit was not acknowledged.
module _ {S A : Type 0} (body : S → Run S (A × S))
    (quiet : (tx : S) (w : World S) → (body tx w).1.state ≡ w.state) where
  -- The world in which the statements run.
  abbrev begun : World S → World S
  begun w = record w { calls = suc w.calls }

  abbrev pub Ran : World S → Result A × World S → Type 0
  Ran w (result, w') =
      ((w'.state ≡ w.state) × ((e : GoError) × (result ≡ err e)))
      ⊎ ((a : A) × ((body w.state (begun w)).0 ≡ ok (a, w'.state))
          × ((result ≡ ok a) ⊎ IsForeign result))

  commit-Ran :
      (w v : World S) (r : Result (A × S))
      → v.state ≡ w.state
      → (body w.state (begun w)).0 ≡ r
      → Ran w (continue r commit_transaction v)
  unfolding commit_transaction
  commit-Ran w v (err e) h k = inl (h, (e, refl))
  commit-Ran w v (ok (a, tx)) h k = fated (v.outside.fate v.calls)
    where
      fated :
          (fate : Fate)
          → Ran w (
              settle {S = S} fate
                (ok a)
                (record v { calls = suc v.calls })
                (record v { calls = suc v.calls; state = tx }))
      fated done = inr (a, k, inl refl)
      fated (refused text) = inl (h, (foreign text, refl))
      fated (unacked text) = inr (a, k, inr (text, refl))

  pub transaction-Ran : (w : World S) → Ran w (transaction body w)
  unfolding transaction
  transaction-Ran w = begin_fated (w.outside.fate w.calls) refl
    where
      begin_fated : (fate : Fate) → w.outside.fate w.calls ≡ fate → Ran w (transaction body w)
      begin_fated done f = rw f (commit-Ran w _ _ (quiet w.state (begun w)) refl)
      begin_fated (refused text) f = rw f (inl (refl, (foreign text, refl)))
      begin_fated (unacked text) f = rw f (inl (refl, (foreign text, refl)))
