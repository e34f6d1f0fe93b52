-- ===== src/Migrations/Applied.antt =====
-- What the transaction of a migration does.
use cartnova_go_microservice.Prelude.{String, ◌≡◌, refl, ap, sym, ◌∙◌, subst, inl, inr, arith}
use cartnova_go_microservice.Go.{Result, ok, err}
use cartnova_go_microservice.World.{World, Run, fail, attempt, query}
use cartnova_go_microservice.World.Keeps.{Keeps, keep_rules}
use cartnova_go_microservice.World.Returns.{
  Returns, bind-Returns, return-Returns, query-Returns, attempt_ok,
}
use cartnova_go_microservice.World.Transaction.{transaction, transaction-Ran}
use cartnova_go_microservice.Migrations.{
  Database, Directory, insert_version, executed, or_migration, migrate_body,
}

module _ {S A : Type 0} {P : S → Type 0} where
  -- What the statements of a transaction keep of its copy.
  pub Keeps-transaction :
      (body : S → Run S (A × S))
      → ((tx : S) (w : World S) → (body tx w).1.state ≡ w.state)
      → ((tx tx' : S) (a : A) (w : World S) → P tx → (body tx w).0 ≡ ok (a, tx') → P tx')
      → Keeps P (transaction body)
  Keeps-transaction body quiet k = record {
    at = λ w h. elim (transaction-Ran body quiet w) [
      | inl (same, _) ↦ subst P (sym same) h
      | inr (a, ran, _) ↦ k w.state _ a _ h ran
    ];
  }

module _ {D : Type 0} (execute : String → D → Result D) (directory : Directory D) where
  Keeps-or_migration :
      {P : Database D → Type 0} (file : String) (r : Result (Database D))
      → Keeps P (or_migration D execute directory file r)
  unfolding or_migration
  Keeps-or_migration file (ok d) = search keep_rules
  Keeps-or_migration file (err e) = search keep_rules

  pub quiet :
      (file content : String) (tx : Database D) (w : World (Database D))
      → (migrate_body D execute directory file content tx w).1.state ≡ w.state
  unfolding migrate_body
  quiet file content tx w = still.at w refl
    where
      still : Keeps (λ s. s ≡ w.state) (migrate_body D execute directory file content tx)
      still = search (keep_rules, Keeps-or_migration)

  or_migration-Returns :
      (file : String) (r : Result (Database D)) (w v : World (Database D)) {d : Database D}
      → Returns (or_migration D execute directory file r) w d v
      → r ≡ ok d
  unfolding or_migration fail
  or_migration-Returns file (ok d) w v e = ap ok (return-Returns d w v e)
  or_migration-Returns file (err x) w v e = absurd (cc)

  executed-ok :
      (r : Result D) (tx tx' : Database D)
      → executed D execute directory r tx ≡ ok tx'
      → (content : D) × (r ≡ ok content) × (tx' ≡ record tx { content = content })
  unfolding executed
  executed-ok (ok content) tx tx' e = (content, refl, ground arith)
  executed-ok (err x) tx tx' e = absurd (cc)

  -- The statements ran the text on the content and recorded the file.
  pub body_inserts :
      (file content : String) (tx tx' : Database D) (u : Unit {0}) (w : World (Database D))
      → (migrate_body D execute directory file content tx w).0 ≡ ok (u, tx')
      → (new : D) × (execute content tx.content ≡ ok new)
        × (insert_version D file (record tx { content = new }) ≡ ok tx')
  unfolding migrate_body
  body_inserts file content tx tx' u w e =
      let run : Run (Database D) (Database D) =
        query λ d. executed D execute directory (execute content tx.content) tx in
      let whole : Returns (migrate_body D execute directory file content tx) w (u, tx')
          (migrate_body D execute directory file content tx w).1 =
        ap (λ r. (r, (migrate_body D execute directory file content tx w).1)) e in
      let (ran, v1, got, e1) = bind-Returns (attempt run) _ w whole in
      let (tx1, v2, made, e2) = bind-Returns (or_migration D execute directory file ran) _ v1 e1 in
      let (tx2, v3, put, e3) = bind-Returns (query λ d. insert_version D file tx1) _ v2 e2 in
      let same = or_migration-Returns file ran v1 v2 made in
      let outcome =
        query-Returns _ w v1
          (attempt_ok _ w v1 tx1 (subst (λ r. Returns (attempt run) w r v1) same got)) in
      let (new, did, changed) = executed-ok (execute content tx.content) tx tx1 outcome in
      (
        new,
        did,
        ap (insert_version D file) (sym changed)
            ∙ query-Returns _ v2 v3 put
            ∙ ap (λ r. ok r.1) (return-Returns (tt, tx2) v3 _ e3),
      )
