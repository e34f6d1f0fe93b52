-- ===== src/Migrations/Again.antt =====
-- Migrations that have run are not run again.
use cartnova_go_microservice.Prelude.{
  ℕ, suc, String, ◌≡◌, ap, sym, ◌∙◌, subst, Bool, true, false, inl, inr, List, [], ◌∷◌,
  if◌then◌else◌, arith,
}
use cartnova_go_microservice.Go.{Result, ok}
use cartnova_go_microservice.World.{World, Run, return, perform, query, remote, ◌>>=◌}
use cartnova_go_microservice.World.Keeps.{
  Keeps, Keeps-bind, Keeps-if, Keeps-return, Keeps-query, Keeps-perform, Keeps-remote_bind,
}
use cartnova_go_microservice.World.Returns.{
  Returns, bind-Returns, return_world, query_reads, perform-Returns, Keeps-Returns,
}
use cartnova_go_microservice.World.Transaction.{transaction, transaction-Ran}
use cartnova_go_microservice.Migrations.Recorded.{
  IsTable, IsListed-IsTable, HasVersion, insert_version-HasVersion, exists-HasVersion,
  HasVersion-exists, AllRecorded, AllRecorded-IsTable, create_versions-IsTable,
  create_versions_again,
}
use cartnova_go_microservice.Migrations.Applied.{Keeps-transaction, quiet, body_inserts}
use cartnova_go_microservice.Migrations.{
  DirEntry, migration_files, Database, Directory, create_versions, exists_version, migrate_body,
  migrate, migrate_all, run_migrations,
}

remote-Returns :
    {S A : Type 0} (reply : ℕ → Result A) (w v : World S) (a : A)
    → Returns (remote reply) w a v
    → reply (suc w.calls) ≡ ok a
unfolding remote
remote-Returns reply w v a e = ground arith

module _ {D : Type 0} where
  module _ (execute : String → D → Result D) (directory : Directory D) where
    Keeps-migrate :
        (file other : String) → Keeps (HasVersion other) (migrate D execute directory file)
    unfolding migrate
    Keeps-migrate file other =
        Keeps-bind (query (exists_version D file)) _ (Keeps-query _) λ exists.
          Keeps-if exists _ _ (Keeps-return tt) (
            Keeps-remote_bind (λ n. directory.read n file) _
              λ n content found.
                Keeps-transaction (migrate_body D execute directory file content)
                  (quiet execute directory file content)
                  (λ tx tx' u w h e.
                    let (new, _, recorded) =
                      body_inserts execute directory file content tx tx' u w e in
                    (insert_version-HasVersion file other new tx tx' recorded).1 h))

    transaction-HasVersion :
        (file content : String) (w v : World (Database D))
        → Returns (transaction (migrate_body D execute directory file content)) w tt v
        → HasVersion file v.state
    transaction-HasVersion file content w v e =
        elim (transaction-Ran (migrate_body D execute directory file content)
          (quiet execute directory file content) w) [
            | inl (_, (x, failed)) ↦ absurd (cc)
            | inr (u, ran, _) ↦
                let (new, _, recorded) =
                  body_inserts execute directory file content w.state _ u _ ran in
                subst (λ (r : Result (Unit {0}) × World (Database D)). HasVersion file r.1.state) e
                  (insert_version-HasVersion file file new w.state _ recorded).0
          ]

    migrate-HasVersion :
        (file : String) (w v : World (Database D))
        → Returns (migrate D execute directory file) w tt v
        → HasVersion file v.state
    unfolding migrate
    migrate-HasVersion file w v e =
        let (exists, u, looked, rest) = bind-Returns (query (exists_version D file)) _ w e in
        let (was, same, _) = query_reads (exists_version D file) w u looked in
        either exists u was same rest
      where
        fresh : Run (Database D) (Unit {0})
        fresh = do
          content ← remote λ n. directory.read n file
          transaction (migrate_body D execute directory file content)

        either :
            (exists : Bool) (u : World (Database D))
            → exists_version D file w.state ≡ ok exists
            → u.state ≡ w.state
            → Returns (if exists then return tt else fresh) u tt v
            → HasVersion file v.state
        either true u was same e =
            subst (HasVersion file)
              (sym (sym (ap (λ (x : World (Database D)). x.state) (return_world tt u v e)) ∙ same))
              (exists-HasVersion file w.state was)
        either false u was same e =
            let (content, t, _, rest) = bind-Returns (remote λ n. directory.read n file) _ u e in
            transaction-HasVersion file content t v rest

    Keeps-migrate_all :
        (files : List String) (other : String)
        → Keeps (HasVersion other) (migrate_all D execute directory files)
    unfolding migrate_all
    Keeps-migrate_all [] other = Keeps-return tt
    Keeps-migrate_all (file ∷ rest) other =
        Keeps-bind (migrate D execute directory file) _ (Keeps-migrate file other)
          λ u. Keeps-migrate_all rest other

    migrate_all-AllRecorded :
        (files : List String) (w v : World (Database D))
        → IsTable w.state.versions
        → Returns (migrate_all D execute directory files) w tt v
        → AllRecorded files v.state
    unfolding migrate_all
    migrate_all-AllRecorded [] w v h e =
        subst (λ (x : World (Database D)). IsTable x.state.versions) (return_world tt w v e) h
    migrate_all-AllRecorded (file ∷ rest) w v h e =
        let (u, t, first, later) = bind-Returns (migrate D execute directory file) _ w e in
        (
          Keeps-Returns (migrate_all D execute directory rest) t v (Keeps-migrate_all rest file)
              later (migrate-HasVersion file w t first),
          migrate_all-AllRecorded rest t v
              (IsListed-IsTable file t.state.versions (migrate-HasVersion file w t first)) later,
        )

    -- A recorded migration does nothing.
    migrate_recorded :
        (file : String) (w : World (Database D))
        → HasVersion file w.state
        → (migrate D execute directory file w).1.state ≡ w.state
    unfolding migrate query return ◌>>=◌ exists_version
    migrate_recorded file w h = ground (arith, HasVersion-exists file w.state h)

    Keeps-recorded :
        (files : List String) (d : Database D)
        → AllRecorded files d
        → Keeps (λ s. s ≡ d) (migrate_all D execute directory files)
    unfolding migrate_all
    Keeps-recorded [] d h = Keeps-return tt
    Keeps-recorded (file ∷ rest) d h =
        Keeps-bind (migrate D execute directory file) _
          (record { at = λ w e. migrate_recorded file w (subst (HasVersion file) (sym e) h.0) ∙ e })
          λ u. Keeps-recorded rest d h.1

    module _ (entries : List DirEntry)
        (listing : (n : ℕ) (found : List DirEntry)
          → directory.entries n ≡ ok found
          → found ≡ entries) where
      run-AllRecorded :
          (w v : World (Database D))
          → Returns (run_migrations D execute directory) w tt v
          → AllRecorded (migration_files entries) v.state
      unfolding run_migrations
      run-AllRecorded w v e =
          let (found, u, got, e1) = bind-Returns (remote directory.entries) _ w e in
          let (x, t, created, e2) = bind-Returns (perform (create_versions D)) _ u e1 in
          let (_, after) = perform-Returns (create_versions D) u t created in
          let recorded =
            migrate_all-AllRecorded (migration_files found) t v
              (subst (λ d. IsTable d.versions) (sym after) (create_versions-IsTable u.state)) e2 in
          subst (λ f. AllRecorded (migration_files f) v.state)
            (listing (suc w.calls) found (remote-Returns directory.entries w u found got)) recorded

      Keeps-run_again :
          (d : Database D)
          → AllRecorded (migration_files entries) d
          → Keeps (λ s. s ≡ d) (run_migrations D execute directory)
      unfolding run_migrations
      Keeps-run_again d h = Keeps-remote_bind directory.entries _ λ n found got.
          Keeps-bind (perform (create_versions D)) _
            (Keeps-perform (create_versions D) λ s e.
              subst (λ x. (create_versions D x).1 ≡ d) (sym e)
                (create_versions_again d (AllRecorded-IsTable (migration_files entries) d h)))
            λ u.
              subst (λ x. Keeps (λ s. s ≡ d) (migrate_all D execute directory (migration_files x)))
                (sym (listing n found got)) (Keeps-recorded (migration_files entries) d h)

-- When RunMigrations returned without an error, every migration of the directory is recorded, and another run on the
-- database, whatever calls of it fail, changes nothing, as long as the directory lists the same entries.
pub run_migrations_again :
    {D : Type 0} (execute : String → D → Result D) (directory : Directory D)
    (entries : List DirEntry) (w v x : World (Database D))
    → ((n : ℕ) (found : List DirEntry) → directory.entries n ≡ ok found → found ≡ entries)
    → Returns (run_migrations D execute directory) w tt v
    → x.state ≡ v.state
    → AllRecorded (migration_files entries) v.state
      × ((run_migrations D execute directory x).1.state ≡ x.state)
run_migrations_again execute directory entries w v x listing e same =
    let recorded = run-AllRecorded execute directory entries listing w v e in
    (
      recorded,
      (Keeps-run_again execute directory entries listing v.state recorded).at x same ∙ sym same,
    )
