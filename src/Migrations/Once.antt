-- ===== src/Migrations/Once.antt =====
-- Every migration is applied once, with its record.
use Prim.Native.String.{count}
use cartnova_go_microservice.Prelude.{
  ℕ, String, ◌≡◌, refl, ap, sym, ◌∙◌, subst, false, Option, none, some, List, [], ◌∷◌, ltb,
  if◌then◌else◌, arith,
}
use cartnova_go_microservice.Go
use cartnova_go_microservice.Go.{GoError, pg_error, Result, ok, err}
use cartnova_go_microservice.World.{World, perform, query, remote}
use cartnova_go_microservice.World.Keeps.{
  Keeps, Keeps-bind, Keeps-if, Keeps-return, Keeps-query, Keeps-remote, Keeps-perform,
  Keeps-remote_bind,
}
use cartnova_go_microservice.Migrations.Applied.{Keeps-transaction, quiet, body_inserts}
use cartnova_go_microservice.Migrations.{
  migration_files, is_applied, version_rows, Database, Directory, create_versions, exists_version,
  insert_version, migrate_body, migrate, migrate_all, run_migrations,
}

module _ {D : Type 0} (execute : String → D → Result D) (text : String → String) (start : D) where
  -- The content after these migrations, the last of which stands first.
  unfoldable pub replay : List String → Result D
  replay [] = ok start
  replay (file ∷ earlier) = Go.◌>>=◌ (replay earlier) (execute (text file))

  abbrev pub AreDistinct : List String → Type 0
  AreDistinct [] = Unit
  AreDistinct (file ∷ earlier) = (is_applied file earlier ≡ false) × AreDistinct earlier

  abbrev IsRecorded : D → Option (List String) → Type 0
  IsRecorded content none = content ≡ start
  IsRecorded content (some versions) = AreDistinct versions × (replay versions ≡ ok content)

  -- The content is that after the recorded migrations, each of them applied once.
  abbrev pub IsMigrated : Database D → Type 0
  IsMigrated d = IsRecorded d.content d.versions

  version_rows-IsRecorded :
      (content : D) (o : Option (List String))
      → IsRecorded content o
      → IsRecorded content (some (version_rows o))
  unfolding version_rows replay
  version_rows-IsRecorded content none h = (tt, ap ok (sym h))
  version_rows-IsRecorded content (some versions) h = h

  insert_version-IsRecorded :
      (file : String) (content : D) (d tx : Database D)
      → IsMigrated d
      → execute (text file) d.content ≡ ok content
      → insert_version D file (record d { content = content }) ≡ ok tx
      → IsMigrated tx
  unfolding insert_version replay
  insert_version-IsRecorded file content d tx h ran e = inserted d.versions refl h e
    where
      after :
          (versions : List String)
          → replay versions ≡ ok d.content
          → replay (file ∷ versions) ≡ ok content
      after versions r = ap (λ x. Go.◌>>=◌ x (execute (text file))) r ∙ ran

      inserted :
          (o : Option (List String))
          → d.versions ≡ o
          → IsRecorded d.content o
          → (elim o [
            | none ↦ err (pg_error "42P01")
            | some versions ↦
                if ltb 100 (count file)
                then err (pg_error "22001")
                else if is_applied file versions
                then err (pg_error "23505")
                else ok (record d { content = content; versions = some (file ∷ versions) })
          ])
            ≡ ok tx
          → IsMigrated tx
      inserted none k h e = absurd (cc)
      inserted (some versions) k h e =
          let (fresh, same) : (is_applied file versions ≡ false)
              × (record { content = content; versions = some (file ∷ versions) } ≡ tx) =
            ground arith in
          subst IsMigrated same ((fresh, h.0), after versions h.1)

  module _ (directory : Directory D) where
    body-IsMigrated :
        (file : String) (tx tx' : Database D) (u : Unit {0}) (w : World (Database D))
        → IsMigrated tx
        → (migrate_body D execute directory file (text file) tx w).0 ≡ ok (u, tx')
        → IsMigrated tx'
    body-IsMigrated file tx tx' u w h e =
        let (content, did, recorded) =
          body_inserts execute directory file (text file) tx tx' u w e in
        insert_version-IsRecorded file content tx tx' h did recorded

    module _
        (honest : (n : ℕ) (file content : String)
          → directory.read n file ≡ ok content
          → content ≡ text file) where
      Keeps-migrate : (file : String) → Keeps IsMigrated (migrate D execute directory file)
      unfolding migrate
      Keeps-migrate file = Keeps-bind (query (exists_version D file)) _ (Keeps-query _) λ exists.
          Keeps-if exists _ _ (Keeps-return tt) (
            Keeps-remote_bind (λ n. directory.read n file) _
              λ n content found.
                Keeps-transaction (migrate_body D execute directory file content)
                  (quiet execute directory file content)
                  (λ tx tx' u w h e. body-IsMigrated file tx tx' u w h (
                    subst (λ c. (migrate_body D execute directory file c tx w).0 ≡ ok (u, tx'))
                      (honest n file content found) e)))

      Keeps-migrate_all :
          (files : List String) → Keeps IsMigrated (migrate_all D execute directory files)
      unfolding migrate_all
      Keeps-migrate_all [] = Keeps-return tt
      Keeps-migrate_all (file ∷ rest) =
          Keeps-bind (migrate D execute directory file) _ (Keeps-migrate file)
            λ u. Keeps-migrate_all rest

      Keeps-run_migrations : Keeps IsMigrated (run_migrations D execute directory)
      unfolding run_migrations create_versions
      Keeps-run_migrations = Keeps-bind (remote directory.entries) _ (Keeps-remote _) λ entries.
          Keeps-bind (perform (create_versions D)) _
            (Keeps-perform _ λ d h. version_rows-IsRecorded d.content d.versions h)
            λ u. Keeps-migrate_all (migration_files entries)

-- Whatever calls fail, the content of a database is that after its recorded migrations, run from the start content in the
-- order of their records, each of them once, if the files do not change and it was so before.
pub run_migrations-IsMigrated :
    {D : Type 0} (execute : String → D → Result D) (text : String → String) (start : D)
    (directory : Directory D) (w : World (Database D))
    → ((n : ℕ) (file content : String) → directory.read n file ≡ ok content → content ≡ text file)
    → IsMigrated execute text start w.state
    → IsMigrated execute text start (run_migrations D execute directory w).1.state
run_migrations-IsMigrated execute text start directory w honest h =
    (Keeps-run_migrations execute text start directory honest).at w h
