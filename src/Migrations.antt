-- ===== src/Migrations.antt =====
-- `RunMigrations` of internal/database/postgres.go. `D` is what a database holds beside the table
-- `schema_migrations`, and `execute` is what PostgreSQL makes of the text of a file, which opens and closes
-- no transaction itself. The directory is what `os.ReadDir` and `os.ReadFile` find at each call.
pub mod Applied
pub mod Once
pub mod Recorded
pub mod Again
mod Tests
use Prim.Native.String.{compare, count}
use text.Mathlib.Text.{is_lt}
use cartnova_go_microservice.Prelude.{
  ℕ, String, Bool, true, false, not, ◌&&◌, ◌||◌, Option, none, some, List, [], ◌∷◌, ◌==◌, ◌<>◌, ltb,
  if◌then◌else◌,
}
use cartnova_go_microservice.Go.{GoError, wrapped, pg_error, Result, ok, err}
use cartnova_go_microservice.Reply.{order_by}
use cartnova_go_microservice.World.{
  Run, return, fail, attempt, lift, perform, query, remote, ◌>>=◌, ◌>>◌,
}
use cartnova_go_microservice.World.Transaction.{transaction}

-- os.DirEntry
pub record DirEntry : Type 0 where
  pub name : String
  pub is_dir : Bool

-- `strings.HasSuffix`
unfoldable pub has_suffix : String → String → Bool
has_suffix String.[] suffix = suffix == ""
has_suffix (String.◌∷◌ c s) suffix = (String.◌∷◌ c s == suffix) || has_suffix s suffix

-- The names of the migrations in a directory, in their order.
unfoldable pub sql_names : List DirEntry → List String
sql_names [] = []
sql_names (entry ∷ rest) =
    let more = sql_names rest in
    if entry.is_dir || not (has_suffix entry.name ".sql") then more else entry.name ∷ more

unfoldable pub migration_files : List DirEntry → List String
migration_files entries = order_by (λ s t. is_lt (compare s t)) (sql_names entries)

unfoldable pub is_applied : String → List String → Bool
is_applied version [] = false
is_applied version (applied ∷ rest) = (applied == version) || is_applied version rest

unfoldable pub version_rows : Option (List String) → List String
version_rows none = []
version_rows (some versions) = versions

module _ (D : Type 0) where
  -- `versions` are the rows of `schema_migrations`, if there is the table.
  pub record Database : Type 0 where
    pub content : D
    pub versions : Option (List String)

  pub record Directory : Type 0 where
    pub entries : ℕ → Result (List DirEntry)
    pub read : ℕ → String → Result String

  -- CREATE TABLE IF NOT EXISTS schema_migrations
  unfoldable pub create_versions : Database → Result (Unit {0}) × Database
  create_versions d = (ok tt, record d { versions = some (version_rows d.versions) })

  -- SELECT EXISTS(SELECT 1 FROM schema_migrations WHERE version = $1)
  unfoldable pub exists_version : String → Database → Result Bool
  exists_version file d = elim d.versions [
    | none ↦ err (pg_error "42P01")
    | some versions ↦ ok (is_applied file versions)
  ]

  -- INSERT INTO schema_migrations(version) VALUES($1)
  unfoldable pub insert_version : String → Database → Result Database
  insert_version file d = elim d.versions [
    | none ↦ err (pg_error "42P01")
    | some versions ↦
        if ltb 100 (count file)
        then err (pg_error "22001")
        else if is_applied file versions
        then err (pg_error "23505")
        else ok (record d { versions = some (file ∷ versions) })
  ]

  module _ (execute : String → D → Result D) (directory : Directory) where
    unfoldable pub executed : Result D → Database → Result Database
    executed (ok content) d = ok (record d { content = content })
    executed (err e) d = err e

    -- `fmt.Errorf("migration %s: %w", file, err)`
    unfoldable pub or_migration : String → Result Database → Run Database Database
    or_migration file (ok d) = return d
    or_migration file (err e) = fail (wrapped ("migration " <> file) e)

    -- The statements of the transaction.
    unfoldable pub migrate_body : String → String → Database → Run Database (Unit {0} × Database)
    migrate_body file content tx = do
      ran ← attempt (query λ d. executed (execute content tx.content) tx)
      tx' ← or_migration file ran
      tx'' ← query λ d. insert_version file tx'
      return (tt, tx'')

    -- One round of the loop.
    unfoldable pub migrate : String → Run Database (Unit {0})
    migrate file = do
      exists ← query (exists_version file)
      if exists then return tt else do
        content ← remote λ n. directory.read n file
        transaction (migrate_body file content)

    unfoldable pub migrate_all : List String → Run Database (Unit {0})
    migrate_all [] = return tt
    migrate_all (file ∷ rest) = do migrate file; migrate_all rest

    unfoldable pub run_migrations : Run Database (Unit {0})
    run_migrations = do
      entries ← remote directory.entries
      perform create_versions
      migrate_all (migration_files entries)
