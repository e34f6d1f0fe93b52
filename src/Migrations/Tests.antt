-- ===== src/Migrations/Tests.antt =====
-- Migrations of a database that holds a text.
use cartnova_go_microservice.Prelude.{
  String, ◌≡◌, refl, true, false, none, List, [], ◌∷◌, ◌==◌, ◌<>◌, if◌then◌else◌, arith,
}
use cartnova_go_microservice.Go.{Result, ok}
use cartnova_go_microservice.World.{◌>>=◌, remote, perform, query, attempt, return}
use cartnova_go_microservice.World.Transaction.{transaction, commit_transaction}
use cartnova_go_microservice.World.Samples.{calm, broken, start}
use cartnova_go_microservice.Migrations.{
  DirEntry, Database, Directory, run_migrations, migration_files, sql_names, has_suffix,
  create_versions, migrate_all, migrate, exists_version, is_applied, version_rows, migrate_body,
  executed, insert_version, or_migration,
}
use cartnova_go_microservice.Reply.{order_by, insert_sorted}
use cartnova_go_microservice.World.Returns.{Returns}
use cartnova_go_microservice.Migrations.Recorded.{AllRecorded}
use cartnova_go_microservice.Migrations.Again.{run_migrations_again}
use cartnova_go_microservice.Migrations.Once.{IsMigrated, run_migrations-IsMigrated}

abbrev entries : List DirEntry
entries =
    record { name = "002_prices.sql"; is_dir = false }
    ∷ record { name = "old.sql"; is_dir = true }
    ∷ record { name = "001_products.sql"; is_dir = false }
    ∷ record { name = "README.md"; is_dir = false }
    ∷ []

migration_files_test : migration_files entries ≡ "001_products.sql" ∷ "002_prices.sql" ∷ []
unfolding migration_files sql_names has_suffix order_by insert_sorted
migration_files_test = refl

abbrev text : String → String
text file = if file == "001_products.sql" then "a" else "b"

abbrev directory : Directory String
directory = record { entries = λ n. ok entries; read = λ n file. ok (text file) }

abbrev execute : String → String → Result String
execute statements content = ok (content <> statements)

abbrev empty : Database String
empty = record { content = ""; versions = none }

-- The seventh call is refused.
run_migrations-IsMigrated_example :
    IsMigrated execute text ""
      (run_migrations String execute directory (start (broken 6) empty)).1.state
run_migrations-IsMigrated_example =
    run_migrations-IsMigrated execute text "" directory (start (broken 6) empty)
      (λ n file content e. ground arith) refl

ran :
    Returns
      (run_migrations String execute directory)
      (start calm empty)
      tt
      (run_migrations String execute directory (start calm empty)).1
unfolding run_migrations ◌>>=◌ remote perform create_versions migrate_all migration_files order_by
    sql_names has_suffix insert_sorted migrate query exists_version is_applied version_rows
    transaction migrate_body executed insert_version or_migration commit_transaction attempt return
ran = refl

run_migrations_again_example :
    AllRecorded
      (migration_files entries)
      (run_migrations String execute directory (start calm empty)).1.state
    × ((run_migrations String execute directory (
          start
            (broken 2)
            (run_migrations String execute directory (start calm empty)).1.state)).1.state
        ≡ (run_migrations String execute directory (start calm empty)).1.state)
run_migrations_again_example =
    run_migrations_again execute directory entries (start calm empty)
      (run_migrations String execute directory (start calm empty)).1
      (start (broken 2) (run_migrations String execute directory (start calm empty)).1.state)
      (λ n found e. ground arith) ran refl
