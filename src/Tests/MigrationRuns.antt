-- ===== src/Tests/MigrationRuns.antt =====
-- Runs of migrations, where a schema is the list of the scripts that have made it.
use outboxy.Base.{
  ◌≡◌, refl, true, false, List, [], ◌∷◌, ◌++◌, none, some, Text, codes, if◌then◌else◌, text_eq,
  member, select,
}
use outboxy.Dialect.{JsError, Outcome, returned, threw}
use outboxy.Sdk.Calls.Verdicts.{all_different}
use outboxy.Migrations.Names.{
  get_all_migration_names, sort_names, insert_name, is_before, is_migration_file, ends_name,
}
use outboxy.Migrations.{
  Database, Runner, names, tracked, status_of, script, migrate_mysql, run_postgres_migrations,
  is_duplicate_key_name,
}
use outboxy.Migrations.Applied.{Applies, IsPending, made_by, run_postgres_migrations-Applies}
use outboxy.Migrations.Partial.{migrate_mysql-leaves_partial}

abbrev duplicate_index : JsError
duplicate_index = record {
  is_error = true;
  code = some (codes "ER_DUP_KEYNAME");
  message = codes "Duplicate key name";
}

-- The second script fails after its first statement.
abbrev run_script : Text → List Text → List Text × Outcome JsError (Unit {0})
run_script sql scripts =
    if text_eq sql (codes "half; stop")
    then (scripts ++ codes "half" ∷ [], threw duplicate_index)
    else (scripts ++ sql ∷ [], returned tt)

abbrev runner : Runner (List Text)
runner = record {
  sql_dir = codes "sql";
  directory = codes "002_inbox.sql" ∷ codes "readme.md" ∷ codes "001_outbox.sql" ∷ [];
  read = λ file.
      if text_eq file (codes "001_outbox.sql")
      then some (codes "whole")
      else some (codes "half; stop");
  execute = run_script;
  now = λ name. 7;
  create_fault = none;
  select_fault = none;
  record_fault = λ name. none;
}

abbrev fresh : Database (List Text)
fresh = record { schema = []; tracking = none }

different_names : all_different (get_all_migration_names runner.directory) ≡ true
unfolding get_all_migration_names sort_names insert_name is_before is_migration_file ends_name
    all_different member text_eq select
different_names = refl

fresh-made : made_by runner (names (tracked runner fresh)) [] ≡ some []
unfolding made_by
fresh-made = refl

run_postgres_migrations-Applies_example :
    (pending : List Text) × ((status_of runner fresh).pending ≡ pending)
    × IsPending runner.directory (names (tracked runner fresh)) pending
    × Applies runner []
        (names (tracked runner fresh))
        pending
        (run_postgres_migrations runner fresh)
run_postgres_migrations-Applies_example =
    run_postgres_migrations-Applies runner [] fresh different_names fresh-made

inbox_reads : script runner (codes "002_inbox") ≡ some (codes "half; stop")
unfolding text_eq
inbox_reads = refl

inbox_stops : run_script (codes "half; stop") [] ≡ (codes "half" ∷ [], threw duplicate_index)
unfolding text_eq
inbox_stops = refl

is_duplicate : is_duplicate_key_name duplicate_index ≡ true
unfolding text_eq
is_duplicate = refl

migrate_mysql-leaves_partial_example :
    ((migrate_mysql runner (codes "002_inbox") (script runner (codes "002_inbox")) fresh).1
      ≡ returned tt)
    × ((migrate_mysql runner (codes "002_inbox") (script runner (codes "002_inbox")) fresh).0.schema
        ≡ codes "half" ∷ [])
    × (member
          (codes "002_inbox")
          (status_of runner
            (migrate_mysql runner
              (codes "002_inbox")
              (script runner (codes "002_inbox"))
              fresh).0).pending
        ≡ false)
migrate_mysql-leaves_partial_example =
    migrate_mysql-leaves_partial runner (codes "002_inbox") (codes "half; stop") fresh
      (codes "half" ∷ []) duplicate_index inbox_reads inbox_stops is_duplicate refl
