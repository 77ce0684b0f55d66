-- ===== src/Migrations/Partial.antt =====
-- What MySQL makes of a script that stops.
use mathlib.Core.Bool.{true≢false}
use outboxy.Base.{
  ℕ, ◌≡◌, refl, sym, ap, ◌∙◌, true, false, not, List, [], ◌∷◌, none, some, Text, member,
  member-append, text_eq, text_eq_self, text_eq_iff, select, arith, Bool-cases, inl, inr,
}
use outboxy.Dialect.{JsError, returned, threw}
use outboxy.Migrations.Names.{get_all_migration_names}
use outboxy.Migrations.Lists.{names-append, member-order}
use outboxy.Migrations.{
  MigrationRow, Database, Runner, names, record_name, is_duplicate_key_name, script, tracked,
  status_of, recorded, keep, migrate_mysql,
}

member-record_name :
    (name : Text) (now : ℕ) (rows : List MigrationRow)
    → member name (names (record_name name now rows)) ≡ true
unfolding record_name member
member-record_name name now rows = elim (Bool-cases (member name (names rows))) [
  | inl there ↦ rw there there
  | inr new ↦
      rw (new, names-append rows (record { name = name; applied_at = now } ∷ []))
        (ground (arith, member-append name (names rows) (name ∷ []), text_eq_self name))
]

-- What stands among the applied is not pending.
not_pending :
    (name : Text) (applied all : List Text)
    → member name applied ≡ true
    → member name (select (λ n. not (member n applied)) all) ≡ false
unfolding select member
not_pending name applied [] there = refl
not_pending name applied (n ∷ all) there = elim (Bool-cases (member n applied)) [
  | inl known ↦ rw known (not_pending name applied all there)
  | inr new ↦ elim (Bool-cases (text_eq n name)) [
    | inl same ↦ absurd (
        true≢false
          (sym there ∙ ap (λ t. member t applied) (sym ((text_eq_iff n name).0 same)) ∙ new))
    | inr other ↦ rw new (rw other (not_pending name applied all there))
  ]
]

-- A script on MySQL that stops at an index that exists is taken as applied, although none of its later
-- statements was run: the run goes on, the schema is the one at the error, and the migration is no longer
-- pending, so that no later run takes it up. Its file is read, and the insert of its name works.
pub migrate_mysql-leaves_partial {ℓ} :
    {S : Type ℓ} (m : Runner S) (name sql : Text) (db : Database S) (schema : S) (e : JsError)
    → script m name ≡ some sql
    → m.execute sql db.schema ≡ (schema, threw e)
    → is_duplicate_key_name e ≡ true
    → m.record_fault name ≡ none
    → ((migrate_mysql m name (script m name) db).1 ≡ returned tt)
      × ((migrate_mysql m name (script m name) db).0.schema ≡ schema)
      × (member name (status_of m (migrate_mysql m name (script m name) db).0).pending ≡ false)
unfolding migrate_mysql keep recorded status_of
migrate_mysql-leaves_partial m name sql db schema e read stops duplicate works =
    rw (read, stops, keep, duplicate, recorded, works)
      (
        refl,
        ap (λ p. p.0) stops,
        not_pending name _ (get_all_migration_names m.directory) (
            member-order name (record_name name (m.now name) (tracked m db))
            ∙ member-record_name name (m.now name) (tracked m db)),
      )
