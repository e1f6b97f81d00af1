-- ===== src/Migrations.antt =====
-- The migration runner: infra/postgres/migrate.js. What a file of SQL makes of the schema of the database
-- is a parameter.
pub mod Reruns
pub mod Names
pub mod Resume
use employee_compliance_saas.Common.{
  String, Bool, true, false, not, ◌&&◌, List, [], ◌∷◌, ◌++◌, if◌then◌else◌, keep, some_is, str_eq,
}
use employee_compliance_saas.Common.Exec.{
  Exception, pg_error, Result, ok, err, Exec, pure, ◌>>=◌, ◌>>◌,
}

-- A row of `schema_migrations`.
pub record Migration : Type 0 where
  pub filename : String
  pub backfilled : Bool

pub record Cluster (Schema : Type 0) : Type 0 where
  pub schema : Schema
  pub migrations : List Migration

abbrev pub is_in : List String → String → Bool
is_in names name = some_is (λ other. str_eq other name) names

abbrev pub is_recorded : List Migration → String → Bool
is_recorded rows file = some_is (λ row. str_eq row.filename file) rows

abbrev pub filenames : List Migration → List String
filenames [] = []
filenames (row ∷ rows) = row.filename ∷ filenames rows

pub record Plan : Type 0 where
  pub backfill : List String
  pub to_apply : List String

abbrev is_nil : List String → Bool
is_nil [] = true
is_nil (_ ∷ _) = false

abbrev pub backfill_of : List String → List String → Bool → List String
backfill_of files applied marker = if is_nil applied && marker then files else []

unfoldable pub plan_migrations : List String → List String → Bool → Plan
plan_migrations files applied marker =
    let backfill = backfill_of files applied marker in
    record {
      backfill = backfill;
      to_apply = keep (λ file. not (is_in (applied ++ backfill) file)) files;
    }

-- INSERT … ON CONFLICT (filename) DO NOTHING
abbrev pub record_backfilled : String → List Migration → List Migration
record_backfilled file rows =
    if is_recorded rows file
    then rows
    else rows ++ record { filename = file; backfilled = true } ∷ []

abbrev pub record_all : List String → List Migration → List Migration
record_all [] rows = rows
record_all (file ∷ files) rows = record_all files (record_backfilled file rows)

-- The INSERT after a file's SQL: `filename` is the primary key.
abbrev pub record_applied : {S : Type 0} → String → Cluster S → S → Result (Unit {0}) × Cluster S
record_applied file c schema =
    if is_recorded c.migrations file then (err (pg_error "23505"), c) else (
      ok tt,
      record {
        schema = schema;
        migrations = c.migrations ++ record { filename = file; backfilled = false } ∷ [];
      },
    )

module _ {S : Type 0} (run_sql : String → S → Result S) (has_marker : S → Bool) where
  -- BEGIN, the SQL of the file, the INSERT, COMMIT; or ROLLBACK, and the exception goes on.
  abbrev pub committed : String → Cluster S → Result S → Result (Unit {0}) × Cluster S
  committed file c (ok schema) = record_applied file c schema
  committed file c (err e) = (err e, c)

  abbrev pub apply_file : String → Exec (Cluster S) (Unit {0})
  apply_file file c = committed file c (run_sql file c.schema)

  unfoldable pub apply_files : List String → Exec (Cluster S) (Unit {0})
  apply_files [] = pure tt
  apply_files (file ∷ files) = do apply_file file; apply_files files

  abbrev pub plan_of : List String → Cluster S → Plan
  plan_of files c = plan_migrations files (filenames c.migrations) (has_marker c.schema)

  -- What follows `CREATE TABLE IF NOT EXISTS schema_migrations`.
  abbrev pub carry_out : Plan → Exec (Cluster S) (Unit {0})
  carry_out plan c =
      apply_files plan.to_apply (record c { migrations = record_all plan.backfill c.migrations })

  -- One run over the files on disk, in their order.
  unfoldable pub migrate : List String → Exec (Cluster S) (Unit {0})
  migrate files c = carry_out (plan_of files c) c
