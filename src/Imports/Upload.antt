-- ===== src/Imports/Upload.antt =====
-- `importEmployees` of apps/api/src/import-export/import.service.ts as a whole, over a world of the
-- database and the queue of completion jobs.
pub mod Counts
pub mod Isolation
pub mod Replay
use employee_compliance_saas.Common.{ℕ, String, Option, none, some, List, [], ◌∷◌, ◌++◌, length}
use employee_compliance_saas.Common.Exec.{
  Exception, plain_error, Result, ok, err, Exec, pure, throw, modify, ◌>>=◌, ◌>>◌,
}
use employee_compliance_saas.Database.Schema.{Uuid, Instant, ImportBatchRow, import, Db}
use employee_compliance_saas.Audit.{AuditContext}
use employee_compliance_saas.Imports.{ImportJob}
use employee_compliance_saas.Imports.Rows.{RowRecord}
use employee_compliance_saas.Imports.Service.{
  Outside, ImportRowError, ImportResult, parse_workbook, import_rows, find_existing_batch,
  insert_new_batch, complete_batch,
}

pub record Uploads : Type 0 where
  pub db : Db
  pub queue : List ImportJob

abbrev pub with_db : {A : Type 0} → Uploads → Result A × Db → Result A × Uploads
with_db u (r, db) = (r, record u { db = db })

abbrev pub in_db : {A : Type 0} → Exec Db A → Exec Uploads A
in_db m u = with_db u (m u.db)

abbrev pub returned : {A : Type 0} → A × Db → Result A × Db
returned (a, db) = (ok a, db)

abbrev pub first_batch : List ImportBatchRow → Exec Uploads ImportBatchRow
first_batch [] = throw (plain_error "Import batch update did not return a row")
first_batch (batch ∷ _) = pure batch

module _ (out : Outside) (tenant : Uuid) (now : Instant) (context : AuditContext)
    (actor : String) where
  abbrev pub completion_job : ImportBatchRow → ℕ → ImportJob
  completion_job batch rows = record {
    tenant_id = tenant;
    idempotency_key = import batch.import_batch_id;
    row_count = rows;
  }

  abbrev pub enqueue_completion : ImportBatchRow → ℕ → Exec Uploads (Unit {0})
  enqueue_completion batch rows =
      modify (λ u. record u { queue = u.queue ++ completion_job batch rows ∷ [] })

  -- What follows the insertion of the batch.
  unfoldable pub import_into : List (ℕ × RowRecord) → ImportBatchRow → Exec Uploads ImportResult
  import_into rows batch = do
    counts ← in_db (λ db. returned (import_rows out tenant now context rows db))
    updated ←
        in_db (complete_batch out tenant now context batch (length rows) counts.0 (length counts.1))
    completed ← first_batch updated
    enqueue_completion batch (length rows)
    pure (record { batch = completed; errors = counts.1 })

  unfoldable pub import_sheet : String → Result (List (ℕ × RowRecord)) → Exec Uploads ImportResult
  import_sheet hash (err e) = throw e
  import_sheet hash (ok rows) =
      in_db (insert_new_batch out tenant now context (length rows) hash actor) >>= import_into rows

  abbrev pub import_unless_known : String → List ImportBatchRow → Exec Uploads ImportResult
  import_unless_known file (batch ∷ _) = pure (record { batch = batch; errors = [] })
  import_unless_known file [] = import_sheet (out.sha256 file) (parse_workbook out (out.load file))

  unfoldable pub import_employees : String → Exec Uploads ImportResult
  import_employees file =
      in_db (find_existing_batch out tenant now context (out.sha256 file))
      >>= import_unless_known file
