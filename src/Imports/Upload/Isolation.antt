-- ===== src/Imports/Upload/Isolation.antt =====
-- Tenant isolation of an import as a whole.
use employee_compliance_saas.Common.{ℕ, ◌≡◌, refl, String, List, [], ◌∷◌}
use employee_compliance_saas.Common.Exec.{Result, ok, err, Exec}
use employee_compliance_saas.Common.Exec.Keeps.{Keeps, keeps_rules}
use employee_compliance_saas.Database.Schema.{Uuid, Instant, Db, ImportBatchRow}
use employee_compliance_saas.Database.Isolation.{others}
use employee_compliance_saas.Audit.{AuditContext}
use employee_compliance_saas.Imports.Rows.{RowRecord}
use employee_compliance_saas.Imports.Service.{Outside, parse_workbook, import_rows}
use employee_compliance_saas.Imports.Service.Isolation.{
  IsApart, find_existing_batch-IsApart, insert_new_batch-IsApart, complete_batch-IsApart,
  import_rows-IsApart,
}
use employee_compliance_saas.Imports.Upload.{
  Uploads, in_db, returned, first_batch, enqueue_completion, import_into, import_sheet,
  import_unless_known, import_employees,
}

pub record UploadsApart (t : Uuid) (o : Db) (u : Uploads) : Type 0 where
  pub inside : IsApart t o u.db

module _ {t : Uuid} {o : Db} where
  pub in_db-UploadsApart :
      {A : Type 0} (m : Exec Db A) → Keeps (IsApart t o) m → Keeps (UploadsApart t o) (in_db m)
  in_db-UploadsApart m k = record { at = λ u h. record { inside = k.at u.db h.inside } }

  first_batch-UploadsApart :
      (rows : List ImportBatchRow) → Keeps (UploadsApart t o) (first_batch rows)
  first_batch-UploadsApart [] = search keeps_rules
  first_batch-UploadsApart (batch ∷ rest) = search keeps_rules

module _ (out : Outside) (t : Uuid) (now : Instant) (context : AuditContext) (actor : String)
    (own : context.tenant_id ≡ t) where
  enqueue-UploadsApart :
      {o : Db} (batch : ImportBatchRow) (rows : ℕ)
      → Keeps (UploadsApart t o) (enqueue_completion out t now context actor batch rows)
  enqueue-UploadsApart batch rows = record { at = λ u h. record { inside = h.inside } }

  rows-UploadsApart :
      {o : Db} (rows : List (ℕ × RowRecord))
      → Keeps (UploadsApart t o) (in_db (λ db. returned (import_rows out t now context rows db)))
  rows-UploadsApart rows = record {
    at = λ u h. record { inside = import_rows-IsApart out t now context own rows u.db h.inside };
  }

  ruleset upload_rules = (
    keeps_rules, in_db-UploadsApart, first_batch-UploadsApart, enqueue-UploadsApart,
    rows-UploadsApart, find_existing_batch-IsApart, insert_new_batch-IsApart,
    complete_batch-IsApart,
  )

  import_into-UploadsApart :
      {o : Db} (rows : List (ℕ × RowRecord)) (batch : ImportBatchRow)
      → Keeps (UploadsApart t o) (import_into out t now context actor rows batch)
  unfolding import_into
  import_into-UploadsApart rows batch = search upload_rules depth 12

  import_sheet-UploadsApart :
      {o : Db} (hash : String) (parsed : Result (List (ℕ × RowRecord)))
      → Keeps (UploadsApart t o) (import_sheet out t now context actor hash parsed)
  unfolding import_sheet
  import_sheet-UploadsApart hash (err e) = search upload_rules
  import_sheet-UploadsApart hash (ok rows) =
      search (upload_rules, import_into-UploadsApart) depth 12

  import_unless_known-UploadsApart :
      {o : Db} (file : String) (found : List ImportBatchRow)
      → Keeps (UploadsApart t o) (import_unless_known out t now context actor file found)
  import_unless_known-UploadsApart file [] =
      import_sheet-UploadsApart (out.sha256 file) (parse_workbook out (out.load file))
  import_unless_known-UploadsApart file (batch ∷ rest) = search upload_rules

  pub import_employees-UploadsApart :
      {o : Db} (file : String)
      → Keeps (UploadsApart t o) (import_employees out t now context actor file)
  unfolding import_employees
  import_employees-UploadsApart file =
      search (upload_rules, import_unless_known-UploadsApart) depth 12

  -- An import in the tenant's name changes no row of another tenant in any table, whatever is in the
  -- file, and whether or not the call throws. The condition: the audit context names the tenant.
  pub import_isolated :
      (file : String) (uploads : Uploads)
      → others t (import_employees out t now context actor file uploads).1.db ≡ others t uploads.db
  import_isolated file uploads =
      ((import_employees-UploadsApart file).at uploads
        (record { inside = record { unchanged = refl } })).inside.unchanged
