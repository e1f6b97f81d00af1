-- ===== src/Imports/Service/Isolation.antt =====
-- Tenant isolation of the steps of an import: the rows, and the batch.
use employee_compliance_saas.Common.{ℕ, ◌≡◌, ◌∙◌, String, List, [], ◌∷◌, ◌==◌, ◌&&◌, str_eq}
use employee_compliance_saas.Common.Exec.{Result, ok, err, Exec}
use employee_compliance_saas.Common.Exec.Keeps.{Keeps, >>=-Keeps, keeps_rules}
use employee_compliance_saas.Database.Schema.{Uuid, Instant, Db, EmployeeRow, ImportBatchRow}
use employee_compliance_saas.Database.Session.{select_employees, select_batches}
use employee_compliance_saas.Database.Isolation.{others, tenant_rules, others-transaction}
use employee_compliance_saas.Audit.{AuditContext}
use employee_compliance_saas.Audit.Write.{log-InTenant}
use employee_compliance_saas.Employees.{CreateEmployeeDto, UpdateEmployeeDto}
use employee_compliance_saas.Employees.Isolation.{others-create, others-update}
use employee_compliance_saas.Imports.Rows.{
  RowRecord, ParsedEmployeeRow, data_of, error_of, parse_employee_import_row,
}
use employee_compliance_saas.Imports.Service.{
  Outside, upsert_over, find_by_code, upsert_employee_row, caught, import_parsed, import_row,
  import_rows, same_hash, find_existing_batch, insert_in, insert_new_batch, complete_in,
  complete_batch,
}
use employee_compliance_saas.Employees

-- The other tenants' rows are those of `o`.
pub record IsApart (t : Uuid) (o db : Db) : Type 0 where
  pub unchanged : others t db ≡ o

module _ (out : Outside) (t : Uuid) (now : Instant) (context : AuditContext) {o : Db} where
  pub transaction-IsApart :
      {A : Type 0} (call : Exec Db A)
      → ((db : Db) → others t (call db).1 ≡ others t db)
      → Keeps (IsApart t o) call
  transaction-IsApart call same = record {
    at = λ db h. record { unchanged = same db ∙ h.unchanged };
  }

  find_by_code-IsApart : (code : String) → Keeps (IsApart t o) (find_by_code out t now context code)
  unfolding find_by_code
  find_by_code-IsApart code = transaction-IsApart (find_by_code out t now context code) (λ db.
      others-transaction t now
        (select_employees (λ e. e.tenant_id == t && str_eq e.employee_code code)) db
        (search tenant_rules depth 8))

  pub find_existing_batch-IsApart :
      (hash : String) → Keeps (IsApart t o) (find_existing_batch out t now context hash)
  unfolding find_existing_batch
  find_existing_batch-IsApart hash =
      transaction-IsApart (find_existing_batch out t now context hash) (λ db.
        others-transaction t now (select_batches (same_hash out t now context hash)) db
          (search tenant_rules depth 8))

  pub insert_new_batch-IsApart :
      (total : ℕ) (hash actor : String)
      → Keeps (IsApart t o) (insert_new_batch out t now context total hash actor)
  unfolding insert_new_batch insert_in
  insert_new_batch-IsApart total hash actor =
      transaction-IsApart (insert_new_batch out t now context total hash actor) (λ db.
        others-transaction t now (insert_in out t now context total hash actor) db
          (search tenant_rules depth 10))

  module _ (own : context.tenant_id ≡ t) where
    pub complete_batch-IsApart :
        (batch : ImportBatchRow) (total processed error_rows : ℕ)
        → Keeps (IsApart t o) (complete_batch out t now context batch total processed error_rows)
    unfolding complete_batch complete_in
    complete_batch-IsApart batch total processed error_rows =
        transaction-IsApart (complete_batch out t now context batch total processed error_rows)
          (λ db.
            others-transaction t now
              (complete_in out t now context batch total processed error_rows) db
              (search (tenant_rules, log-InTenant) depth 12))

    create-IsApart :
        (dto : CreateEmployeeDto) → Keeps (IsApart t o) (Employees.create out.pg t now dto context)
    create-IsApart dto =
        transaction-IsApart (Employees.create out.pg t now dto context)
          (others-create out.pg t now context own dto)

    update-IsApart :
        (id : Uuid) (dto : UpdateEmployeeDto)
        → Keeps (IsApart t o) (Employees.update out.pg t now id dto context)
    update-IsApart id dto =
        transaction-IsApart (Employees.update out.pg t now id dto context)
          (others-update out.pg t now context own id dto)

    upsert_over-IsApart :
        (dto : CreateEmployeeDto) (found : List EmployeeRow)
        → Keeps (IsApart t o) (upsert_over out t now context dto found)
    unfolding upsert_over
    upsert_over-IsApart dto [] = search (keeps_rules, create-IsApart) depth 8
    upsert_over-IsApart dto (existing ∷ rest) = search (keeps_rules, update-IsApart) depth 8

    upsert_employee_row-IsApart :
        (dto : CreateEmployeeDto) → Keeps (IsApart t o) (upsert_employee_row out t now context dto)
    unfolding upsert_employee_row
    upsert_employee_row-IsApart dto =
        >>=-Keeps (find_by_code out t now context dto.employee_code)
          (upsert_over out t now context dto) (find_by_code-IsApart dto.employee_code)
          (upsert_over-IsApart dto)

    caught-IsApart :
        (row : ℕ) (values : RowRecord) (r : Result (Unit {0})) (db : Db)
        → IsApart t o db
        → IsApart t o (caught out t now context row values (r, db)).1
    caught-IsApart row values (ok a) db h = h
    caught-IsApart row values (err e) db h = h

    import_parsed-IsApart :
        (row : ℕ) (values : RowRecord) (parsed : ParsedEmployeeRow) (db : Db)
        → IsApart t o db
        → IsApart t o (import_parsed out t now context row values parsed db).1
    import_parsed-IsApart row values (error_of message) db h = h
    import_parsed-IsApart row values (data_of dto) db h =
        let (r, after) = upsert_employee_row out t now context dto db in
        caught-IsApart row values r after ((upsert_employee_row-IsApart dto).at db h)

    pub import_rows-IsApart :
        (rows : List (ℕ × RowRecord)) (db : Db)
        → IsApart t o db
        → IsApart t o (import_rows out t now context rows db).1
    unfolding import_rows import_row
    import_rows-IsApart [] db h = h
    import_rows-IsApart ((row, values) ∷ rows) db h =
        import_rows-IsApart rows (import_row out t now context (row, values) db).1 (
          import_parsed-IsApart row values
            (parse_employee_import_row out.is_email out.issue_message values) db h)
