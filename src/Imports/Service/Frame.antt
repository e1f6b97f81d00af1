-- ===== src/Imports/Service/Frame.antt =====
-- The import of the rows leaves the import batches alone.
use employee_compliance_saas.Common.{
  ℕ, ◌≡◌, refl, ◌∙◌, some, List, [], ◌∷◌, is_some, Bool-cases, inl, inr, ◌==◌, ◌&&◌, str_eq,
}
use employee_compliance_saas.Common.Exec.{Result, ok, err, Exec, resume}
use employee_compliance_saas.Database.Schema.{Uuid, Instant, Db, EmployeeRow}
use employee_compliance_saas.Database.Table.{select}
use employee_compliance_saas.Audit.{AuditContext}
use employee_compliance_saas.Employees.{CreateEmployeeDto}
use employee_compliance_saas.Employees.Batches.{batches-create, batches-update}
use employee_compliance_saas.Imports.Rows.{
  RowRecord, ParsedEmployeeRow, data_of, error_of, parse_employee_import_row,
}
use employee_compliance_saas.Imports.Service.{
  Outside, upsert_over, find_by_code, upsert_employee_row, update_dto, import_parsed, caught,
  discard, import_row, import_rows,
}
use employee_compliance_saas.Employees

module _ (out : Outside) (tenant : Uuid) (now : Instant) (context : AuditContext) where
  batches-discard :
      {A : Type 0} (m : Exec Db A) (db : Db)
      → (m db).1.import_batches ≡ db.import_batches
      → (discard out tenant now context m db).1.import_batches ≡ db.import_batches
  batches-discard {A = A} m db h = let (r, after) = m db in go r after h
    where
      go :
          (r : Result A) (after : Db)
          → after.import_batches ≡ db.import_batches
          → (resume (λ _ db. (ok tt, db)) (r, after)).1.import_batches ≡ db.import_batches
      go (ok a) after h = h
      go (err e) after h = h

  batches-upsert_over :
      (dto : CreateEmployeeDto) (found : List EmployeeRow) (db : Db)
      → (upsert_over out tenant now context dto found db).1.import_batches ≡ db.import_batches
  unfolding upsert_over
  batches-upsert_over dto [] db =
      batches-discard (Employees.create out.pg tenant now dto context) db
        (batches-create out.pg tenant now context db dto)
  batches-upsert_over dto (existing ∷ rest) db = elim (Bool-cases (is_some existing.deleted_at)) [
    | inl e ↦ rw e refl
    | inr e ↦ rw e (
        batches-discard
          (Employees.update out.pg tenant now existing.id
            (update_dto out tenant now context dto existing) context)
          db
          (batches-update out.pg tenant now context db existing.id
            (update_dto out tenant now context dto existing)))
  ]

  batches-import_parsed :
      (row : ℕ) (values : RowRecord) (parsed : ParsedEmployeeRow) (db : Db)
      → (import_parsed out tenant now context row values parsed db).1.import_batches
        ≡ db.import_batches
  unfolding upsert_employee_row find_by_code
  batches-import_parsed row values (error_of message) db = refl
  batches-import_parsed row values (data_of dto) db =
      let (r, after) = upsert_employee_row out tenant now context dto db in
      go r after (
        batches-upsert_over dto
          (select (λ (e : EmployeeRow). e.tenant_id) (some tenant)
            (λ e. e.tenant_id == tenant && str_eq e.employee_code dto.employee_code) db.employees)
          db)
    where
      go :
          (r : Result (Unit {0})) (after : Db)
          → after.import_batches ≡ db.import_batches
          → (caught out tenant now context row values (r, after)).1.import_batches
            ≡ db.import_batches
      go (ok a) after h = h
      go (err e) after h = h

  pub batches-import_rows :
      (rows : List (ℕ × RowRecord)) (db : Db)
      → (import_rows out tenant now context rows db).1.import_batches ≡ db.import_batches
  unfolding import_rows import_row
  batches-import_rows [] db = refl
  batches-import_rows ((row, values) ∷ rs) db =
      let (outcome, after) = import_row out tenant now context (row, values) db in
      batches-import_rows rs after
      ∙ batches-import_parsed row values
          (parse_employee_import_row out.is_email out.issue_message values) db
