-- ===== src/Imports/Service.antt =====
-- The upload of a sheet of employees: apps/api/src/import-export/import.service.ts, and the completion
-- job of import-queue.service.ts. The hash of a file and what exceljs reads of it are parameters.
pub mod Frame
pub mod Batch
pub mod Isolation
use Prim.Native.String
use employee_compliance_saas.Common.{
  ℕ, zero, suc, ◌+◌, String, Bool, true, false, not, ◌&&◌, Option, none, some, List, [], ◌∷◌, ◌++◌,
  ◌==◌, ltb, if◌then◌else◌, str_eq, is_some, length, keep, some_is,
}
use employee_compliance_saas.Common.Exec.{
  Exception, bad_request, unauthorized, forbidden, not_found, plain_error, conflict, pg_error,
  Result, ok, err, Exec, pure, throw, ◌>>=◌, ◌>>◌,
}
use employee_compliance_saas.Common.Text.{decimal, comma_joined}
use employee_compliance_saas.Database.Schema.{
  Uuid, Instant, import_batch_completed, success, failed, partial, AuditOutcome, State, number,
  BatchStatus, EmployeeRow, ImportBatchRow, IdempotencyKey, import, Db,
}
use employee_compliance_saas.Database.Session.{
  Postgres, Session, transaction, set_tenant_context, fresh_uuid, now_of, first_or,
  select_employees, select_batches, insert_batch, update_batches,
}
use employee_compliance_saas.Audit.{AuditContext, Entry, log}
use employee_compliance_saas.Employees.{CreateEmployeeDto, UpdateEmployeeDto}
use employee_compliance_saas.Imports.{ImportJob}
use employee_compliance_saas.Imports.Rows.{
  CellValue, RowRecord, build_row_record, Issue, ParsedEmployeeRow, data_of, error_of,
  parse_employee_import_row, employee_code_of,
}
use employee_compliance_saas.Employees

-- A sheet: the headers, printed and trimmed, and the rows that have a cell, with their numbers.
pub record Worksheet : Type 0 where
  pub headers : List (Option String)
  pub rows : List (ℕ × List CellValue)

-- What exceljs makes of a file.
pub data Workbook : Type 0 where
  unparsable : Workbook
  without_sheets : Workbook
  first_sheet : Worksheet → Workbook

pub record ImportRowError : Type 0 where
  pub row : ℕ
  pub employee_code : Option String
  pub message : String

pub record ImportResult : Type 0 where
  pub batch : ImportBatchRow
  pub errors : List ImportRowError

-- What the service uses and does not define.
pub record Outside : Type 0 where
  pub pg : Postgres
  pub sha256 : String → String
  pub load : String → Workbook
  pub is_email : String → Bool
  pub issue_message : Issue → String
  pub pg_message : String → String

abbrev required_headers : List String
required_headers = "employeeCode" ∷ "firstName" ∷ "lastName" ∷ []

abbrev max_import_rows : ℕ
max_import_rows = 5000

abbrev is_header : String → Option String → Bool
is_header name none = false
is_header name (some header) = str_eq header name

abbrev pub row_records : List (Option String) → List (ℕ × List CellValue) → List (ℕ × RowRecord)
row_records headers [] = []
row_records headers ((row, cells) ∷ rows) =
    (row, build_row_record headers cells) ∷ row_records headers rows

abbrev is_nil {ℓ} : {A : Type ℓ} → List A → Bool
is_nil [] = true
is_nil (_ ∷ _) = false

abbrev too_many_rows : ℕ → String
too_many_rows n = String.◌++◌ "File has " (
    String.◌++◌ (decimal n)
      (String.◌++◌ " rows, exceeding the " (String.◌++◌ (decimal max_import_rows) "-row limit")))

module _ (out : Outside) where
  abbrev checked_rows : List (ℕ × RowRecord) → Result (List (ℕ × RowRecord))
  checked_rows rows =
      if is_nil rows
      then err (bad_request "Workbook has no data rows")
      else if ltb max_import_rows (length rows)
      then err (bad_request (too_many_rows (length rows)))
      else ok rows

  abbrev parse_sheet : Worksheet → Result (List (ℕ × RowRecord))
  parse_sheet sheet =
      let missing = keep (λ h. not (some_is (is_header h) sheet.headers)) required_headers in
      if is_nil missing
      then checked_rows (row_records sheet.headers sheet.rows)
      else err (bad_request (String.◌++◌ "Missing required column(s): " (comma_joined missing)))

  unfoldable pub parse_workbook : Workbook → Result (List (ℕ × RowRecord))
  parse_workbook unparsable =
      err (bad_request "Could not parse the uploaded file as an .xlsx workbook")
  parse_workbook without_sheets = err (bad_request "Workbook has no worksheets")
  parse_workbook (first_sheet sheet) = parse_sheet sheet

  -- `err.message`
  abbrev pub message_of : Exception → String
  message_of (bad_request text) = text
  message_of (unauthorized text) = text
  message_of (forbidden text) = text
  message_of (not_found text) = text
  message_of (plain_error text) = text
  message_of (conflict text detail) = text
  message_of (pg_error code) = out.pg_message code

  module _ (tenant : Uuid) (now : Instant) (context : AuditContext) where
    abbrev pub update_dto : CreateEmployeeDto → EmployeeRow → UpdateEmployeeDto
    update_dto dto existing = record {
      first_name = some dto.first_name;
      last_name = some dto.last_name;
      email = dto.email;
      department = dto.department;
      job_title = dto.job_title;
      branch = dto.branch;
      responsible_officer_id = dto.responsible_officer_id;
      version = existing.version;
    }

    abbrev pub discard : {A : Type 0} → Exec Db A → Exec Db (Unit {0})
    discard m = m >>= λ _. pure tt

    unfoldable pub upsert_over : CreateEmployeeDto → List EmployeeRow → Exec Db (Unit {0})
    upsert_over dto [] = discard (Employees.create out.pg tenant now dto context)
    upsert_over dto (existing ∷ _) =
        if is_some existing.deleted_at
        then throw (plain_error "employee_code belongs to an archived employee")
        else discard
            (Employees.update out.pg tenant now existing.id (update_dto dto existing) context)

    unfoldable pub find_by_code : String → Exec Db (List EmployeeRow)
    find_by_code code = transaction now (
        set_tenant_context tenant
        >> select_employees (λ e. e.tenant_id == tenant && str_eq e.employee_code code))

    unfoldable pub upsert_employee_row : CreateEmployeeDto → Exec Db (Unit {0})
    unfolding find_by_code
    upsert_employee_row dto = find_by_code dto.employee_code >>= upsert_over dto

    abbrev pub row_error : ℕ → RowRecord → String → ImportRowError
    row_error row values message = record {
      row = row;
      employee_code = employee_code_of values;
      message = message;
    }

    -- The error of a row, if it has one.
    abbrev pub caught : ℕ → RowRecord → Result (Unit {0}) × Db → Option ImportRowError × Db
    caught row values (ok _, db) = (none, db)
    caught row values (err e, db) = (some (row_error row values (message_of e)), db)

    abbrev pub import_parsed : ℕ → RowRecord → ParsedEmployeeRow → Db → Option ImportRowError × Db
    import_parsed row values (data_of dto) db = caught row values (upsert_employee_row dto db)
    import_parsed row values (error_of message) db = (some (row_error row values message), db)

    unfoldable pub import_row : ℕ × RowRecord → Db → Option ImportRowError × Db
    import_row (row, values) db =
        import_parsed row values (parse_employee_import_row out.is_email out.issue_message values)
          db

    -- `processedRows` and `errors`, with one row's outcome put before those of the later rows.
    abbrev pub tally : Option ImportRowError → ℕ × List ImportRowError → ℕ × List ImportRowError
    tally none (processed, errors) = (suc processed, errors)
    tally (some e) (processed, errors) = (processed, e ∷ errors)

    unfoldable pub import_rows : List (ℕ × RowRecord) → Db → (ℕ × List ImportRowError) × Db
    unfolding import_row
    import_rows [] db = ((0, []), db)
    import_rows (r ∷ rs) db =
        let (outcome, after) = import_row r db in
        let (counts, done) = import_rows rs after in (tally outcome counts, done)

    abbrev pub same_hash : String → ImportBatchRow → Bool
    same_hash hash b = b.tenant_id == tenant && str_eq b.file_hash hash

    unfoldable pub find_existing_batch : String → Exec Db (List ImportBatchRow)
    find_existing_batch hash =
        transaction now (set_tenant_context tenant >> select_batches (same_hash hash))

    abbrev pub new_batch : Uuid → ℕ → String → String → ImportBatchRow
    new_batch id total hash actor = record {
      import_batch_id = id;
      tenant_id = tenant;
      status = BatchStatus.processing;
      total_rows = total;
      processed_rows = 0;
      error_rows = 0;
      file_hash = hash;
      created_at = now;
      completed_at = none;
      created_by = some actor;
    }

    insert_in : ℕ → String → String → Exec Session ImportBatchRow
    insert_in total hash actor = do
      id ← fresh_uuid out.pg
      insert_batch (new_batch id total hash actor)

    abbrev pub outcome_of : ℕ → ℕ → AuditOutcome
    outcome_of error_rows processed =
        if error_rows == 0 then success else if processed == 0 then failed else partial

    abbrev pub set_completed : ℕ → ℕ → ImportBatchRow → ImportBatchRow
    set_completed processed error_rows b = record b {
      status = BatchStatus.completed;
      processed_rows = processed;
      error_rows = error_rows;
      completed_at = some now;
    }

    abbrev pub completed_entry : ImportBatchRow → ℕ → ℕ → ℕ → Entry
    completed_entry batch total processed error_rows = record {
      context = context;
      action = import_batch_completed;
      entity_type = "import_batch";
      entity_id = some batch.import_batch_id;
      before_state = none;
      after_state = some (
          ("totalRows", number total)
          ∷ ("processedRows", number processed)
          ∷ ("errorRows", number error_rows)
          ∷ []);
      outcome = outcome_of error_rows processed;
      reason = none;
    }

    complete_in : ImportBatchRow → ℕ → ℕ → ℕ → Exec Session (List ImportBatchRow)
    complete_in batch total processed error_rows = do
      updated ←
          update_batches (λ b. b.import_batch_id == batch.import_batch_id)
            (set_completed processed error_rows)
      log out.pg (completed_entry batch total processed error_rows)
      pure updated

    unfoldable pub insert_new_batch : ℕ → String → String → Exec Db ImportBatchRow
    unfolding insert_in
    insert_new_batch total hash actor =
        transaction now (set_tenant_context tenant >> insert_in total hash actor)

    unfoldable pub complete_batch : ImportBatchRow → ℕ → ℕ → ℕ → Exec Db (List ImportBatchRow)
    unfolding complete_in
    complete_batch batch total processed error_rows =
        transaction now (set_tenant_context tenant >> complete_in batch total processed error_rows)

abbrev first_of : List ImportBatchRow → Option ImportBatchRow
first_of [] = none
first_of (batch ∷ _) = some batch

find_in : Uuid → Uuid → Exec Session (Option ImportBatchRow)
find_in tenant id = do
  rows ← select_batches (λ b. b.import_batch_id == id && b.tenant_id == tenant)
  pure (first_of rows)

unfoldable pub find_batch : Uuid → Uuid → Instant → Exec Db (Option ImportBatchRow)
unfolding find_in
find_batch tenant id now = transaction now (set_tenant_context tenant >> find_in tenant id)
