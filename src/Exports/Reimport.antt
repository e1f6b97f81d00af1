-- ===== src/Exports/Reimport.antt =====
-- An exported sheet, uploaded again: export.service.ts and import.service.ts of
-- apps/api/src/import-export together.
use employee_compliance_saas.Common.{
  ℕ, ◌+◌, suc, ◌≡◌, refl, ap, ◌≤◌, String, Bool, true, false, ◌&&◌, Option, none, some, List, [],
  ◌∷◌, map, arith, leb, ltb, ◌==◌, length, keep, is_none, or_default, All,
}
use employee_compliance_saas.Common.Exec.{Result, ok, err}
use employee_compliance_saas.Common.Text.{trim, is_empty}
use employee_compliance_saas.Database.Schema.{Uuid, Instant, EmployeeRow, Db}
use employee_compliance_saas.Employees.{CreateEmployeeDto}
use employee_compliance_saas.Exports.{
  WrittenSheet, export_columns, exported_row, exported_sheet, export_employees,
}
use employee_compliance_saas.Imports.Rows.{
  CellValue, empty, plain, RowRecord, normalize_cell_value, build_row_record, units,
  ParsedEmployeeRow, data_of, parse_employee_import_row, required_issue, optional_issue,
  email_issue,
}
use employee_compliance_saas.Imports.Service.{
  Outside, Worksheet, first_sheet, parse_workbook, row_records,
}

-- What is read of a written cell.
abbrev pub read_cell : Option String → CellValue
read_cell none = empty
read_cell (some s) = plain s

abbrev pub numbered : ℕ → List (List (Option String)) → List (ℕ × List CellValue)
numbered n [] = []
numbered n (cells ∷ rows) = (n, map read_cell cells) ∷ numbered (n + 1) rows

-- What exceljs reads of a sheet that it has written: the headers in row 1, and the rows from row 2 on.
abbrev pub read_sheet : WrittenSheet → Worksheet
read_sheet sheet = record { headers = map some sheet.headers; rows = numbered 2 sheet.rows }

-- A text that the sheet gives back as it is, and the schema takes.
abbrev pub IsKept : ℕ → String → Type 0
IsKept most s = (trim s ≡ s) × (is_empty s ≡ false) × (leb (units s) most ≡ true)

abbrev pub IsKeptOption : ℕ → Option String → Type 0
IsKeptOption most none = Unit
IsKeptOption most (some s) = IsKept most s

abbrev pub IsKeptName : Option String → Type 0
IsKeptName none = ⊥
IsKeptName (some s) = IsKept 128 s

abbrev pub IsKeptMail : (String → Bool) → Option String → Type 0
IsKeptMail is_email none = Unit
IsKeptMail is_email (some s) = (trim s ≡ s) × (is_empty s ≡ false) × (is_email s ≡ true)

-- An employee as the schemas of the API accept one, with texts that are trimmed and not empty.
pub record IsReadable (is_email : String → Bool) (e : EmployeeRow) : Type 0 where
  pub employee_code : IsKept 64 e.employee_code
  pub first_name : IsKeptName e.first_name
  pub last_name : IsKeptName e.last_name
  pub email : IsKeptMail is_email e.email
  pub department : IsKeptOption 128 e.department
  pub job_title : IsKeptOption 128 e.job_title
  pub branch : IsKeptOption 128 e.branch
  pub responsible_officer_id : IsKeptOption 128 e.responsible_officer_id

-- The employee as the import would create it.
abbrev pub dto_of : EmployeeRow → CreateEmployeeDto
dto_of e = record {
  employee_code = e.employee_code;
  first_name = or_default e.first_name "";
  last_name = or_default e.last_name "";
  email = e.email;
  department = e.department;
  job_title = e.job_title;
  branch = e.branch;
  responsible_officer_id = e.responsible_officer_id;
}

abbrev record_of : EmployeeRow → RowRecord
record_of e =
    ("responsibleOfficerId", e.responsible_officer_id)
    ∷ ("branch", e.branch)
    ∷ ("jobTitle", e.job_title)
    ∷ ("department", e.department)
    ∷ ("email", e.email)
    ∷ ("lastName", e.last_name)
    ∷ ("firstName", e.first_name)
    ∷ ("employeeCode", some e.employee_code)
    ∷ []

kept_cell : (most : ℕ) (s : String) → IsKept most s → normalize_cell_value (plain s) ≡ some s
unfolding normalize_cell_value
kept_cell most s (same, filled, _) = rw (same, filled)

kept_option :
    (most : ℕ) (o : Option String) → IsKeptOption most o → normalize_cell_value (read_cell o) ≡ o
unfolding normalize_cell_value
kept_option most none h = refl
kept_option most (some s) h = kept_cell most s h

kept_name : (o : Option String) → IsKeptName o → normalize_cell_value (read_cell o) ≡ o
kept_name none h = absurd h
kept_name (some s) h = kept_cell 128 s h

kept_mail :
    (is_email : String → Bool) (o : Option String)
    → IsKeptMail is_email o
    → normalize_cell_value (read_cell o) ≡ o
unfolding normalize_cell_value
kept_mail is_email none h = refl
kept_mail is_email (some s) (same, filled, _) = rw (same, filled)

module _ (out : Outside) (e : EmployeeRow) (h : IsReadable out.is_email e) where
  read_row :
      build_row_record (map some export_columns) (map read_cell (exported_row e)) ≡ record_of e
  unfolding build_row_record
  read_row = rw (
    kept_cell 64 e.employee_code h.employee_code,
    kept_name e.first_name h.first_name,
    kept_name e.last_name h.last_name,
    kept_mail out.is_email e.email h.email,
    kept_option 128 e.department h.department,
    kept_option 128 e.job_title h.job_title,
    kept_option 128 e.branch h.branch,
    kept_option 128 e.responsible_officer_id h.responsible_officer_id,
  )

required_name : (o : Option String) → IsKeptName o → required_issue 128 o ≡ none
required_name none h = absurd h
required_name (some s) (_, filled, short) = rw (filled, short)

no_issue : (o : Option String) → IsKeptOption 128 o → optional_issue 128 o ≡ none
no_issue none h = refl
no_issue (some s) (_, _, short) = rw short

no_mail_issue :
    (is_email : String → Bool) (o : Option String)
    → IsKeptMail is_email o
    → email_issue is_email o ≡ none
no_mail_issue is_email none h = refl
no_mail_issue is_email (some s) (_, _, valid) = rw valid

module _ (out : Outside) where
  parsed_record :
      (e : EmployeeRow)
      → IsReadable out.is_email e
      → parse_employee_import_row out.is_email out.issue_message (record_of e) ≡ data_of (dto_of e)
  unfolding parse_employee_import_row
  parsed_record e h = rw (
    h.employee_code.1,
    h.employee_code.2,
    required_name e.first_name h.first_name,
    required_name e.last_name h.last_name,
    no_mail_issue out.is_email e.email h.email,
    no_issue e.department h.department,
    no_issue e.job_title h.job_title,
    no_issue e.branch h.branch,
    no_issue e.responsible_officer_id h.responsible_officer_id,
  )

  -- The rows of a file as the import reads and parses them.
  abbrev pub parsed_rows : List (ℕ × RowRecord) → List (ℕ × ParsedEmployeeRow)
  parsed_rows [] = []
  parsed_rows ((n, values) ∷ rows) =
      (n, parse_employee_import_row out.is_email out.issue_message values) ∷ parsed_rows rows

  abbrev pub parsed_file : Result (List (ℕ × RowRecord)) → Result (List (ℕ × ParsedEmployeeRow))
  parsed_file (ok rows) = ok (parsed_rows rows)
  parsed_file (err e) = err e

  abbrev pub dtos : ℕ → List EmployeeRow → List (ℕ × ParsedEmployeeRow)
  dtos n [] = []
  dtos n (e ∷ es) = (n, data_of (dto_of e)) ∷ dtos (n + 1) es

  abbrev sheet_rows : ℕ → List EmployeeRow → List (ℕ × RowRecord)
  sheet_rows n es = row_records (map some export_columns) (numbered n (map exported_row es))

  read_rows :
      (n : ℕ) (es : List EmployeeRow)
      → All (IsReadable out.is_email) es
      → parsed_rows (sheet_rows n es) ≡ dtos n es
  read_rows n [] h = refl
  read_rows n (e ∷ es) (p, h) = rw (read_row out e p, parsed_record e p, read_rows (n + 1) es h)

  length-sheet_rows : (n : ℕ) (es : List EmployeeRow) → length (sheet_rows n es) ≡ length es
  length-sheet_rows n [] = refl
  length-sheet_rows n (e ∷ es) = ap suc (length-sheet_rows (n + 1) es)

  -- The employees that an export writes.
  abbrev pub exported : Uuid → Db → List EmployeeRow
  exported t db = keep (λ e. e.tenant_id == t && is_none e.deleted_at) db.employees

  read_sheet_lem :
      (es : List EmployeeRow)
      → All (IsReadable out.is_email) es
      → 1 ≤ length es
      → length es ≤ 5000
      → parsed_file (parse_workbook out (first_sheet (read_sheet (exported_sheet es))))
        ≡ ok (dtos 2 es)
  unfolding parse_workbook
  read_sheet_lem [] all some_row few = absurd (omega (arith, some_row))
  read_sheet_lem (e ∷ es) all some_row few =
      let short : ltb 5000 (suc (length (sheet_rows 3 es))) ≡ false =
        ground (arith, length-sheet_rows 3 es, few) in
      rw short (rw (read_rows 2 (e ∷ es) all))

  -- What exceljs is relied on for: it reads the sheet that it has written.
  abbrev pub ReadsBack : (WrittenSheet → String) → WrittenSheet → Type 0
  ReadsBack write_buffer sheet = out.load (write_buffer sheet) ≡ first_sheet (read_sheet sheet)

  -- The file that an export returns.
  abbrev pub file_of : Result String → String
  file_of (ok file) = file
  file_of (err _) = ""

  -- An export of up to 5000 employees, at least one, leaves the database alone, and the import parses
  -- the file row by row, from row 2 on, as exactly the tenant's employees that are not archived, with
  -- all of their eight fields and no error. The conditions: exceljs reads the sheet that it has written; each
  -- employee has a first and a last name; every text of them is trimmed, not empty, and no longer than
  -- the schema allows; and zod takes the mail addresses.
  pub reimport_lem :
      (write_buffer : WrittenSheet → String) (t : Uuid) (now : Instant) (db : Db)
      → ReadsBack write_buffer (exported_sheet (exported t db))
      → All (IsReadable out.is_email) (exported t db)
      → 1 ≤ length (exported t db)
      → length (exported t db) ≤ 5000
      → ((export_employees write_buffer t now db).1 ≡ db)
        × (parsed_file
              (parse_workbook out (out.load (file_of (export_employees write_buffer t now db).0)))
            ≡ ok (dtos 2 (exported t db)))
  unfolding export_employees
  reimport_lem write_buffer t now db reads readable some_row few =
      (refl, rw reads (read_sheet_lem (exported t db) readable some_row few))
