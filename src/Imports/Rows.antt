-- ===== src/Imports/Rows.antt =====
-- One row of an uploaded sheet: apps/api/src/import-export/employee-row.ts, and the schema of
-- apps/api/src/employees/employees.schemas.ts. What exceljs makes of a cell is data; zod's test of a mail
-- address and the texts of its issues are parameters.
use Prim.Native.String
use Prim.Native.Char.{code}
use employee_compliance_saas.Common.{
  ℕ, ◌+◌, String, Bool, Option, none, some, List, [], ◌∷◌, leb, ltb, if◌then◌else◌, str_eq,
  or_default,
}
use employee_compliance_saas.Common.Text.{trim, is_empty}
use employee_compliance_saas.Employees.{CreateEmployeeDto}

-- A cell value of exceljs: nothing, an object with rich text, with a text, or with the cached result of a
-- formula, printed, any other object, or a plain value, printed.
pub data CellValue : Type 0 where
  empty : CellValue
  rich_text : List String → CellValue
  with_text : String → CellValue
  with_result : String → CellValue
  unreadable : CellValue
  plain : String → CellValue

abbrev joined : List String → String
joined [] = ""
joined (part ∷ parts) = String.◌++◌ part (joined parts)

abbrev unless_empty : String → Option String
unless_empty text = if is_empty text then none else some text

unfoldable pub normalize_cell_value : CellValue → Option String
normalize_cell_value empty = none
normalize_cell_value (rich_text parts) = some (joined parts)
normalize_cell_value (with_text text) = some text
normalize_cell_value (with_result result) = some result
normalize_cell_value unreadable = none
normalize_cell_value (plain value) = unless_empty (trim value)

-- A record under its property names, the last assignment first.
abbrev pub RowRecord : Type 0
RowRecord = List (String × Option String)

abbrev property : String → RowRecord → Option String
property name [] = none
property name ((key, value) ∷ rest) =
    let later = property name rest in if str_eq key name then value else later

abbrev first_cell : List CellValue → CellValue
first_cell [] = empty
first_cell (cell ∷ _) = cell

abbrev other_cells : List CellValue → List CellValue
other_cells [] = []
other_cells (_ ∷ cells) = cells

-- A header is `none` where the first row of the sheet has no cell.
abbrev assign : Option String → CellValue → RowRecord → RowRecord
assign none cell row = row
assign (some header) cell row =
    if is_empty header then row else (header, normalize_cell_value cell) ∷ row

abbrev build_from : List (Option String) → List CellValue → RowRecord → RowRecord
build_from [] cells row = row
build_from (header ∷ headers) cells row =
    build_from headers (other_cells cells) (assign header (first_cell cells) row)

unfoldable pub build_row_record : List (Option String) → List CellValue → RowRecord
build_row_record headers cells = build_from headers cells []

pub data Issue : Type 0 where
  required too_small too_big not_email : Issue

-- `length` of a JavaScript string, in UTF-16 units.
abbrev pub units : String → ℕ
units String.[] = 0
units (String.◌∷◌ c s) = (if ltb (code c) 65536 then 1 else 2) + units s

-- `z.string().min(1).max(n)`
abbrev pub required_issue : ℕ → Option String → Option Issue
required_issue max none = some required
required_issue max (some text) =
    if is_empty text then some too_small else if leb (units text) max then none else some too_big

-- `z.string().max(n).optional()`
abbrev pub optional_issue : ℕ → Option String → Option Issue
optional_issue max none = none
optional_issue max (some text) = if leb (units text) max then none else some too_big

-- `z.string().email().optional()`
abbrev pub email_issue : (String → Bool) → Option String → Option Issue
email_issue is_email none = none
email_issue is_email (some text) = if is_email text then none else some not_email

-- The first issue, in the order of the fields.
abbrev first_issue : List (String × Option Issue) → Option (String × Issue)
first_issue [] = none
first_issue ((field, none) ∷ rest) = first_issue rest
first_issue ((field, some issue) ∷ rest) = some (field, issue)

abbrev issues : (String → Bool) → RowRecord → List (String × Option Issue)
issues is_email row =
    ("employeeCode", required_issue 64 (property "employeeCode" row))
    ∷ ("firstName", required_issue 128 (property "firstName" row))
    ∷ ("lastName", required_issue 128 (property "lastName" row))
    ∷ ("email", email_issue is_email (property "email" row))
    ∷ ("department", optional_issue 128 (property "department" row))
    ∷ ("jobTitle", optional_issue 128 (property "jobTitle" row))
    ∷ ("branch", optional_issue 128 (property "branch" row))
    ∷ ("responsibleOfficerId", optional_issue 128 (property "responsibleOfficerId" row))
    ∷ []

pub data ParsedEmployeeRow : Type 0 where
  data_of : CreateEmployeeDto → ParsedEmployeeRow
  error_of : String → ParsedEmployeeRow

abbrev parsed_row : (Issue → String) → RowRecord → Option (String × Issue) → ParsedEmployeeRow
parsed_row message row none = data_of (record {
  employee_code = or_default (property "employeeCode" row) "";
  first_name = or_default (property "firstName" row) "";
  last_name = or_default (property "lastName" row) "";
  email = property "email" row;
  department = property "department" row;
  job_title = property "jobTitle" row;
  branch = property "branch" row;
  responsible_officer_id = property "responsibleOfficerId" row;
})
parsed_row message row (some (field, issue)) =
    error_of (String.◌++◌ field (String.◌++◌ ": " (message issue)))

unfoldable pub parse_employee_import_row :
    (String → Bool) → (Issue → String) → RowRecord → ParsedEmployeeRow
parse_employee_import_row is_email message row =
    parsed_row message row (first_issue (issues is_email row))

-- `typeof record.employeeCode === 'string' ? record.employeeCode : undefined`
unfoldable pub employee_code_of : RowRecord → Option String
employee_code_of row = property "employeeCode" row
