-- ===== src/Exports.antt =====
-- The download of the employees: apps/api/src/import-export/export.service.ts. What exceljs writes of a
-- sheet is a parameter.
pub mod Reimport
use Prim.Native.String
use employee_compliance_saas.Common.{String, Option, none, some, List, [], ◌∷◌, map, is_none}
use employee_compliance_saas.Common.Exec.{Exec, pure, ◌>>=◌, ◌>>◌}
use employee_compliance_saas.Database.Schema.{Uuid, Instant, EmployeeRow, Db}
use employee_compliance_saas.Database.Session.{
  Session, transaction, set_tenant_context, select_employees,
}

-- A worksheet as it is written: its name, the headers, and the rows, cell by cell; null writes no cell.
pub record WrittenSheet : Type 0 where
  pub name : String
  pub headers : List String
  pub rows : List (List (Option String))

-- The headers, which are also the keys.
abbrev pub export_columns : List String
export_columns =
    "employeeCode" ∷ "firstName" ∷ "lastName" ∷ "email" ∷ "department" ∷ "jobTitle" ∷ "branch"
    ∷ "responsibleOfficerId" ∷ []

abbrev pub exported_row : EmployeeRow → List (Option String)
exported_row row =
    some row.employee_code
    ∷ row.first_name
    ∷ row.last_name
    ∷ row.email
    ∷ row.department
    ∷ row.job_title
    ∷ row.branch
    ∷ row.responsible_officer_id
    ∷ []

abbrev pub exported_sheet : List EmployeeRow → WrittenSheet
exported_sheet rows = record {
  name = "Employees";
  headers = export_columns;
  rows = map exported_row rows;
}

export_in : (WrittenSheet → String) → Exec Session String
export_in write_buffer = do
  rows ← select_employees (λ e. is_none e.deleted_at)
  pure (write_buffer (exported_sheet rows))

unfoldable pub export_employees : (WrittenSheet → String) → Uuid → Instant → Exec Db String
unfolding export_in
export_employees write_buffer tenant now =
    transaction now (set_tenant_context tenant >> export_in write_buffer)
