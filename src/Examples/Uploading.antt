-- ===== src/Examples/Uploading.antt =====
-- The theorems on the import of a sheet, at concrete data: a new employee, and a row without a name.
use employee_compliance_saas.Common.{
  ◌≡◌, refl, true, none, some, List, [], arith, ◌∷◌, if◌then◌else◌, str_eq,
}
use employee_compliance_saas.Common.Exec.{ok}
use employee_compliance_saas.Common.Text.{trim}
use employee_compliance_saas.Database.Schema.{BatchStatus}
use employee_compliance_saas.Database.Session.{
  insert_batch, update_batches, insert_employee, insert_audit_event,
}
use employee_compliance_saas.Audit.{log, write}
use employee_compliance_saas.Imports.Rows.{
  empty, plain, normalize_cell_value, build_row_record, parse_employee_import_row, employee_code_of,
}
use employee_compliance_saas.Imports.Service.{
  Outside, Worksheet, first_sheet, unparsable, ImportResult, parse_workbook, upsert_over,
  upsert_employee_row, import_row, import_rows, find_existing_batch, insert_new_batch,
  complete_batch,
}
use employee_compliance_saas.Imports.Upload.{Uploads, import_into, import_sheet, import_employees}
use employee_compliance_saas.Imports.Upload.Counts.{Imported, import_employees-Imported}
use employee_compliance_saas.Imports.Upload.Replay.{import_replay}
use employee_compliance_saas.Platform.{
  Call, Platform, upload_employees, run_reminder, archive_employee, run, holdings, foreign_steps,
}
use employee_compliance_saas.Examples.{pg, db, noon, context, badge_job}
use employee_compliance_saas.Employees

abbrev sheet : Worksheet
sheet = record {
  headers = some "employeeCode" ∷ some "firstName" ∷ some "lastName" ∷ [];
  rows =
      (2, plain "E7" ∷ plain "Dee" ∷ plain "Oz" ∷ [])
      ∷ (3, plain "E8" ∷ empty ∷ plain "Nil" ∷ [])
      ∷ [];
}

abbrev pub out : Outside
out = record {
  pg = pg;
  sha256 = λ file. file;
  load = λ file. if str_eq file "staff" then first_sheet sheet else unparsable;
  is_email = λ text. true;
  issue_message = λ issue. "Required";
  pg_message = λ code. code;
}

abbrev uploads : Uploads
uploads = record { db = db; queue = [] }

abbrev imported : ImportResult
imported = record {
  batch = record {
    import_batch_id = 1000;
    tenant_id = 1;
    status = BatchStatus.completed;
    total_rows = 2;
    processed_rows = 1;
    error_rows = 1;
    file_hash = "staff";
    created_at = noon;
    completed_at = some noon;
    created_by = some "u-1";
  };
  errors = record { row = 3; employee_code = some "E8"; message = "firstName: Required" } ∷ [];
}

first_import : (import_employees out 1 noon context "u-1" "staff" uploads).0 ≡ ok imported
unfolding import_employees find_existing_batch import_sheet insert_new_batch insert_batch
    import_into import_rows import_row parse_workbook parse_employee_import_row build_row_record
    normalize_cell_value employee_code_of trim upsert_employee_row upsert_over Employees.create
    insert_employee insert_audit_event log write complete_batch update_batches
first_import = refl

import_employees-Imported_example :
    Imported out 1 noon context "u-1" "staff" uploads imported
      (import_employees out 1 noon context "u-1" "staff" uploads).1
import_employees-Imported_example =
    import_employees-Imported out 1 noon context "u-1" "staff" uploads imported refl first_import

import_replay_example :
    import_employees out 1 noon context "u-2" "staff"
      (import_employees out 1 noon context "u-1" "staff" uploads).1
    ≡ (
      ok (record { batch = imported.batch; errors = [] }),
      (import_employees out 1 noon context "u-1" "staff" uploads).1,
    )
import_replay_example =
    import_replay out 1 noon noon context context "u-1" "u-2" "staff" uploads imported refl
      first_import

abbrev platform : Platform
platform = record { db = db; outbox = []; queue = [] }

-- Three calls of the first tenant.
abbrev busy_day : List Call
busy_day =
    upload_employees noon context "u-1" "staff"
    ∷ run_reminder noon (λ mail. none) badge_job
    ∷ archive_employee noon context 10
    ∷ []

foreign_steps_example : holdings 2 (run out busy_day platform).db ≡ holdings 2 db
foreign_steps_example =
    foreign_steps out 2 busy_day platform (omega arith, (omega arith, (omega arith, tt)))
