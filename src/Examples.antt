-- ===== src/Examples.antt =====
-- A small database, and calls on it: the tests of the development, and the theorems at concrete data.
pub mod Staff
pub mod Papers
pub mod Mailing
pub mod Serving
pub mod Uploading
pub mod Calling
pub mod Upkeep
use Prim.Native.String
use employee_compliance_saas.Common.{
  ℕ, ◌+◌, String, Bool, true, false, Option, none, some, List, [], ◌∷◌, if◌then◌else◌, str_eq,
}
use employee_compliance_saas.Database.Schema.{
  TenantRow, TenantStatus, EmployeeRow, EmployeeStatus, DocumentRow, badge, ExpiryStatus, reminder,
  NotificationStatus, NotificationLogRow, Db,
}
use employee_compliance_saas.Database.Session.{Postgres, Session}
use employee_compliance_saas.Audit.{AuditContext}
use employee_compliance_saas.Employees.{CreateEmployeeDto, UpdateEmployeeDto}
use employee_compliance_saas.Documents.{CreateDocumentDto, UpdateDocumentDto}
use employee_compliance_saas.Reminders.{ReminderJob, job_for}

-- Uuids are drawn from 1000 on, and one text is read as a uuid.
abbrev pub pg : Postgres
pg = record {
  gen_random_uuid = λ n. 1000 + n;
  uuid_in = λ s. if str_eq s "00000000-0000-0000-0000-000000000007" then some 7 else none;
  inet_in = λ s. true;
  text_match = λ document query. str_eq document query;
}

abbrev pub acme : TenantRow
acme = record { id = 1; name = "Acme"; slug = "acme"; status = TenantStatus.active; created_at = 0 }

abbrev pub globex : TenantRow
globex = record {
  id = 2;
  name = "Globex";
  slug = "globex";
  status = TenantStatus.active;
  created_at = 0;
}

abbrev pub employee_row : ℕ → ℕ → String → Option String → EmployeeRow
employee_row id tenant employee_code email = record {
  id = id;
  tenant_id = tenant;
  employee_code = employee_code;
  full_name = "Ann Lee";
  first_name = some "Ann";
  last_name = some "Lee";
  email = email;
  department = none;
  job_title = none;
  branch = none;
  responsible_officer_id = none;
  status = EmployeeStatus.active;
  created_at = 0;
  version = 3;
  deleted_at = none;
}

abbrev pub ann : EmployeeRow
ann = employee_row 10 1 "E1" (some "ann@acme.test")

abbrev pub bob : EmployeeRow
bob = employee_row 11 2 "E1" none

abbrev pub document_row : ℕ → ℕ → ℕ → ExpiryStatus → DocumentRow
document_row id tenant employee status = record {
  id = id;
  tenant_id = tenant;
  employee_id = some employee;
  doc_type = badge;
  doc_number = "B-1";
  issue_date = none;
  expiry_date = some "2026-10-01";
  status = "active";
  expiry_status = status;
  version = 1;
  renewal_started_at = none;
  exception_reason = none;
  created_at = 0;
  deleted_at = none;
}

abbrev pub badge_of_ann : DocumentRow
badge_of_ann = document_row 20 1 10 ExpiryStatus.expiring_soon

abbrev pub badge_of_bob : DocumentRow
badge_of_bob = document_row 21 2 11 ExpiryStatus.valid

abbrev pub db : Db
db = record {
  tenants = acme ∷ globex ∷ [];
  employees = ann ∷ bob ∷ [];
  documents = badge_of_ann ∷ badge_of_bob ∷ [];
  expiry_policies = [];
  audit_events = [];
  idempotency_keys = [];
  notification_policies = [];
  notification_log = [];
  import_batches = [];
  draws = 0;
}

-- 2026-09-01, noon UTC: thirty days before the badges expire.
abbrev pub noon : ℕ
noon = 1788264000000

abbrev pub context : AuditContext
context = record {
  tenant_id = 1;
  actor_user_id = "u-1";
  actor_ip = none;
  actor_user_agent = none;
  request_id = some "r-1";
  correlation_id = some "00000000-0000-0000-0000-000000000007";
}

-- The context of a request that brought a correlation id that is no uuid.
abbrev pub careless_context : AuditContext
careless_context = record context { correlation_id = some "trace-1" }

abbrev pub new_employee_dto : CreateEmployeeDto
new_employee_dto = record {
  employee_code = "E2";
  first_name = "Cai";
  last_name = "Wu";
  email = none;
  department = none;
  job_title = none;
  branch = none;
  responsible_officer_id = none;
}

abbrev pub rename_dto : UpdateEmployeeDto
rename_dto = record {
  first_name = some "Anna";
  last_name = none;
  email = none;
  department = none;
  job_title = none;
  branch = none;
  responsible_officer_id = none;
  version = 3;
}

abbrev pub new_document_dto : CreateDocumentDto
new_document_dto = record {
  doc_type = badge;
  doc_number = "B-2";
  issue_date = none;
  expiry_date = some "2026-10-01";
}

abbrev pub renew_dto : UpdateDocumentDto
renew_dto = record {
  doc_number = none;
  issue_date = none;
  expiry_date = some "2027-10-01";
  expiry_status = none;
  exception_reason = none;
  version = 1;
}

abbrev pub session : Session
session = record { db = db; current_tenant = some 1; now = noon }

abbrev pub badge_job : ReminderJob
badge_job = job_for 1 20 30
