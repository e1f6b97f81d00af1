-- ===== src/Employees.antt =====
-- apps/api/src/employees/employees.service.ts: each method is one transaction.

pub mod Isolation
pub mod Keyed
pub mod Locking
pub mod Lifecycle
pub mod Outcomes
pub mod Batches
use Prim.Native.String
use mathlib.Core.Option
use employee_compliance_saas.Common.{
  ℕ, ◌+◌, ◌-◌, ◌*◌, String, Bool, true, false, not, ◌&&◌, ◌||◌, Option, none, some, List, [], ◌∷◌,
  head?, ◌==◌, if◌then◌else◌, is_none, or_default, or_else, str_eq, take, drop, length,
}
use employee_compliance_saas.Common.Exec.{
  Exception, not_found, conflict, pg_error, Result, ok, err, Exec, pure, throw, gets, ◌>>=◌, ◌>>◌,
}
use employee_compliance_saas.Common.Text.{trim, is_empty}
use employee_compliance_saas.Database.Schema.{
  Uuid, Instant, EmployeeStatus, EmployeeRow, Db, employee_created, employee_updated,
  employee_archived, AuditAction, success,
}
use employee_compliance_saas.Database.Record.{employee_state}
use employee_compliance_saas.Database.Session.{
  Postgres, Session, transaction, set_tenant_context, fresh_uuid, now_of, first_or,
  select_employees, insert_employee, update_employees,
}
use employee_compliance_saas.Audit.{AuditContext, Entry, log}

pub record CreateEmployeeDto : Type 0 where
  pub employee_code : String
  pub first_name : String
  pub last_name : String
  pub email : Option String
  pub department : Option String
  pub job_title : Option String
  pub branch : Option String
  pub responsible_officer_id : Option String

pub record UpdateEmployeeDto : Type 0 where
  pub first_name : Option String
  pub last_name : Option String
  pub email : Option String
  pub department : Option String
  pub job_title : Option String
  pub branch : Option String
  pub responsible_officer_id : Option String
  pub version : ℕ

-- The code of Postgres's unique violation, and what `create` makes of it.
abbrev pub is_unique_violation : Exception → Bool
is_unique_violation (pg_error code) = str_eq code "23505"
is_unique_violation _ = false

abbrev pub translate : Exception → Exception
translate e =
    if is_unique_violation e then conflict "Employee code already exists" "duplicate_code" else e

abbrev translated : {A : Type 0} → Result A × Session → Result A × Session
translated (ok a, s) = (ok a, s)
translated (err e, s) = (err (translate e), s)

abbrev pub catch_duplicate : {A : Type 0} → Exec Session A → Exec Session A
catch_duplicate m s = translated (m s)

abbrev pub full_name_of : String → String → String
full_name_of first last = trim (String.◌++◌ first (String.◌++◌ " " last))

-- A live row with this id.
abbrev pub is_live : Uuid → EmployeeRow → Bool
is_live id e = e.id == id && is_none e.deleted_at

abbrev pub new_employee : Uuid → Instant → Uuid → CreateEmployeeDto → EmployeeRow
new_employee id now tenant dto = record {
  id = id;
  tenant_id = tenant;
  employee_code = dto.employee_code;
  full_name = full_name_of dto.first_name dto.last_name;
  first_name = some dto.first_name;
  last_name = some dto.last_name;
  email = dto.email;
  department = dto.department;
  job_title = dto.job_title;
  branch = dto.branch;
  responsible_officer_id = dto.responsible_officer_id;
  status = EmployeeStatus.active;
  created_at = now;
  version = 1;
  deleted_at = none;
}

-- `${firstName} ${lastName}`.trim() || before.fullName
abbrev pub updated_full_name : EmployeeRow → UpdateEmployeeDto → String
updated_full_name before dto =
    let joined =
      full_name_of (or_default (or_else dto.first_name before.first_name) "")
        (or_default (or_else dto.last_name before.last_name) "") in
    if is_empty joined then before.full_name else joined

-- The SET clause of `update`, from the row that was read.
abbrev pub set_employee : EmployeeRow → UpdateEmployeeDto → EmployeeRow → EmployeeRow
set_employee before dto e = record e {
  first_name = or_else dto.first_name before.first_name;
  last_name = or_else dto.last_name before.last_name;
  full_name = updated_full_name before dto;
  email = or_else dto.email before.email;
  department = or_else dto.department before.department;
  job_title = or_else dto.job_title before.job_title;
  branch = or_else dto.branch before.branch;
  responsible_officer_id = or_else dto.responsible_officer_id before.responsible_officer_id;
  version = before.version + 1;
}

abbrev pub set_archived : Instant → EmployeeRow → EmployeeRow
set_archived now e = record e { deleted_at = some now; status = EmployeeStatus.archived }

abbrev pub entry : AuditContext → AuditAction → Uuid → Option EmployeeRow → EmployeeRow → Entry
entry context action id before after = record {
  context = context;
  action = action;
  entity_type = "employee";
  entity_id = some id;
  before_state = Option.map employee_state before;
  after_state = some (employee_state after);
  outcome = success;
  reason = none;
}

module _ (pg : Postgres) (tenant : Uuid) where
  create_in : CreateEmployeeDto → AuditContext → Exec Session EmployeeRow
  create_in dto context = do
    id ← fresh_uuid pg
    now ← now_of
    created ← catch_duplicate (insert_employee (new_employee id now tenant dto))
    log pg (entry context employee_created created.id none created)
    pure created

  update_in : Uuid → UpdateEmployeeDto → AuditContext → Exec Session EmployeeRow
  update_in id dto context = do
    existing ← select_employees (is_live id)
    before ← first_or (not_found "Employee not found") existing
    updated ←
        update_employees (λ e. (e.id == id && e.version == dto.version) && is_none e.deleted_at)
          (set_employee before dto)
    after ←
        first_or (conflict "Employee was modified by another request" "version_mismatch") updated
    log pg (entry context employee_updated id (some before) after)
    pure after

  archive_in : Uuid → AuditContext → Exec Session (Uuid × Option Instant)
  archive_in id context = do
    existing ← select_employees (is_live id)
    before ← first_or (not_found "Employee not found") existing
    now ← now_of
    updated ← update_employees (is_live id) (set_archived now)
    after ← first_or (not_found "Employee not found") updated
    log pg (entry context employee_archived id (some before) after)
    pure (after.id, after.deleted_at)

  unfoldable pub create : Instant → CreateEmployeeDto → AuditContext → Exec Db EmployeeRow
  unfolding create_in
  create now dto context = transaction now (set_tenant_context tenant >> create_in dto context)

  unfoldable pub update : Instant → Uuid → UpdateEmployeeDto → AuditContext → Exec Db EmployeeRow
  unfolding update_in
  update now id dto context =
      transaction now (set_tenant_context tenant >> update_in id dto context)

  unfoldable pub archive : Instant → Uuid → AuditContext → Exec Db (Uuid × Option Instant)
  unfolding archive_in
  archive now id context = transaction now (set_tenant_context tenant >> archive_in id context)
