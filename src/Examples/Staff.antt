-- ===== src/Examples/Staff.antt =====
-- The theorems on the employee service and the audit trail, at concrete data.
use employee_compliance_saas.Common.{◌≡◌, refl, none, some, [], ◌∷◌, ◌++◌, if◌then◌else◌, is_none}
use employee_compliance_saas.Common.Exec.{ok, err, conflict}
use employee_compliance_saas.Database.Schema.{Uuid, employee_updated, EmployeeRow}
use employee_compliance_saas.Database.Table.{update}
use employee_compliance_saas.Audit.{log, Entry}
use employee_compliance_saas.Employees.{entry, is_live, set_archived, set_employee}
use employee_compliance_saas.Employees.Keyed.{IsKeyed, employees-IsKeyed}
use employee_compliance_saas.Employees.Locking.{live_employee, second_update_conflicts}
use employee_compliance_saas.Employees.Lifecycle.{created}
use employee_compliance_saas.Employees.Outcomes.{
  is_taken, create_employee_outcome, update_result, updated_employee, update_employee_outcome,
  archive_result, archive_employee_outcome,
}
use employee_compliance_saas.Audit.Trail.{written, stored_correlation, log_appends, log_lost}
use employee_compliance_saas.Audit.Secrets.{IsClean, log-IsClean}
use employee_compliance_saas.Examples.{
  pg, ann, db, noon, context, careless_context, new_employee_dto, rename_dto, session,
}
use employee_compliance_saas.Common.{All}
use employee_compliance_saas.Employees

db-IsKeyed : IsKeyed db
db-IsKeyed = (refl, (refl, tt))

employees-IsKeyed_example :
    IsKeyed (Employees.create pg 1 noon new_employee_dto context db).1
    × IsKeyed (Employees.update pg 1 noon 10 rename_dto context db).1
    × IsKeyed (Employees.archive pg 1 noon 10 context db).1
employees-IsKeyed_example =
    employees-IsKeyed pg 1 context noon db db-IsKeyed 10 new_employee_dto rename_dto

create_employee_outcome_example :
    ((Employees.create pg 1 noon new_employee_dto context db).0 ≡ (
      if is_taken pg 1 noon context db new_employee_dto
      then err (conflict "Employee code already exists" "duplicate_code")
      else ok (created pg 1 noon context db new_employee_dto)))
    × ((Employees.create pg 1 noon new_employee_dto context db).1.employees ≡ (
        if is_taken pg 1 noon context db new_employee_dto
        then db.employees
        else db.employees ++ created pg 1 noon context db new_employee_dto ∷ []))
create_employee_outcome_example = create_employee_outcome pg 1 noon context db new_employee_dto refl

update_employee_outcome_example :
    ((Employees.update pg 1 noon 10 rename_dto context db).0
      ≡ update_result pg 1 noon context db rename_dto (live_employee 1 10 db))
    × (live_employee 1 10 (Employees.update pg 1 noon 10 rename_dto context db).1
        ≡ updated_employee pg 1 noon context db rename_dto (live_employee 1 10 db))
update_employee_outcome_example =
    update_employee_outcome pg 1 noon context db 10 rename_dto db-IsKeyed

archive_employee_outcome_example :
    ((Employees.archive pg 1 noon 10 context db).0
      ≡ archive_result pg 1 noon context db (live_employee 1 10 db))
    × ((Employees.archive pg 1 noon 10 context db).1.employees ≡ (
        if is_none (live_employee 1 10 db)
        then db.employees
        else update
            (λ (r : EmployeeRow). r.tenant_id)
            (some 1)
            (is_live 10)
            (set_archived noon)
            db.employees))
    × (live_employee 1 10 (Employees.archive pg 1 noon 10 context db).1 ≡ none)
archive_employee_outcome_example = archive_employee_outcome pg 1 noon context db 10

first_update :
    (Employees.update pg 1 noon 10 rename_dto context db).0 ≡ ok (set_employee ann rename_dto ann)
first_update = (update_employee_outcome pg 1 noon context db 10 rename_dto db-IsKeyed).0

second_update_conflicts_example :
    Employees.update pg 1 noon 10 rename_dto context
      (Employees.update pg 1 noon 10 rename_dto context db).1
    ≡ (
      err (conflict "Employee was modified by another request" "version_mismatch"),
      (Employees.update pg 1 noon 10 rename_dto context db).1,
    )
second_update_conflicts_example =
    second_update_conflicts pg 1 noon noon 10 rename_dto rename_dto context context db
      (set_employee ann rename_dto ann) db-IsKeyed first_update refl

abbrev renamed : Entry
renamed = entry context employee_updated 10 (some ann) ann

abbrev renamed_carelessly : Entry
renamed_carelessly = entry careless_context employee_updated 10 (some ann) ann

log_appends_example :
    (correlation : Uuid) × (stored_correlation pg session renamed.context.correlation_id
      ≡ some correlation)
    × ((log pg renamed session).1.db.audit_events
        ≡ session.db.audit_events ++ written renamed 1000 correlation noon ∷ [])
log_appends_example =
    log_appends pg renamed session
      (record { own = refl; known = refl; correlation = refl; address = refl; unused = refl })

log_lost_example : log pg renamed_carelessly session ≡ (ok tt, session)
log_lost_example = log_lost pg renamed_carelessly session refl

log-IsClean_example : All IsClean (log pg renamed session).1.db.audit_events
log-IsClean_example = log-IsClean pg renamed session tt
