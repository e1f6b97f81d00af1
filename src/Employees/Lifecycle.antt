-- ===== src/Employees/Lifecycle.antt =====
-- Creating and archiving an employee, on every branch.
use employee_compliance_saas.Common.{
  ◌+◌, ◌≡◌, refl, ap, ◌∙◌, Bool, true, false, ◌&&◌, Option, none, some, List, [], ◌∷◌, ◌++◌, head?,
  arith, ◌==◌, keep, some_is, ==_iff,
}
use employee_compliance_saas.Common.Exec.{Result, ok, err, not_found, conflict}
use employee_compliance_saas.Database.Schema.{
  Uuid, Instant, Db, EmployeeRow, employee_created, employee_archived,
}
use employee_compliance_saas.Database.Table.{update}
use employee_compliance_saas.Database.Keys.{head-cons, head-nil}
use employee_compliance_saas.Database.Session.{
  Postgres, Session, same_employee, insert_employee, update_employees,
}
use employee_compliance_saas.Audit.{AuditContext, log}
use employee_compliance_saas.Audit.Write.{frame-log, log_ok}
use employee_compliance_saas.Employees.{
  CreateEmployeeDto, is_live, new_employee, set_archived, entry,
}
use employee_compliance_saas.Employees.Locking.{live_employee}
use employee_compliance_saas.Employees

abbrev pub tenant_exists : Uuid → Db → Bool
tenant_exists t db = some_is (λ r. r.id == t) db.tenants

module _ (pg : Postgres) (t : Uuid) (now : Instant) (context : AuditContext) (db : Db) where
  -- The row that `create` inserts.
  abbrev pub created : CreateEmployeeDto → EmployeeRow
  created dto = new_employee (pg.gen_random_uuid db.draws) now t dto

  -- The session after the INSERT.
  abbrev inserted : CreateEmployeeDto → Session
  inserted dto = record {
    db = record db { employees = db.employees ++ created dto ∷ []; draws = db.draws + 1 };
    current_tenant = some t;
    now = now;
  }

  abbrev logged : CreateEmployeeDto → Session
  logged dto =
      (log pg (entry context employee_created (created dto).id none (created dto)) (inserted dto)).1

  create_new :
      (dto : CreateEmployeeDto)
      → some_is (same_employee (created dto)) db.employees ≡ false
      → tenant_exists t db ≡ true
      → Employees.create pg t now dto context db ≡ (ok (created dto), (logged dto).db)
  unfolding Employees.create insert_employee
  create_new dto h k = rw ((==_iff t t).1 refl, h, k, log_ok)

  create_duplicate :
      (dto : CreateEmployeeDto)
      → some_is (same_employee (created dto)) db.employees ≡ true
      → Employees.create pg t now dto context db
        ≡ (err (conflict "Employee code already exists" "duplicate_code"), db)
  unfolding Employees.create insert_employee
  create_duplicate dto h = rw ((==_iff t t).1 refl, h)

  -- What `create` does. If a row of the table, archived or not, has the drawn id, or the tenant and
  -- the code, it throws the duplicate-code conflict and changes nothing. Otherwise, if the tenant
  -- exists, it returns the new row, active and of version 1, and appends exactly that row.
  pub create_outcome :
      (dto : CreateEmployeeDto)
      → (some_is (same_employee (created dto)) db.employees ≡ true
          → Employees.create pg t now dto context db
            ≡ (err (conflict "Employee code already exists" "duplicate_code"), db))
        × (some_is (same_employee (created dto)) db.employees ≡ false
            → tenant_exists t db ≡ true
            → ((Employees.create pg t now dto context db).0 ≡ ok (created dto))
              × ((Employees.create pg t now dto context db).1.employees
                  ≡ db.employees ++ created dto ∷ []))
  create_outcome dto = (
    create_duplicate dto,
    λ h k. (
      ap (λ (r : Result EmployeeRow × Db). r.0) (create_new dto h k),
      ap (λ (r : Result EmployeeRow × Db). r.1.employees) (create_new dto h k)
          ∙ ap (λ (s : Session). s.db.employees)
              (frame-log pg (entry context employee_created (created dto).id none (created dto))
                (inserted dto)),
    ),
  )

  abbrev found : Uuid → EmployeeRow → Bool
  found id e = e.tenant_id == t && is_live id e

  none_left :
      (id : Uuid) (rows : List EmployeeRow)
      → keep (found id) (update (λ r. r.tenant_id) (some t) (is_live id) (set_archived now) rows)
        ≡ []
  none_left id [] = refl
  none_left id (e ∷ rows) = ground (arith, none_left id rows)

  abbrev archived_session : Uuid → Session
  archived_session id = record {
    db = record db {
      employees = update (λ r. r.tenant_id) (some t) (is_live id) (set_archived now) db.employees;
    };
    current_tenant = some t;
    now = now;
  }

  archive_missing :
      (id : Uuid)
      → keep (found id) db.employees ≡ []
      → Employees.archive pg t now id context db ≡ (err (not_found "Employee not found"), db)
  unfolding Employees.archive
  archive_missing id h = rw h

  archive_live :
      (id : Uuid) (before : EmployeeRow) (rest : List EmployeeRow)
      → keep (found id) db.employees ≡ before ∷ rest
      → Employees.archive pg t now id context db ≡ (
        ok (before.id, some now),
        (log pg
            (entry context employee_archived id (some before) (set_archived now before))
            (archived_session id)).1.db,
      )
  unfolding Employees.archive update_employees
  archive_live id before rest h = rw (h, h, log_ok)

  -- What `archive` does. Where the tenant finds no employee under the id it throws the not-found
  -- exception and changes nothing. Otherwise it returns the id and the time, the rows found under the
  -- id are marked deleted and archived, all other rows stay as they were, and the tenant finds no
  -- employee under the id afterwards.
  pub archive_outcome :
      (id : Uuid)
      → (live_employee t id db ≡ none
          → Employees.archive pg t now id context db ≡ (err (not_found "Employee not found"), db))
        × ((before : EmployeeRow)
            → live_employee t id db ≡ some before
            → ((Employees.archive pg t now id context db).0 ≡ ok (before.id, some now))
              × ((Employees.archive pg t now id context db).1.employees
                  ≡ update (λ r. r.tenant_id) (some t) (is_live id) (set_archived now) db.employees)
              × (live_employee t id (Employees.archive pg t now id context db).1 ≡ none))
  archive_outcome id = (
    λ h. archive_missing id (head-nil (keep (found id) db.employees) h),
    λ before h.
        let (rest, e) = head-cons (keep (found id) db.employees) h in
        let done = archive_live id before rest e in
        let after : (Employees.archive pg t now id context db).1.employees
            ≡ (archived_session id).db.employees =
          ap (λ (r : Result (Uuid × Option Instant) × Db). r.1.employees) done
          ∙ ap (λ (s : Session). s.db.employees)
              (frame-log pg
                (entry context employee_archived id (some before) (set_archived now before))
                (archived_session id)) in
        (
          ap (λ (r : Result (Uuid × Option Instant) × Db). r.0) done,
          after,
          ap (λ (rows : List EmployeeRow). head? (keep (found id) rows)) after
              ∙ ap head? (none_left id db.employees),
        ),
  )
