-- ===== src/Employees/Outcomes.antt =====
-- What each operation of the employee service returns and leaves, on every branch.
use employee_compliance_saas.Common.{
  ◌≡◌, refl, Bool, true, Option, none, some, [], ◌∷◌, ◌++◌, arith, ◌==◌, if◌then◌else◌, is_none,
  some_is, Bool-cases, Option-cases, inl, inr, ==_iff,
}
use native.Mathlib.Decide.{ℕ_discrete}
use employee_compliance_saas.Common.Exec.{Result, ok, err, not_found, conflict}
use employee_compliance_saas.Database.Schema.{Uuid, Instant, Db, EmployeeRow}
use employee_compliance_saas.Database.Table.{update}
use employee_compliance_saas.Database.Session.{Postgres, same_employee}
use employee_compliance_saas.Audit.{AuditContext}
use employee_compliance_saas.Employees.{
  CreateEmployeeDto, UpdateEmployeeDto, is_live, set_employee, set_archived,
}
use employee_compliance_saas.Employees.Keyed.{IsKeyed}
use employee_compliance_saas.Employees.Locking.{live_employee, update_outcome}
use employee_compliance_saas.Employees.Lifecycle.{
  tenant_exists, created, create_outcome, archive_outcome,
}
use employee_compliance_saas.Employees

module _ (pg : Postgres) (t : Uuid) (now : Instant) (context : AuditContext) (db : Db) where
  -- A row of the table, archived or not, has the drawn id, or the tenant and the code.
  abbrev pub is_taken : CreateEmployeeDto → Bool
  is_taken dto = some_is (same_employee (created pg t now context db dto)) db.employees

  -- In a tenant that exists, `create` throws the duplicate-code conflict and leaves the employees alone
  -- if a row, archived or not, has the tenant and the code, or the drawn id. Otherwise it returns the
  -- new row, active and of version 1, and appends exactly that row.
  pub create_employee_outcome :
      (dto : CreateEmployeeDto)
      → tenant_exists t db ≡ true
      → ((Employees.create pg t now dto context db).0 ≡ (
          if is_taken dto
          then err (conflict "Employee code already exists" "duplicate_code")
          else ok (created pg t now context db dto)))
        × ((Employees.create pg t now dto context db).1.employees ≡ (
            if is_taken dto
            then db.employees
            else db.employees ++ created pg t now context db dto ∷ []))
  create_employee_outcome dto known = elim (Bool-cases (is_taken dto)) [
    | inl e ↦ rw (e, (create_outcome pg t now context db dto).0 e) (refl, refl)
    | inr e ↦ rw e ((create_outcome pg t now context db dto).1 e known)
  ]

  abbrev pub update_result : UpdateEmployeeDto → Option EmployeeRow → Result EmployeeRow
  update_result dto none = err (not_found "Employee not found")
  update_result dto (some before) =
      if before.version == dto.version
      then ok (set_employee before dto before)
      else err (conflict "Employee was modified by another request" "version_mismatch")

  abbrev pub updated_employee : UpdateEmployeeDto → Option EmployeeRow → Option EmployeeRow
  updated_employee dto none = none
  updated_employee dto (some before) =
      some (if before.version == dto.version then set_employee before dto before else before)

  -- What `update` does in a keyed table, by the employee that the tenant finds under the id. With none
  -- it throws the not-found exception, and with one of another version than the caller's the version
  -- conflict; the tenant finds what it found before. With one of the caller's version it returns that
  -- row with the changes merged and the version one up, which is what the tenant finds afterwards.
  pub update_employee_outcome :
      (id : Uuid) (dto : UpdateEmployeeDto)
      → IsKeyed db
      → ((Employees.update pg t now id dto context db).0
          ≡ update_result dto (live_employee t id db))
        × (live_employee t id (Employees.update pg t now id dto context db).1
            ≡ updated_employee dto (live_employee t id db))
  update_employee_outcome id dto u =
      let (missing, stale, fresh) = update_outcome pg t now id dto context db u in
      elim (Option-cases (live_employee t id db)) [
        | inl e ↦ rw (e, missing e, e) (refl, refl)
        | inr (before, e) ↦ elim (ℕ_discrete before.version dto.version) [
          | no p ↦ rw (e, stale before e p, e) (ground (arith, p), ground (arith, p))
          | yes p ↦ rw (e, (==_iff before.version dto.version).1 p) (fresh before e p)
        ]
      ]

  abbrev pub archive_result : Option EmployeeRow → Result (Uuid × Option Instant)
  archive_result none = err (not_found "Employee not found")
  archive_result (some before) = ok (before.id, some now)

  -- `archive` returns the id and the time where the tenant finds an employee under the id, and else
  -- throws the not-found exception. Either way the rows that the tenant finds under the id are marked
  -- deleted and archived, no other row changes, and the tenant finds none under the id afterwards.
  pub archive_employee_outcome :
      (id : Uuid)
      → ((Employees.archive pg t now id context db).0 ≡ archive_result (live_employee t id db))
        × ((Employees.archive pg t now id context db).1.employees ≡ (
            if is_none (live_employee t id db)
            then db.employees
            else update (λ r. r.tenant_id) (some t) (is_live id) (set_archived now) db.employees))
        × (live_employee t id (Employees.archive pg t now id context db).1 ≡ none)
  archive_employee_outcome id =
      let (missing, live) = archive_outcome pg t now context db id in
      elim (Option-cases (live_employee t id db)) [
        | inl e ↦ rw (missing e, e) (refl, refl, refl)
        | inr (before, e) ↦ rw e (live before e)
      ]
