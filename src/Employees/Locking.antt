-- ===== src/Employees/Locking.antt =====
-- Optimistic locking: what `update` does with the version that its caller read.
use employee_compliance_saas.Common.{
  ℕ, ◌≡◌, ◌≢◌, ap, ◌∙◌, Bool, true, false, ◌&&◌, Option, none, some, List, [], ◌∷◌, head?, arith,
  ◌==◌, is_none, keep, inl, inr, Option-cases, ==_iff,
}
use native.Mathlib.Decide.{ℕ_discrete}
use employee_compliance_saas.Common.Exec.{Exception, Result, ok, err, not_found, conflict}
use employee_compliance_saas.Database.Schema.{Uuid, Instant, Db, EmployeeRow, employee_updated}
use employee_compliance_saas.Database.Table.{select, set_row, update}
use employee_compliance_saas.Database.Keys.{Unique, keep-one, keep-guarded, keep-map, head-nil}
use employee_compliance_saas.Database.Session.{Postgres, Session, same_employee, update_employees}
use employee_compliance_saas.Audit.{AuditContext, log}
use employee_compliance_saas.Audit.Write.{frame-log, log_ok}
use employee_compliance_saas.Employees.{UpdateEmployeeDto, is_live, set_employee, entry, update_in}
use employee_compliance_saas.Employees.Keyed.{IsKeyed, update-IsKeyed}
use employee_compliance_saas.Employees

-- The employee that a tenant finds under an id.
abbrev pub live_employee : Uuid → Uuid → Db → Option EmployeeRow
live_employee t id db = head? (select (λ r. r.tenant_id) (some t) (is_live id) db.employees)

module _ (t id : Uuid) where
  abbrev found : EmployeeRow → Bool
  found e = e.tenant_id == t && is_live id e

  one_found : (x y : EmployeeRow) → found x ≡ true → found y ≡ true → same_employee y x ≡ true
  one_found x y h k = ground arith

  -- In a keyed table the row that is read is the only one.
  only_row :
      (rows : List EmployeeRow) (before : EmployeeRow)
      → Unique same_employee rows
      → head? (keep found rows) ≡ some before
      → (keep found rows ≡ before ∷ []) × (found before ≡ true)
  only_row rows before u h = elim (keep-one same_employee found rows one_found u) [
    | inl e ↦ absurd (cc)
    | inr (x, e, fx) ↦ ground (arith, e, fx)
  ]

  abbrev matched : ℕ → EmployeeRow → Bool
  matched v e = e.tenant_id == t && ((e.id == id && e.version == v) && is_none e.deleted_at)

  matched_rows :
      (v : ℕ) (rows : List EmployeeRow)
      → keep (matched v) rows ≡ keep (λ e. e.version == v) (keep found rows)
  matched_rows v rows =
      keep-guarded (λ e. e.tenant_id == t) (λ e. e.id == id) (λ e. e.version == v)
        (λ e. is_none e.deleted_at) rows

module _ (pg : Postgres) (t : Uuid) (now : Instant) (id : Uuid) (dto : UpdateEmployeeDto)
    (context : AuditContext) (db : Db) where
  update_missing :
      keep (found t id) db.employees ≡ []
      → Employees.update pg t now id dto context db ≡ (err (not_found "Employee not found"), db)
  unfolding Employees.update
  update_missing e = rw e

  update_stale :
      (before : EmployeeRow)
      → keep (found t id) db.employees ≡ before ∷ []
      → (before.version == dto.version) ≡ false
      → Employees.update pg t now id dto context db
        ≡ (err (conflict "Employee was modified by another request" "version_mismatch"), db)
  unfolding Employees.update update_employees
  update_stale before e v = rw (e, matched_rows t id dto.version db.employees, e, v)

  -- The session after the UPDATE.
  abbrev updated : EmployeeRow → Session
  updated before = record {
    db = record db {
      employees =
          update (λ r. r.tenant_id) (some t)
            (λ e. (e.id == id && e.version == dto.version) && is_none e.deleted_at)
            (set_employee before dto) db.employees;
    };
    current_tenant = some t;
    now = now;
  }

  abbrev logged : EmployeeRow → Session
  logged before =
      (log pg (entry context employee_updated id (some before) (set_employee before dto before))
        (updated before)).1

  update_fresh :
      (before : EmployeeRow)
      → keep (found t id) db.employees ≡ before ∷ []
      → (before.version == dto.version) ≡ true
      → Employees.update pg t now id dto context db
        ≡ (ok (set_employee before dto before), (logged before).db)
  unfolding Employees.update update_employees
  update_fresh before e v = rw (e, matched_rows t id dto.version db.employees, e, v, log_ok)

  employees-logged :
      (before : EmployeeRow) → (logged before).db.employees ≡ (updated before).db.employees
  employees-logged before =
      ap (λ (s : Session). s.db.employees)
        (frame-log pg
          (entry context employee_updated id (some before) (set_employee before dto before))
          (updated before))

  found_after :
      (before : EmployeeRow)
      → keep (found t id) db.employees ≡ before ∷ []
      → (before.version == dto.version) ≡ true
      → found t id before ≡ true
      → keep (found t id) (logged before).db.employees ≡ set_employee before dto before ∷ []
  found_after before e v f = rw employees-logged (
      keep-map (found t id)
        (set_row (λ r. r.tenant_id) (some t)
          (λ e. (e.id == id && e.version == dto.version) && is_none e.deleted_at)
          (set_employee before dto))
        db.employees (λ e. ground arith)
      ∙ rw e (ground (arith, f)))

  -- What `update` does in a keyed table, by the employee that the tenant finds under the id. With
  -- none it throws the not-found exception, and with one of another version than the caller's it
  -- throws the version conflict; both leave the database as it was. With one of the caller's version
  -- it returns that row with the changes merged and the version one up, and that row is what the
  -- tenant finds afterwards.
  pub update_outcome :
      IsKeyed db
      → (live_employee t id db ≡ none
          → Employees.update pg t now id dto context db
            ≡ (err (not_found "Employee not found"), db))
        × ((before : EmployeeRow)
            → live_employee t id db ≡ some before
            → before.version ≢ dto.version
            → Employees.update pg t now id dto context db
              ≡ (err (conflict "Employee was modified by another request" "version_mismatch"), db))
        × ((before : EmployeeRow)
            → live_employee t id db ≡ some before
            → before.version ≡ dto.version
            → ((Employees.update pg t now id dto context db).0
                ≡ ok (set_employee before dto before))
              × (live_employee t id (Employees.update pg t now id dto context db).1
                  ≡ some (set_employee before dto before)))
  update_outcome u = (
    λ h. update_missing (head-nil (keep (found t id) db.employees) h),
    λ before h v. update_stale before (only_row t id db.employees before u h).0 (differs before v),
    λ before h v.
        let (e, f) = only_row t id db.employees before u h in
        let same : (before.version == dto.version) ≡ true = (==_iff _ _).1 v in
        let done = update_fresh before e same in
        (
          ap (λ (r : Result EmployeeRow × Db). r.0) done,
          ap (λ (r : Result EmployeeRow × Db). live_employee t id r.1) done
              ∙ ap head? (found_after before e same f),
        ),
  )
    where
      differs :
          (before : EmployeeRow)
          → before.version ≢ dto.version
          → (before.version == dto.version) ≡ false
      differs before v = ground arith

-- Of two updates of one employee that were based on the same version, only the first can succeed: the
-- second throws the version conflict and changes nothing.
pub second_update_conflicts :
    (pg : Postgres) (t : Uuid) (now later : Instant) (id : Uuid) (first second : UpdateEmployeeDto)
    (context other : AuditContext) (db : Db) (after : EmployeeRow)
    → IsKeyed db
    → (Employees.update pg t now id first context db).0 ≡ ok after
    → second.version ≡ first.version
    → Employees.update pg t later id second other (Employees.update pg t now id first context db).1
      ≡ (
        err (conflict "Employee was modified by another request" "version_mismatch"),
        (Employees.update pg t now id first context db).1,
      )
second_update_conflicts pg t now later id first second context other db after u h v =
    let db' : Db = (Employees.update pg t now id first context db).1 in
    let first_done = update_outcome pg t now id first context db u in
    let second_done =
      update_outcome pg t later id second other db'
        (update-IsKeyed pg t context now db u id first) in
    elim (Option-cases (live_employee t id db)) [
      | inl e ↦ absurd (failed db (first_done.0 e))
      | inr (before, e) ↦ elim (ℕ_discrete before.version first.version) [
        | no p ↦ absurd (failed db (first_done.1 before e p))
        | yes p ↦
            second_done.1 (set_employee before first before) (first_done.2 before e p).1
              (omega arith)
      ]
    ]
  where
    failed :
        {x : Exception} (db' : Db)
        → Employees.update pg t now id first context db ≡ (err x, db')
        → ⊥
    failed db' e = cc (h, ap (λ (r : Result EmployeeRow × Db). r.0) e)
