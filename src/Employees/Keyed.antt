-- ===== src/Employees/Keyed.antt =====
-- No two employees have one id, and no two of one tenant have one code.
use employee_compliance_saas.Common.{
  ◌≡◌, refl, ap, Bool, true, false, not, ◌&&◌, Option, some, List, [], ◌∷◌, ◌++◌, if◌then◌else◌,
  some_is,
}
use employee_compliance_saas.Common.Exec.{Exec, Exception, Result, ok, err}
use employee_compliance_saas.Common.Exec.Keeps.{Keeps, keeps_rules}
use employee_compliance_saas.Database.Schema.{Uuid, Instant, Db, EmployeeRow}
use employee_compliance_saas.Database.Table.{is_visible, set_row}
use employee_compliance_saas.Database.Keys.{Unique, Unique-append, Unique-map}
use employee_compliance_saas.Database.Session.{
  Postgres, Session, transaction, finish, fresh_uuid, first_or, insert_unless, refused_by,
  tenant_missing, same_employee, insert_employee, update_employees,
}
use employee_compliance_saas.Audit.{AuditContext, Entry, log}
use employee_compliance_saas.Audit.Write.{frame-log}
use employee_compliance_saas.Employees.{
  CreateEmployeeDto, UpdateEmployeeDto, translated, catch_duplicate, create_in, update_in,
  archive_in,
}
use employee_compliance_saas.Employees

abbrev pub IsKeyed : Db → Type 0
IsKeyed db = Unique same_employee db.employees

record Keyed (s : Session) : Type 0 where
  keyed : Unique same_employee s.db.employees

insert_check :
    (hidden clash dangling : Bool) (after : Db) (row : EmployeeRow) (s : Session)
    → Keyed s
    → (clash ≡ false → Unique same_employee after.employees)
    → Keyed (insert_unless (refused_by hidden clash dangling) after row s).1
insert_check true clash dangling after row s h k = h
insert_check false true dangling after row s h k = h
insert_check false false true after row s h k = h
insert_check false false false after row s h k = record { keyed = k refl }

insert_employee-Keyed : (row : EmployeeRow) → Keeps Keyed (insert_employee row)
unfolding insert_employee
insert_employee-Keyed row = record {
  at = λ s h.
      insert_check (not (is_visible s.current_tenant row.tenant_id))
        (some_is (same_employee row) s.db.employees) (tenant_missing row.tenant_id s)
        (record s.db { employees = s.db.employees ++ row ∷ [] }) row s h
        (λ e. Unique-append same_employee s.db.employees row e h.keyed);
}

-- An update that leaves the key columns alone.
record KeepsKey (f : EmployeeRow → EmployeeRow) : Type 0 where
  id : (e : EmployeeRow) → (f e).id ≡ e.id
  tenant : (e : EmployeeRow) → (f e).tenant_id ≡ e.tenant_id
  code : (e : EmployeeRow) → (f e).employee_code ≡ e.employee_code

set_row-same :
    (current : Option Uuid) (p : EmployeeRow → Bool) (f : EmployeeRow → EmployeeRow)
    → KeepsKey f
    → (y z : EmployeeRow)
    → same_employee
        (set_row (λ r. r.tenant_id) current p f y)
        (set_row (λ r. r.tenant_id) current p f z)
      ≡ same_employee y z
set_row-same current p f k y z =
    go (is_visible current y.tenant_id && p y) (is_visible current z.tenant_id && p z)
  where
    go :
        (a b : Bool)
        → same_employee (if a then f y else y) (if b then f z else z) ≡ same_employee y z
    go true true = rw (k.id y, k.id z, k.tenant y, k.tenant z, k.code y, k.code z)
    go true false = rw (k.id y, k.tenant y, k.code y)
    go false true = rw (k.id z, k.tenant z, k.code z)
    go false false = refl

update_employees-Keyed :
    (p : EmployeeRow → Bool) (f : EmployeeRow → EmployeeRow)
    → KeepsKey f
    → Keeps Keyed (update_employees p f)
unfolding update_employees
update_employees-Keyed p f k = record {
  at = λ s h. record {
    keyed =
        Unique-map same_employee (set_row (λ r. r.tenant_id) s.current_tenant p f) s.db.employees
          (set_row-same s.current_tenant p f k) h.keyed;
  };
}

fresh_uuid-Keyed : (pg : Postgres) → Keeps Keyed (fresh_uuid pg)
fresh_uuid-Keyed pg = record { at = λ s h. record { keyed = h.keyed } }

log-Keyed : (pg : Postgres) (e : Entry) → Keeps Keyed (log pg e)
log-Keyed pg e = record {
  at = λ s h. record {
    keyed = rw (ap (λ (s : Session). s.db.employees) (frame-log pg e s)) h.keyed;
  };
}

first_or-Keyed : {A : Type 0} (e : Exception) (rows : List A) → Keeps Keyed (first_or e rows)
first_or-Keyed e [] = record { at = λ s h. h }
first_or-Keyed e (row ∷ rows) = record { at = λ s h. h }

catch_duplicate-Keyed :
    {A : Type 0} (m : Exec Session A) → Keeps Keyed m → Keeps Keyed (catch_duplicate m)
catch_duplicate-Keyed m k = record { at = λ s h. let (r, s') = m s in go r s' (k.at s h) }
  where
    go : {A : Type 0} (r : Result A) (s : Session) → Keyed s → Keyed (translated (r, s)).1
    go (ok a) s h = h
    go (err e) s h = h

ruleset keyed_rules = (
  keeps_rules, insert_employee-Keyed, update_employees-Keyed, fresh_uuid-Keyed, log-Keyed,
  first_or-Keyed, catch_duplicate-Keyed,
)

transaction-Keyed :
    {A : Type 0} (t : Uuid) (now : Instant) (body : Exec Session A) (db : Db)
    → Keeps Keyed body
    → IsKeyed db
    → IsKeyed (transaction now (λ s. body (record s { current_tenant = some t })) db).1
transaction-Keyed t now body db k h =
    let (r, s') = body (record { db = db; current_tenant = some t; now = now }) in
    go r s' (k.at _ (record { keyed = h }))
  where
    go : {A : Type 0} (r : Result A) (s : Session) → Keyed s → IsKeyed (finish db (r, s)).1
    go (ok a) s k = k.keyed
    go (err e) s k = h

module _ (pg : Postgres) (t : Uuid) (context : AuditContext) where
  create_in-Keyed : (dto : CreateEmployeeDto) → Keeps Keyed (create_in pg t dto context)
  unfolding create_in
  create_in-Keyed dto = search keyed_rules depth 12

  update_in-Keyed :
      (id : Uuid) (dto : UpdateEmployeeDto) → Keeps Keyed (update_in pg t id dto context)
  unfolding update_in
  update_in-Keyed id dto = search (keyed_rules, λ (b : EmployeeRow). set-KeepsKey b dto) depth 12
    where
      set-KeepsKey :
          (b : EmployeeRow) (dto : UpdateEmployeeDto) → KeepsKey (Employees.set_employee b dto)
      set-KeepsKey b dto = record { id = λ e. refl; tenant = λ e. refl; code = λ e. refl }

  archive_in-Keyed : (id : Uuid) → Keeps Keyed (archive_in pg t id context)
  unfolding archive_in
  archive_in-Keyed id = search (keyed_rules, archived-KeepsKey) depth 12
    where
      archived-KeepsKey : (now : Instant) → KeepsKey (Employees.set_archived now)
      archived-KeepsKey now = record { id = λ e. refl; tenant = λ e. refl; code = λ e. refl }

  module _ (now : Instant) (db : Db) (h : IsKeyed db) where
    pub create-IsKeyed :
        (dto : CreateEmployeeDto) → IsKeyed (Employees.create pg t now dto context db).1
    unfolding Employees.create
    create-IsKeyed dto =
        transaction-Keyed t now (create_in pg t dto context) db (create_in-Keyed dto) h

    pub update-IsKeyed :
        (id : Uuid) (dto : UpdateEmployeeDto)
        → IsKeyed (Employees.update pg t now id dto context db).1
    unfolding Employees.update
    update-IsKeyed id dto =
        transaction-Keyed t now (update_in pg t id dto context) db (update_in-Keyed id dto) h

    pub archive-IsKeyed : (id : Uuid) → IsKeyed (Employees.archive pg t now id context db).1
    unfolding Employees.archive
    archive-IsKeyed id =
        transaction-Keyed t now (archive_in pg t id context) db (archive_in-Keyed id) h

    -- Where no two employee rows share an id, or a tenant and a code, none do after each of the three
    -- operations, whatever it is given and whether or not it throws.
    pub employees-IsKeyed :
        (id : Uuid) (new_dto : CreateEmployeeDto) (dto : UpdateEmployeeDto)
        → IsKeyed (Employees.create pg t now new_dto context db).1
          × IsKeyed (Employees.update pg t now id dto context db).1
          × IsKeyed (Employees.archive pg t now id context db).1
    employees-IsKeyed id new_dto dto =
        (create-IsKeyed new_dto, update-IsKeyed id dto, archive-IsKeyed id)
