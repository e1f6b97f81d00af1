-- ===== src/Employees/Batches.antt =====
-- The employee service leaves the import batches alone.
use employee_compliance_saas.Common.{
  ◌≡◌, refl, ap, ◌∙◌, Bool, Option, none, some, List, [], ◌∷◌, ◌++◌, not, some_is,
}
use employee_compliance_saas.Common.Exec.{Exception, Result, ok, err, Exec, ◌>>◌}
use employee_compliance_saas.Common.Exec.Keeps.{Keeps, keeps_rules}
use employee_compliance_saas.Database.Schema.{Uuid, Instant, Db, EmployeeRow, ImportBatchRow}
use employee_compliance_saas.Database.Session.{
  Postgres, Session, transaction, finish, set_tenant_context, fresh_uuid, first_or, insert_unless,
  refused_by, same_employee, tenant_missing, insert_employee, update_employees,
}
use employee_compliance_saas.Database.Table.{is_visible}
use employee_compliance_saas.Audit.{AuditContext, Entry, log}
use employee_compliance_saas.Audit.Write.{frame-log}
use employee_compliance_saas.Employees.{
  CreateEmployeeDto, UpdateEmployeeDto, translated, catch_duplicate, create_in, update_in,
}
use employee_compliance_saas.Employees

record HasBatches (batches : List ImportBatchRow) (s : Session) : Type 0 where
  same : s.db.import_batches ≡ batches

module _ {batches : List ImportBatchRow} where
  insert_unless-HasBatches :
      (refusal : Option Exception) (after : Db) (row : EmployeeRow) (s : Session)
      → HasBatches batches s
      → after.import_batches ≡ s.db.import_batches
      → HasBatches batches (insert_unless refusal after row s).1
  insert_unless-HasBatches none after row s h e = record { same = e ∙ h.same }
  insert_unless-HasBatches (some x) after row s h e = h

  insert_employee-HasBatches :
      (row : EmployeeRow) → Keeps (HasBatches batches) (insert_employee row)
  unfolding insert_employee
  insert_employee-HasBatches row = record {
    at = λ s h.
        insert_unless-HasBatches
          (refused_by (not (is_visible s.current_tenant row.tenant_id))
            (some_is (same_employee row) s.db.employees) (tenant_missing row.tenant_id s))
          (record s.db { employees = s.db.employees ++ row ∷ [] }) row s h refl;
  }

  update_employees-HasBatches :
      (p : EmployeeRow → Bool) (f : EmployeeRow → EmployeeRow)
      → Keeps (HasBatches batches) (update_employees p f)
  unfolding update_employees
  update_employees-HasBatches p f = record { at = λ s h. record { same = h.same } }

  fresh_uuid-HasBatches : (pg : Postgres) → Keeps (HasBatches batches) (fresh_uuid pg)
  fresh_uuid-HasBatches pg = record { at = λ s h. record { same = h.same } }

  log-HasBatches : (pg : Postgres) (e : Entry) → Keeps (HasBatches batches) (log pg e)
  log-HasBatches pg e = record {
    at = λ s h. record {
      same = ap (λ (s : Session). s.db.import_batches) (frame-log pg e s) ∙ h.same;
    };
  }

  first_or-HasBatches :
      {A : Type 0} (e : Exception) (rows : List A) → Keeps (HasBatches batches) (first_or e rows)
  first_or-HasBatches e [] = record { at = λ s h. h }
  first_or-HasBatches e (row ∷ rows) = record { at = λ s h. h }

  translated-HasBatches :
      {A : Type 0} (r : Result A) (s : Session)
      → HasBatches batches s
      → HasBatches batches (translated (r, s)).1
  translated-HasBatches (ok a) s h = h
  translated-HasBatches (err e) s h = h

  catch_duplicate-HasBatches :
      {A : Type 0} (m : Exec Session A)
      → Keeps (HasBatches batches) m
      → Keeps (HasBatches batches) (catch_duplicate m)
  catch_duplicate-HasBatches m k = record {
    at = λ s h. let (r, s') = m s in translated-HasBatches r s' (k.at s h);
  }

ruleset batch_rules = (
  keeps_rules, insert_employee-HasBatches, update_employees-HasBatches, fresh_uuid-HasBatches,
  log-HasBatches, first_or-HasBatches, catch_duplicate-HasBatches,
)

finished :
    {A : Type 0} (db : Db) (r : Result A) (s : Session)
    → HasBatches db.import_batches s
    → (finish db (r, s)).1.import_batches ≡ db.import_batches
finished db (ok a) s h = h.same
finished db (err e) s h = refl

transaction-batches :
    {A : Type 0} (t : Uuid) (now : Instant) (body : Exec Session A) (db : Db)
    → Keeps (HasBatches db.import_batches) body
    → (transaction now (set_tenant_context t >> body) db).1.import_batches ≡ db.import_batches
transaction-batches t now body db k =
    let s : Session = record { db = db; current_tenant = some t; now = now } in
    let (r, s') = body s in finished db r s' (k.at s (record { same = refl }))

module _ (pg : Postgres) (t : Uuid) (now : Instant) (context : AuditContext) (db : Db) where
  create_in-HasBatches :
      (dto : CreateEmployeeDto) → Keeps (HasBatches db.import_batches) (create_in pg t dto context)
  unfolding create_in
  create_in-HasBatches dto = search batch_rules depth 12

  update_in-HasBatches :
      (id : Uuid) (dto : UpdateEmployeeDto)
      → Keeps (HasBatches db.import_batches) (update_in pg t id dto context)
  unfolding update_in
  update_in-HasBatches id dto = search batch_rules depth 12

  pub batches-create :
      (dto : CreateEmployeeDto)
      → (Employees.create pg t now dto context db).1.import_batches ≡ db.import_batches
  unfolding Employees.create
  batches-create dto =
      transaction-batches t now (create_in pg t dto context) db (create_in-HasBatches dto)

  pub batches-update :
      (id : Uuid) (dto : UpdateEmployeeDto)
      → (Employees.update pg t now id dto context db).1.import_batches ≡ db.import_batches
  unfolding Employees.update
  batches-update id dto =
      transaction-batches t now (update_in pg t id dto context) db (update_in-HasBatches id dto)
