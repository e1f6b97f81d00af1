-- ===== src/Employees/Isolation.antt =====
-- Tenant isolation of the employee service.
use employee_compliance_saas.Common.{◌≡◌}
use employee_compliance_saas.Common.Exec.{Result, ok, err, Exec}
use employee_compliance_saas.Common.Exec.Keeps.{Keeps}
use employee_compliance_saas.Database.Schema.{Uuid, Instant, Db}
use employee_compliance_saas.Database.Session.{Postgres, Session}
use employee_compliance_saas.Database.Isolation.{others, InTenant, tenant_rules, others-transaction}
use employee_compliance_saas.Audit.{AuditContext}
use employee_compliance_saas.Audit.Write.{log-InTenant}
use employee_compliance_saas.Employees.{
  CreateEmployeeDto, UpdateEmployeeDto, translated, catch_duplicate, create_in, update_in,
  archive_in, create, update, archive,
}

module _ {t : Uuid} {o : Db} where
  translated-InTenant :
      {A : Type 0} (r : Result A) (s : Session)
      → InTenant t o s
      → InTenant t o (translated (r, s)).1
  translated-InTenant (ok a) s h = h
  translated-InTenant (err e) s h = h

  catch_duplicate-InTenant :
      {A : Type 0} (m : Exec Session A)
      → Keeps (InTenant t o) m
      → Keeps (InTenant t o) (catch_duplicate m)
  catch_duplicate-InTenant m k = record {
    at = λ s h. let (r, s') = m s in translated-InTenant r s' (k.at s h);
  }

ruleset employee_rules = (tenant_rules, catch_duplicate-InTenant, log-InTenant)

module _ (pg : Postgres) (t : Uuid) {o : Db} (context : AuditContext)
    (own : context.tenant_id ≡ t) where
  create_in-InTenant : (dto : CreateEmployeeDto) → Keeps (InTenant t o) (create_in pg t dto context)
  unfolding create_in
  create_in-InTenant dto = search employee_rules depth 12

  update_in-InTenant :
      (id : Uuid) (dto : UpdateEmployeeDto) → Keeps (InTenant t o) (update_in pg t id dto context)
  unfolding update_in
  update_in-InTenant id dto = search employee_rules depth 12

  archive_in-InTenant : (id : Uuid) → Keeps (InTenant t o) (archive_in pg t id context)
  unfolding archive_in
  archive_in-InTenant id = search employee_rules depth 12

module _ (pg : Postgres) (t : Uuid) (now : Instant) (context : AuditContext)
    (own : context.tenant_id ≡ t) where
  pub others-create :
      (dto : CreateEmployeeDto) (db : Db)
      → others t (create pg t now dto context db).1 ≡ others t db
  unfolding create
  others-create dto db =
      others-transaction t now (create_in pg t dto context) db
        (create_in-InTenant pg t context own dto)

  pub others-update :
      (id : Uuid) (dto : UpdateEmployeeDto) (db : Db)
      → others t (update pg t now id dto context db).1 ≡ others t db
  unfolding update
  others-update id dto db =
      others-transaction t now (update_in pg t id dto context) db
        (update_in-InTenant pg t context own id dto)

  pub others-archive :
      (id : Uuid) (db : Db) → others t (archive pg t now id context db).1 ≡ others t db
  unfolding archive
  others-archive id db =
      others-transaction t now (archive_in pg t id context) db
        (archive_in-InTenant pg t context own id)

  -- Creating, updating or archiving an employee in the tenant's name changes no row of another tenant
  -- in any table, whether or not the call throws. The condition: the audit context names the tenant.
  employees_isolated :
      (id : Uuid) (new_dto : CreateEmployeeDto) (dto : UpdateEmployeeDto) (db : Db)
      → (others t (create pg t now new_dto context db).1 ≡ others t db)
        × (others t (update pg t now id dto context db).1 ≡ others t db)
        × (others t (archive pg t now id context db).1 ≡ others t db)
  employees_isolated id new_dto dto db =
      (others-create new_dto db, others-update id dto db, others-archive id db)
