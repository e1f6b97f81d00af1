-- ===== src/Imports/Isolation.antt =====
-- Tenant isolation of the import worker.
use employee_compliance_saas.Common.{◌≡◌, List, [], ◌∷◌}
use employee_compliance_saas.Common.Exec.Keeps.{Keeps}
use employee_compliance_saas.Database.Schema.{Instant, Db, IdempotencyKeyRow}
use employee_compliance_saas.Database.Isolation.{others, InTenant, tenant_rules, others-transaction}
use employee_compliance_saas.Imports.{
  ImportJob, claim_unless, process_active, process_in, process_import,
}

module _ (job : ImportJob) where
  claim_unless-InTenant :
      {o : Db} (keys : List IdempotencyKeyRow)
      → Keeps (InTenant job.tenant_id o) (claim_unless job keys)
  claim_unless-InTenant [] = search tenant_rules depth 12
  claim_unless-InTenant (key ∷ rest) = search tenant_rules depth 12

  process_in-InTenant : {o : Db} → Keeps (InTenant job.tenant_id o) (process_in job)
  unfolding process_in process_active
  process_in-InTenant = search (tenant_rules, claim_unless-InTenant) depth 12

  pub others-process_import :
      (now : Instant) (db : Db)
      → others job.tenant_id (process_import now job db).1 ≡ others job.tenant_id db
  unfolding process_import
  others-process_import now db =
      others-transaction job.tenant_id now (process_in job) db process_in-InTenant
