-- ===== src/Imports.antt =====
-- The import worker: apps/worker/src/workers/import.worker.ts, which claims the key of an import.
pub mod Claimed
pub mod Isolation
pub mod Rows
pub mod Service
pub mod Upload
use employee_compliance_saas.Common.{
  ℕ, String, Bool, true, false, Option, none, some, List, [], ◌∷◌, if◌then◌else◌,
}
use employee_compliance_saas.Common.Exec.{plain_error, Exec, pure, throw, ◌>>=◌, ◌>>◌}
use employee_compliance_saas.Database.Schema.{Uuid, Instant, IdempotencyKey, IdempotencyKeyRow, Db}
use employee_compliance_saas.Database.Session.{
  Session, transaction, set_tenant_context, now_of, select_keys, same_key, insert_key,
}
use employee_compliance_saas.Reminders.{tenant_is_active}

-- The data of a `process-import` job.
pub record ImportJob : Type 0 where
  pub tenant_id : Uuid
  pub idempotency_key : IdempotencyKey
  pub row_count : ℕ

abbrev pub claim : ImportJob → Exec Session (Unit {0})
claim job = do
  now ← now_of
  insert_key (record { key = job.idempotency_key; tenant_id = job.tenant_id; created_at = now })
  pure tt

abbrev pub claim_unless : ImportJob → List IdempotencyKeyRow → Exec Session (Unit {0})
claim_unless job [] = claim job
claim_unless job (_ ∷ _) = pure tt

process_active : ImportJob → Exec Session (Unit {0})
process_active job = do
  existing ← select_keys (λ k. same_key k.key job.idempotency_key)
  claim_unless job existing

process_in : ImportJob → Exec Session (Unit {0})
process_in job = do
  active ← tenant_is_active job.tenant_id
  if active then process_active job else throw (plain_error "Tenant not active or not found")

-- One job whose data has passed its schema.
unfoldable pub process_import : Instant → ImportJob → Exec Db (Unit {0})
unfolding process_in process_active
process_import now job = transaction now (set_tenant_context job.tenant_id >> process_in job)
