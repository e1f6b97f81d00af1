-- ===== src/Imports/Claimed.antt =====
-- What becomes of one import job.
use employee_compliance_saas.Common.{
  ◌≡◌, refl, ◌∙◌, [], ◌∷◌, ◌++◌, if◌then◌else◌, some_is, Bool-cases, inl, inr, ==_iff,
}
use employee_compliance_saas.Common.Exec.{plain_error, ok, err}
use employee_compliance_saas.Database.Schema.{Instant, Db}
use employee_compliance_saas.Database.Session.{same_key, insert_key}
use employee_compliance_saas.Reminders.{is_active_tenant}
use employee_compliance_saas.Reminders.Dispatch.Outcome.{is_claimed, keep-claimed, keep-unclaimed}
use employee_compliance_saas.Imports.{ImportJob, process_import}

module _ (now : Instant) (job : ImportJob) (db : Db) where
  abbrev pub claimed_db : Db
  claimed_db = record db {
    idempotency_keys =
        db.idempotency_keys
        ++ record { key = job.idempotency_key; tenant_id = job.tenant_id; created_at = now } ∷ [];
  }

  -- An import job of an inactive tenant fails and changes nothing; of an active tenant it succeeds and
  -- claims the key, or, where the tenant has claimed it before, changes nothing. The condition: no
  -- other tenant has the key.
  pub process_import_outcome :
      some_is (λ k. same_key k.key job.idempotency_key) db.idempotency_keys
        ≡ is_claimed job.tenant_id job.idempotency_key db
      → process_import now job db ≡ (
          if some_is (is_active_tenant job.tenant_id) db.tenants
          then (ok tt, if is_claimed job.tenant_id job.idempotency_key db then db else claimed_db)
          else (err (plain_error "Tenant not active or not found"), db))
  unfolding process_import insert_key
  process_import_outcome h =
      elim (Bool-cases (some_is (is_active_tenant job.tenant_id) db.tenants)) [
        | inr e ↦ rw e
        | inl e ↦ elim (Bool-cases (is_claimed job.tenant_id job.idempotency_key db)) [
          | inl c ↦
              let (key, rest, k) =
                keep-claimed job.tenant_id job.idempotency_key db.idempotency_keys c in
              rw (e, k, c)
          | inr c ↦ rw (
            e,
            keep-unclaimed job.tenant_id job.idempotency_key db.idempotency_keys (h ∙ c),
            (==_iff job.tenant_id job.tenant_id).1 refl,
            h ∙ c,
            c,
          )
        ]
      ]
