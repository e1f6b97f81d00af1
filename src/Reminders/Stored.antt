-- ===== src/Reminders/Stored.antt =====
-- The scan goes by the stored status, which no job recomputes.
use employee_compliance_saas.Common.{
  ℕ, ◌≡◌, Bool, true, false, ◌&&◌, Option, none, some, List, arith, ◌==◌, All,
}
use employee_compliance_saas.Common.Exec.{ok}
use employee_compliance_saas.Database.Schema.{
  Uuid, Instant, DocumentRow, expiring_soon, same_status, Db,
}
use employee_compliance_saas.Reminders.{ReminderJob, is_candidate, job_for, scan_tenant, days_left}
use employee_compliance_saas.Reminders.Cadence.{
  due_threshold, is_reminded, job_unless, job_at, due_job, tenant_jobs, scan_tenant_lem,
}
use employee_compliance_saas.Reminders.Jobs.{tenant_jobs-All}

module _ (t id : Uuid) (now : Instant) (db : Db) where
  -- A row that is not this document, or not stored as EXPIRING_SOON.
  abbrev pub IsOtherwise : DocumentRow → Type 0
  IsOtherwise d = (d.id == id && same_status d.expiry_status expiring_soon) ≡ false

  abbrev pub IsForAnother : ReminderJob → Type 0
  IsForAnother j = (j.document_id == id) ≡ false

  job_at-IsForAnother :
      (document : Uuid) (due : Option ℕ)
      → (document == id) ≡ false
      → All IsForAnother (job_at t db document due)
  job_at-IsForAnother document none h = tt
  job_at-IsForAnother document (some days) h = go (is_reminded t document days db)
    where
      go : (b : Bool) → All IsForAnother (job_unless b (job_for t document days))
      go true = tt
      go false = (h, tt)

  due_job-IsForAnother :
      (d : DocumentRow)
      → IsOtherwise d
      → is_candidate t d ≡ true
      → (thresholds : List ℕ) → All IsForAnother (due_job t thresholds now db d)
  due_job-IsForAnother d h candidate thresholds =
      job_at-IsForAnother d.id (due_threshold thresholds (days_left d.expiry_date now))
        (ground (arith, h, candidate))

  -- A document whose stored status is not EXPIRING_SOON is in no job of a scan, on whatever day the
  -- scan runs and however close the expiry date has come.
  pub stored_status_decides :
      All IsOtherwise db.documents
      → (jobs : List ReminderJob) × (scan_tenant now t db ≡ (ok jobs, db)) × All IsForAnother jobs
  stored_status_decides h = (
    tenant_jobs t now db,
    scan_tenant_lem t now db,
    tenant_jobs-All t now db IsForAnother IsOtherwise due_job-IsForAnother h,
  )
