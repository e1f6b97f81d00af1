-- ===== src/Reminders/Jobs.antt =====
-- What all jobs of a scan have.
use employee_compliance_saas.Common.{
  ℕ, ◌≡◌, true, ◌&&◌, Option, none, some, List, [], ◌∷◌, ◌==◌, some_is, Bool-cases, inl, inr, All,
  All-append, arith,
}
use employee_compliance_saas.Database.Schema.{Uuid, Instant, DocumentRow, Db}
use employee_compliance_saas.Reminders.{ReminderJob, is_candidate, is_active_tenant}
use employee_compliance_saas.Reminders.Cadence.{
  due_job, due_jobs, thresholds_of, jobs_under, tenant_jobs,
}

module _ (t : Uuid) (now : Instant) (db : Db) (P : ReminderJob → Type 0) (Q : DocumentRow → Type 0)
    (due : (d : DocumentRow)
      → Q d
      → is_candidate t d ≡ true
      → (thresholds : List ℕ) → All P (due_job t thresholds now db d)) where
  due_jobs-All :
      (thresholds : List ℕ) (ds : List DocumentRow)
      → All Q ds
      → All P (due_jobs t thresholds now db ds)
  due_jobs-All thresholds [] h = tt
  due_jobs-All thresholds (d ∷ ds) (h, hs) =
      elim (Bool-cases (d.tenant_id == t && is_candidate t d)) [
        | inl e ↦ rw e (
            All-append P (due_job t thresholds now db d) (due_jobs t thresholds now db ds)
              (due d h (ground (arith, e)) thresholds) (due_jobs-All thresholds ds hs))
        | inr e ↦ rw e (due_jobs-All thresholds ds hs)
      ]

  jobs_under-All :
      (thresholds : Option (List ℕ)) → All Q db.documents → All P (jobs_under t now db thresholds)
  jobs_under-All none h = tt
  jobs_under-All (some thresholds) h = due_jobs-All thresholds db.documents h

  -- If the job that a candidate may be due has `P` wherever its document has `Q`, and all documents
  -- have `Q`, then all jobs of the scan have `P`.
  pub tenant_jobs-All : All Q db.documents → All P (tenant_jobs t now db)
  tenant_jobs-All h = elim (Bool-cases (some_is (is_active_tenant t) db.tenants)) [
    | inl e ↦ rw e (jobs_under-All (thresholds_of t db) h)
    | inr e ↦ rw e tt
  ]
