-- ===== src/Reminders/Due.antt =====
-- The jobs of one scan: no two have one key, and all are of the tenant, which is active.
use employee_compliance_saas.Common.{
  ℕ, ◌≡◌, refl, true, false, ◌&&◌, Option, none, some, List, [], ◌∷◌, ◌++◌, arith, ◌==◌, some_is,
  Bool-cases, inl, inr, All,
}
use employee_compliance_saas.Database.Schema.{Uuid, Instant, DocumentRow, Db}
use employee_compliance_saas.Database.Session.{same_key}
use employee_compliance_saas.Database.Keys.{Unique}
use employee_compliance_saas.Documents.Update.{same_document}
use employee_compliance_saas.Reminders.{
  ReminderJob, is_active_tenant, is_candidate, job_for, days_left,
}
use employee_compliance_saas.Reminders.Cadence.{
  due_threshold, is_reminded, job_at, due_jobs, jobs_under, tenant_jobs, thresholds_of,
}

-- No two jobs have one key.
abbrev pub AreApart : List ReminderJob → Type 0
AreApart [] = Unit
AreApart (job ∷ jobs) =
    All (λ other. same_key job.idempotency_key other.idempotency_key ≡ false) jobs × AreApart jobs

-- The jobs of one tenant, for documents of a list.
abbrev IsOf : Uuid → List DocumentRow → ReminderJob → Type 0
IsOf t ds job =
    (document : ℕ) × (days : ℕ) × (job ≡ job_for t document days)
    × (some_is (λ d. d.id == document) ds ≡ true)

All-IsOf-more :
    (t : Uuid) (d : DocumentRow) (ds : List DocumentRow) (jobs : List ReminderJob)
    → All (IsOf t ds) jobs
    → All (IsOf t (d ∷ ds)) jobs
All-IsOf-more t d ds [] h = tt
All-IsOf-more t d ds (job ∷ jobs) ((document, days, is, k), h) =
    ((document, days, is, ground (arith, k)), All-IsOf-more t d ds jobs h)

other_id :
    (x y : ℕ) (ds : List DocumentRow)
    → some_is (λ d. d.id == x) ds ≡ false
    → some_is (λ d. d.id == y) ds ≡ true
    → (x == y) ≡ false
other_id x y [] h k = cc
other_id x y (d ∷ ds) h k = ground (arith, h, k, other_id x y ds)

apart_from :
    (t : Uuid) (document days : ℕ) (ds : List DocumentRow) (jobs : List ReminderJob)
    → some_is (λ d. d.id == document) ds ≡ false
    → All (IsOf t ds) jobs
    → All
        (λ other. same_key (job_for t document days).idempotency_key other.idempotency_key ≡ false)
        jobs
apart_from t document days ds [] h k = tt
apart_from t document days ds (job ∷ jobs) h ((other, days', is, k), l) =
    (rw (is, other_id document other ds h k) refl, apart_from t document days ds jobs h l)

record AreOf (t : Uuid) (ds : List DocumentRow) (jobs : List ReminderJob) : Type 0 where
  of : All (IsOf t ds) jobs
  apart : AreApart jobs

more-AreOf :
    (t : Uuid) (d : DocumentRow) (ds : List DocumentRow) (jobs : List ReminderJob)
    → AreOf t ds jobs
    → AreOf t (d ∷ ds) jobs
more-AreOf t d ds jobs h = record { of = All-IsOf-more t d ds jobs h.of; apart = h.apart }

module _ (t : Uuid) (thresholds : List ℕ) (now : Instant) (db : Db) where
  job_at-AreOf :
      (d : DocumentRow) (ds : List DocumentRow) (jobs : List ReminderJob) (due : Option ℕ)
      → some_is (λ e. same_document e d) ds ≡ false
      → AreOf t ds jobs
      → AreOf t (d ∷ ds) (job_at t db d.id due ++ jobs)
  job_at-AreOf d ds jobs none h k = more-AreOf t d ds jobs k
  job_at-AreOf d ds jobs (some days) h k = elim (Bool-cases (is_reminded t d.id days db)) [
    | inl e ↦ rw e (more-AreOf t d ds jobs k)
    | inr e ↦ rw e (record {
      of = ((d.id, days, refl, ground arith), All-IsOf-more t d ds jobs k.of);
      apart = (apart_from t d.id days ds jobs h k.of, k.apart);
    })
  ]

  due_jobs-AreOf :
      (ds : List DocumentRow)
      → Unique same_document ds
      → AreOf t ds (due_jobs t thresholds now db ds)
  due_jobs-AreOf [] u = record { of = tt; apart = tt }
  due_jobs-AreOf (d ∷ ds) (k, u) = elim (Bool-cases (d.tenant_id == t && is_candidate t d)) [
    | inl e ↦ rw e (
        job_at-AreOf d ds (due_jobs t thresholds now db ds)
          (due_threshold thresholds (days_left d.expiry_date now)) k (due_jobs-AreOf ds u))
    | inr e ↦ rw e (more-AreOf t d ds (due_jobs t thresholds now db ds) (due_jobs-AreOf ds u))
  ]

nothing-AreOf : (t : Uuid) (ds : List DocumentRow) → AreOf t ds []
nothing-AreOf t ds = record { of = tt; apart = tt }

jobs_under-AreOf :
    (t : Uuid) (now : Instant) (db : Db) (thresholds : Option (List ℕ))
    → Unique same_document db.documents
    → AreOf t db.documents (jobs_under t now db thresholds)
jobs_under-AreOf t now db none u = nothing-AreOf t db.documents
jobs_under-AreOf t now db (some thresholds) u = due_jobs-AreOf t thresholds now db db.documents u

-- Jobs of an active tenant.
abbrev pub AreActive : Uuid → Db → List ReminderJob → Type 0
AreActive t db jobs = All (λ job. some_is (is_active_tenant job.tenant_id) db.tenants ≡ true) jobs

All-IsOf-active :
    (t : Uuid) (db : Db) (ds : List DocumentRow) (jobs : List ReminderJob)
    → some_is (is_active_tenant t) db.tenants ≡ true
    → All (IsOf t ds) jobs
    → AreActive t db jobs
All-IsOf-active t db ds [] h k = tt
All-IsOf-active t db ds (job ∷ jobs) h ((document, days, is, k), l) =
    (rw is h, All-IsOf-active t db ds jobs h l)

pub tenant_jobs-AreActive :
    (t : Uuid) (now : Instant) (db : Db)
    → Unique same_document db.documents
    → AreApart (tenant_jobs t now db) × AreActive t db (tenant_jobs t now db)
tenant_jobs-AreActive t now db u = elim (Bool-cases (some_is (is_active_tenant t) db.tenants)) [
  | inl e ↦
      let h = jobs_under-AreOf t now db (thresholds_of t db) u in
      rw e (
        h.apart,
        All-IsOf-active t db db.documents (jobs_under t now db (thresholds_of t db)) e h.of,
      )
  | inr e ↦ rw e (tt, tt)
]
