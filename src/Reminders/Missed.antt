-- ===== src/Reminders/Missed.antt =====
-- A reminder whose delivery has failed, on the days after.
use employee_compliance_saas.Common.{
  ℕ, ◌<◌, ◌/◌, ◌≡◌, refl, sym, ◌∙◌, String, Bool, true, false, ◌&&◌, Option, none, some, List,
  arith, ◌==◌, some_is, Bool-cases, inl, inr, ==_iff, All,
}
use employee_compliance_saas.Common.Exec.{ok}
use employee_compliance_saas.Common.Int.{ℤ, pos, negsuc, sub_ℕ}
use employee_compliance_saas.Common.Text.{is_empty}
use employee_compliance_saas.Calendar.{ms_per_day}
use employee_compliance_saas.Calendar.Reading.{read_back}
use employee_compliance_saas.Dashboard.Window.{IsPrinted}
use employee_compliance_saas.Database.Schema.{Uuid, Instant, DocumentRow, Db}
use employee_compliance_saas.Reminders.{ReminderJob, is_candidate, job_for, days_left, scan_tenant}
use employee_compliance_saas.Reminders.Cadence.{
  due_threshold, is_reminded, job_unless, job_at, due_job, tenant_jobs, scan_tenant_lem,
}
use employee_compliance_saas.Reminders.Jobs.{tenant_jobs-All}

-- The days left until a printed date differ from day to day.
other_day :
    (date : Option String) (now later : Instant) (n : ℕ)
    → IsPrinted date
    → now / ms_per_day < later / ms_per_day
    → days_left date now ≡ some (pos n)
    → (days : ℕ) → days_left date later ≡ some (pos days)
    → (days == n) ≡ false
other_day none now later n p h k days e = cc
other_day (some s) now later n (instant, printed, year) h k days e =
    elim (Bool-cases (is_empty s)) [
      | inl empty ↦ absurd (nothing (rw empty at k))
      | inr full ↦
          let today = sym (read_back s instant now printed year) ∙ (rw full at k) in
          let then' = sym (read_back s instant later printed year) ∙ (rw full at e) in
          differ (instant / ms_per_day) (now / ms_per_day) (later / ms_per_day) n days h today then'
    ]
  where
    nothing : ◌≡◌ {A = Option ℤ} none (some (pos n)) → ⊥
    nothing e = cc

    differ :
        (x a b n days : ℕ)
        → a < b
        → some (sub_ℕ x a) ≡ some (pos n)
        → some (sub_ℕ x b) ≡ some (pos days)
        → (days == n) ≡ false
    differ x a b n days h e k = ground (arith, h, e, k)

due_exactly :
    (thresholds : List ℕ) (left : Option ℤ) (days : ℕ)
    → due_threshold thresholds left ≡ some days
    → left ≡ some (pos days)
due_exactly thresholds none days h = cc
due_exactly thresholds (some (negsuc n)) days h = cc
due_exactly thresholds (some (pos d)) days h =
    elim (Bool-cases (some_is (λ threshold. d == threshold) thresholds)) [
      | inl e ↦ let same : some d ≡ some days = rw e at h in cc
      | inr e ↦ let same : ◌≡◌ {A = Option ℕ} none (some days) = rw e at h in cc
    ]

-- If the row is the document, its days left at `now` are `n`.
abbrev pub IsDueThen : Uuid → ℕ → Instant → DocumentRow → Type 0
IsDueThen document n now d =
    d.id ≡ document → IsPrinted d.expiry_date × (days_left d.expiry_date now ≡ some (pos n))

abbrev pub IsOther : Uuid → ℕ → ReminderJob → Type 0
IsOther document n j = (j.document_id == document && j.days_before_expiry == n) ≡ false

module _ (t document : Uuid) (n : ℕ) (now later : Instant) (db : Db)
    (next : now / ms_per_day < later / ms_per_day) where
  job_at-IsOther :
      (id : Uuid) (due : Option ℕ)
      → ((days : ℕ) → due ≡ some days → id ≡ document → (days == n) ≡ false)
      → All (IsOther document n) (job_at t db id due)
  job_at-IsOther id none h = tt
  job_at-IsOther id (some days) h = go (is_reminded t id days db)
    where
      other : (id == document && days == n) ≡ false
      other = elim (Bool-cases (id == document)) [
        | inl e ↦ rw (e, h days refl ((==_iff id document).0 e)) refl
        | inr e ↦ rw e refl
      ]

      go : (b : Bool) → All (IsOther document n) (job_unless b (job_for t id days))
      go true = tt
      go false = (other, tt)

  due_job-IsOther :
      (d : DocumentRow)
      → IsDueThen document n now d
      → is_candidate t d ≡ true
      → (thresholds : List ℕ) → All (IsOther document n) (due_job t thresholds later db d)
  due_job-IsOther d h candidate thresholds =
      job_at-IsOther d.id (due_threshold thresholds (days_left d.expiry_date later)) (λ days e same.
        let (printed, left) = h same in
        other_day d.expiry_date now later n printed next left days
          (due_exactly thresholds (days_left d.expiry_date later) days e))

  -- A reminder for `n` days before the expiry is due on one day only: if a document's days left are
  -- `n` at some instant, then no scan on a later day adds a job for the document and `n` days,
  -- whatever the log holds, also if the delivery on that day has failed. The dates of the document are
  -- printed as the program prints them, from 1970 to 9999.
  pub missed_for_good :
      All (IsDueThen document n now) db.documents
      → (jobs : List ReminderJob) × (scan_tenant later t db ≡ (ok jobs, db))
        × All (IsOther document n) jobs
  missed_for_good h = (
    tenant_jobs t later db,
    scan_tenant_lem t later db,
    tenant_jobs-All t later db (IsOther document n) (IsDueThen document n now) due_job-IsOther h,
  )
