-- ===== src/Reminders/Cadence.antt =====
-- The jobs of the daily scan, described document by document.
use employee_compliance_saas.Common.{
  ℕ, ◌≡◌, refl, Bool, true, false, ◌&&◌, Option, none, some, List, [], ◌∷◌, ◌++◌, arith, ◌==◌,
  if◌then◌else◌, keep, some_is, Bool-cases, inl, inr,
}
use employee_compliance_saas.Common.Exec.{Result, ok}
use employee_compliance_saas.Common.Int.{ℤ, pos, negsuc}
use employee_compliance_saas.Database.Schema.{Uuid, Instant, DocumentRow, NotificationPolicyRow, Db}
use employee_compliance_saas.Database.Table.{select}
use employee_compliance_saas.Database.Session.{Session}
use employee_compliance_saas.Reminders.{
  ReminderJob, match_reminder_threshold, default_reminder_days_before, is_active_tenant,
  already_sent, job_for, unless_sent, days_left, enqueue, scan_documents, is_candidate,
  scan_candidates, scan_under, scan_tenant,
}

-- The day count, if it is one of the thresholds.
abbrev pub due_threshold : List ℕ → Option ℤ → Option ℕ
due_threshold thresholds (some (pos d)) =
    if some_is (λ threshold. d == threshold) thresholds then some d else none
due_threshold thresholds _ = none

match_reminder_threshold_lem :
    (days : Option ℤ) (thresholds : List ℕ)
    → match_reminder_threshold days thresholds ≡ due_threshold thresholds days
unfolding match_reminder_threshold
match_reminder_threshold_lem none [] = refl
match_reminder_threshold_lem none (x ∷ xs) = match_reminder_threshold_lem none xs
match_reminder_threshold_lem (some (negsuc n)) [] = refl
match_reminder_threshold_lem (some (negsuc n)) (x ∷ xs) =
    match_reminder_threshold_lem (some (negsuc n)) xs
match_reminder_threshold_lem (some (pos d)) [] = refl
match_reminder_threshold_lem (some (pos d)) (x ∷ xs) =
    ground (arith, match_reminder_threshold_lem (some (pos d)) xs)

-- The tenant's log holds a delivery of this reminder.
abbrev pub is_reminded : Uuid → Uuid → ℕ → Db → Bool
is_reminded t document days db =
    some_is (λ l. l.tenant_id == t && already_sent document days l) db.notification_log

abbrev pub job_unless : Bool → ReminderJob → List ReminderJob
job_unless true job = []
job_unless false job = job ∷ []

abbrev pub job_at : Uuid → Db → Uuid → Option ℕ → List ReminderJob
job_at t db document none = []
job_at t db document (some days) =
    job_unless (is_reminded t document days db) (job_for t document days)

module _ (t : Uuid) (thresholds : List ℕ) (now : Instant) (db : Db) where
  -- The job that a document is due today, if any: its days left are one of the thresholds, and the
  -- reminder was not delivered before.
  abbrev pub due_job : DocumentRow → List ReminderJob
  due_job d = job_at t db d.id (due_threshold thresholds (days_left d.expiry_date now))

  -- The jobs of the tenant's live documents that are stored as EXPIRING_SOON.
  abbrev pub due_jobs : List DocumentRow → List ReminderJob
  due_jobs [] = []
  due_jobs (d ∷ ds) =
      let rest = due_jobs ds in
      if d.tenant_id == t && is_candidate t d then due_job d ++ rest else rest

  abbrev pub start : Session
  start = record { db = db; current_tenant = some t; now = now }

  some_is-keep {ℓ} :
      {A : Type ℓ} (p : A → Bool) (xs : List A) → some_is (λ _. true) (keep p xs) ≡ some_is p xs
  some_is-keep p [] = refl
  some_is-keep p (x ∷ xs) = ground (arith, some_is-keep p xs)

  enqueue_lem :
      (d : DocumentRow) (due : Option ℕ) (jobs : List ReminderJob)
      → enqueue t d due jobs start ≡ (ok (job_at t db d.id due ++ jobs), start)
  enqueue_lem d none jobs = refl
  enqueue_lem d (some days) jobs = rw some_is-keep (go (is_reminded t d.id days db))
    where
      go :
          (b : Bool)
          → ◌≡◌ {A = Result (List ReminderJob) × Session}
              (ok (unless_sent b (job_for t d.id days) jobs), start)
              (ok (job_unless b (job_for t d.id days) ++ jobs), start)
      go true = refl
      go false = refl

  scan_documents_lem :
      (ds : List DocumentRow)
      → scan_documents t thresholds (keep (λ d. d.tenant_id == t && is_candidate t d) ds) start
        ≡ (ok (due_jobs ds), start)
  unfolding scan_documents
  scan_documents_lem [] = refl
  scan_documents_lem (d ∷ ds) = elim (Bool-cases (d.tenant_id == t && is_candidate t d)) [
    | inl e ↦
        rw (e, scan_documents_lem ds, match_reminder_threshold_lem)
          (enqueue_lem d (due_threshold thresholds (days_left d.expiry_date now)) (due_jobs ds))
    | inr e ↦ rw (e, scan_documents_lem ds)
  ]

-- The thresholds of a policy, none where the tenant has switched reminders off.
abbrev pub enabled_thresholds : List NotificationPolicyRow → Option (List ℕ)
enabled_thresholds [] = some default_reminder_days_before
enabled_thresholds (policy ∷ _) = if policy.enabled then some policy.reminder_days_before else none

abbrev pub thresholds_of : Uuid → Db → Option (List ℕ)
thresholds_of t db =
    enabled_thresholds
      (select (λ r. r.tenant_id) (some t) (λ p. p.tenant_id == t) db.notification_policies)

abbrev pub jobs_under : Uuid → Instant → Db → Option (List ℕ) → List ReminderJob
jobs_under t now db none = []
jobs_under t now db (some thresholds) = due_jobs t thresholds now db db.documents

-- The jobs that an active tenant's scan adds.
abbrev pub tenant_jobs : Uuid → Instant → Db → List ReminderJob
tenant_jobs t now db =
    if some_is (is_active_tenant t) db.tenants then jobs_under t now db (thresholds_of t db) else []

scan_under_lem :
    (t : Uuid) (now : Instant) (db : Db) (policies : List NotificationPolicyRow)
    → scan_under t policies (start t [] now db)
      ≡ (ok (jobs_under t now db (enabled_thresholds policies)), start t [] now db)
unfolding scan_candidates
scan_under_lem t now db [] = scan_documents_lem t default_reminder_days_before now db db.documents
scan_under_lem t now db (policy ∷ ps) = elim (Bool-cases policy.enabled) [
  | inl e ↦ rw e (scan_documents_lem t policy.reminder_days_before now db db.documents)
  | inr e ↦ rw e
]

-- The scan of a tenant writes nothing, and adds exactly the jobs that its documents are due: none if
-- the tenant is not active or has switched reminders off; else, in table order, one for each live
-- document that is stored as EXPIRING_SOON, whose days left are one of the tenant's thresholds, and
-- of whose reminder for that many days the tenant's log holds no delivery.
pub scan_tenant_lem :
    (t : Uuid) (now : Instant) (db : Db) → scan_tenant now t db ≡ (ok (tenant_jobs t now db), db)
unfolding scan_tenant
scan_tenant_lem t now db = elim (Bool-cases (some_is (is_active_tenant t) db.tenants)) [
  | inl e ↦ rw (e, scan_under_lem)
  | inr e ↦ rw e
]
