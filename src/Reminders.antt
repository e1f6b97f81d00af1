-- ===== src/Reminders.antt =====
-- The reminder pipeline of apps/worker/src: the cadence rule (workers/reminder-policy.ts), the daily
-- scan (workers/reminder-scanner.worker.ts) and the dispatch of one reminder
-- (workers/reminder.worker.ts, notifications/email-dispatcher.ts). The queue is a list of jobs.
pub mod Cadence
pub mod Jobs
pub mod Stored
pub mod Missed
pub mod Dispatch
pub mod Due
pub mod Delivered
use employee_compliance_saas.Common.{
  ℕ, ◌+◌, String, Bool, true, false, not, ◌&&◌, ◌||◌, Option, none, some, List, [], ◌∷◌, ◌++◌, ◌==◌,
  if◌then◌else◌, is_none, is_some, or_default, find_by, some_is,
}
use employee_compliance_saas.Common.Exec.{
  Exception, plain_error, pg_error, Result, ok, err, Exec, pure, throw, gets, ◌>>=◌, ◌>>◌,
}
use employee_compliance_saas.Common.Int.{ℤ, pos}
use employee_compliance_saas.Common.Text.{is_empty}
use employee_compliance_saas.Calendar.{text, calendar_days_until}
use employee_compliance_saas.Database.Schema.{
  Uuid, Instant, TenantRow, TenantStatus, EmployeeRow, DocumentType, DocumentRow, ExpiryStatus,
  expiring_soon, same_status, IdempotencyKey, reminder, NotificationPolicyRow, NotificationStatus,
  sent, failed, suppressed, NotificationLogRow, Db,
}
use employee_compliance_saas.Database.Session.{
  Postgres, Session, transaction, set_tenant_context, fresh_uuid, now_of, select_documents,
  select_employees, select_keys, select_log, select_notification_policies, same_key, insert_key,
  insert_log,
}

-- `threshold === daysUntilExpiry`
abbrev pub is_days : Option ℤ → ℕ → Bool
is_days (some (pos d)) threshold = d == threshold
is_days _ threshold = false

unfoldable pub match_reminder_threshold : Option ℤ → List ℕ → Option ℕ
match_reminder_threshold days thresholds = find_by (is_days days) thresholds

abbrev pub default_reminder_days_before : List ℕ
default_reminder_days_before = 90 ∷ 60 ∷ 30 ∷ 14 ∷ 7 ∷ 1 ∷ []

-- The data of a `send-reminder` job.
pub record ReminderJob : Type 0 where
  pub tenant_id : Uuid
  pub document_id : Uuid
  pub days_before_expiry : ℕ
  pub idempotency_key : IdempotencyKey

abbrev pub is_active : TenantStatus → Bool
is_active TenantStatus.active = true
is_active TenantStatus.inactive = false

abbrev pub is_active_tenant : Uuid → TenantRow → Bool
is_active_tenant id t = t.id == id && is_active t.status

abbrev pub tenant_is_active : Uuid → Exec Session Bool
tenant_is_active id = gets (λ s. some_is (is_active_tenant id) s.db.tenants)

abbrev pub is_sent : NotificationStatus → Bool
is_sent sent = true
is_sent _ = false

abbrev pub is_document : Uuid → Option Uuid → Bool
is_document id none = false
is_document id (some other) = other == id

-- The reminder was delivered before.
abbrev pub already_sent : Uuid → ℕ → NotificationLogRow → Bool
already_sent document threshold l =
    (is_document document l.document_id && l.days_before_expiry == threshold) && is_sent l.status

abbrev pub job_for : Uuid → Uuid → ℕ → ReminderJob
job_for tenant document threshold = record {
  tenant_id = tenant;
  document_id = document;
  days_before_expiry = threshold;
  idempotency_key = reminder document threshold;
}

abbrev pub unless_sent : Bool → ReminderJob → List ReminderJob → List ReminderJob
unless_sent true job jobs = jobs
unless_sent false job jobs = job ∷ jobs

-- `!doc.expiryDate`, or else the days until the date.
abbrev pub days_left : Option String → Instant → Option ℤ
days_left none now = none
days_left (some date) now = if is_empty date then none else calendar_days_until (text date) now

-- One round of the loop over the candidates, put before the jobs of the later rounds.
abbrev enqueue : Uuid → DocumentRow → Option ℕ → List ReminderJob → Exec Session (List ReminderJob)
enqueue tenant doc none jobs = pure jobs
enqueue tenant doc (some threshold) jobs = do
  rows ← select_log (already_sent doc.id threshold)
  pure (unless_sent (some_is (λ _. true) rows) (job_for tenant doc.id threshold) jobs)

scan_documents : Uuid → List ℕ → List DocumentRow → Exec Session (List ReminderJob)
scan_documents tenant thresholds [] = pure []
scan_documents tenant thresholds (doc ∷ docs) = do
  now ← now_of
  jobs ← scan_documents tenant thresholds docs
  enqueue tenant doc (match_reminder_threshold (days_left doc.expiry_date now) thresholds) jobs

abbrev pub is_candidate : Uuid → DocumentRow → Bool
is_candidate tenant d =
    ((d.tenant_id == tenant && is_none d.deleted_at) && is_some d.expiry_date)
    && same_status d.expiry_status expiring_soon

scan_candidates : Uuid → List ℕ → Exec Session (List ReminderJob)
scan_candidates tenant thresholds = do
  candidates ← select_documents (is_candidate tenant)
  scan_documents tenant thresholds candidates

abbrev scan_under : Uuid → List NotificationPolicyRow → Exec Session (List ReminderJob)
scan_under tenant [] = scan_candidates tenant default_reminder_days_before
scan_under tenant (policy ∷ _) =
    if policy.enabled then scan_candidates tenant policy.reminder_days_before else pure []

scan_active : Uuid → Exec Session (List ReminderJob)
scan_active tenant = do
  policies ← select_notification_policies (λ p. p.tenant_id == tenant)
  scan_under tenant policies

scan_tenant_in : Uuid → Exec Session (List ReminderJob)
scan_tenant_in tenant = do
  still_active ← tenant_is_active tenant
  if still_active then scan_active tenant else pure []

-- The scan of one tenant: the jobs that it adds to the queue, in a transaction that writes nothing.
unfoldable pub scan_tenant : Instant → Uuid → Exec Db (List ReminderJob)
unfolding scan_tenant_in scan_active scan_candidates scan_documents
scan_tenant now tenant = transaction now (set_tenant_context tenant >> scan_tenant_in tenant)

abbrev append_jobs : List ReminderJob → List ReminderJob → Exec Db (List ReminderJob)
append_jobs jobs rest = pure (jobs ++ rest)

scan_tenants : Instant → List TenantRow → Exec Db (List ReminderJob)
scan_tenants now [] = pure []
scan_tenants now (t ∷ ts) = do
  jobs ← (if is_active t.status then scan_tenant now t.id else pure [])
  rest ← scan_tenants now ts
  append_jobs jobs rest

-- The daily scan, over the tenants that were active when it began.
unfoldable pub scan : Instant → Exec Db (List ReminderJob)
unfolding scan_tenants
scan now db = scan_tenants now db.tenants db
