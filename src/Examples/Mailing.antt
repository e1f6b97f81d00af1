-- ===== src/Examples/Mailing.antt =====
-- The theorems on the reminders, the delivery figures and the settings, at concrete data.
use employee_compliance_saas.Common.{
  ℕ, ap, arith, true, ◌≡◌, refl, none, some, List, [], ◌∷◌, ◌&&◌, if◌then◌else◌, some_is, All,
}
use employee_compliance_saas.Common.Exec.{ok, err, plain_error}
use employee_compliance_saas.Database.Schema.{import}
use employee_compliance_saas.Reminders.{ReminderJob, is_active_tenant, scan_tenant}
use employee_compliance_saas.Reminders.Cadence.{tenant_jobs, scan_tenant_lem}
use employee_compliance_saas.Reminders.Stored.{IsForAnother, stored_status_decides}
use employee_compliance_saas.Calendar.{
  to_utc_date_string, calendar_days_until, utc_midnight_millis, date_utc, civil_of_day,
}
use employee_compliance_saas.Common.Int.{round_div, ◌-ℤ◌}
use employee_compliance_saas.Reminders.Missed.{IsDueThen, IsOther, missed_for_good}
use employee_compliance_saas.Reminders.Delivered.{scan_delivered}
use employee_compliance_saas.Reminders.Dispatch.Delivery.{mails_due, run_jobs}
use employee_compliance_saas.Reminders.Dispatch.{World, Dispatcher, send_reminder}
use employee_compliance_saas.Reminders.Dispatch.Outcome.{
  is_claimed, due_outcome, reminder_outcome, reminder_idempotent,
}
use employee_compliance_saas.Notifications.{
  UpdateNotificationPolicyDto, sub_hours, check_tenant, update_policy, get_or_default,
}
use employee_compliance_saas.Notifications.Figures.{counts, is_alarming, alert_of, check_tenant_lem}
use employee_compliance_saas.Notifications.Policies.{policies, saved, settings, policy_read_back}
use employee_compliance_saas.Imports.{ImportJob, process_import}
use employee_compliance_saas.Imports.Claimed.{claimed_db, process_import_outcome}
use employee_compliance_saas.Examples.{badge_of_ann, pg, db, noon, context, badge_job}

abbrev world : World
world = record { db = db; outbox = [] }

abbrev takes_all : Dispatcher
takes_all = λ mail. none

distinct_draws : (m n : ℕ) → pg.gen_random_uuid m ≡ pg.gen_random_uuid n → m ≡ n
distinct_draws m n h = omega (arith, h)

scan_tenant_lem_example : scan_tenant noon 1 db ≡ (ok (tenant_jobs 1 noon db), db)
scan_tenant_lem_example = scan_tenant_lem 1 noon db

found : (scan_tenant noon 1 db).0 ≡ ok (badge_job ∷ [])
unfolding calendar_days_until utc_midnight_millis round_div ◌-ℤ◌ date_utc civil_of_day
found = ap (λ r. r.0) (scan_tenant_lem 1 noon db)

scan_delivered_example :
    ((run_jobs pg takes_all noon (badge_job ∷ []) world).outbox
      ≡ mails_due pg takes_all noon world (badge_job ∷ []))
    × All
        (λ job.
          is_claimed job.tenant_id job.idempotency_key
            (run_jobs pg takes_all noon (badge_job ∷ []) world).db
          ≡ true)
        (badge_job ∷ [])
scan_delivered_example =
    scan_delivered pg takes_all noon (λ mail. refl) distinct_draws 1 noon world (badge_job ∷ [])
      found (refl, (refl, tt)) (λ n h. refl) (refl, tt)

-- Noon of the next day.
abbrev next_noon : ℕ
next_noon = 1788350400000

badge_then : IsDueThen 20 30 noon badge_of_ann
unfolding calendar_days_until utc_midnight_millis round_div ◌-ℤ◌ date_utc civil_of_day
    to_utc_date_string
badge_then e = ((1790856000000, refl, omega arith), refl)

missed_for_good_example :
    (jobs : List ReminderJob) × (scan_tenant next_noon 1 db ≡ (ok jobs, db))
    × All (IsOther 20 30) jobs
missed_for_good_example =
    missed_for_good 1 20 30 noon next_noon db (omega arith)
      (badge_then, ((λ e. absurd (omega (arith, e))), tt))

stored_status_decides_example :
    (jobs : List ReminderJob) × (scan_tenant noon 2 db ≡ (ok jobs, db))
    × All (IsForAnother 2 21 noon db) jobs
stored_status_decides_example = stored_status_decides 2 21 noon db (refl, (refl, tt))

reminder_outcome_example :
    send_reminder pg takes_all noon badge_job world ≡ due_outcome pg takes_all noon badge_job world
reminder_outcome_example = reminder_outcome pg takes_all noon badge_job world refl refl

reminder_idempotent_example :
    send_reminder pg takes_all noon badge_job (send_reminder pg takes_all noon badge_job world).1
    ≡ send_reminder pg takes_all noon badge_job world
reminder_idempotent_example =
    reminder_idempotent pg takes_all noon noon badge_job world (λ mail. refl) refl refl

check_tenant_lem_example : check_tenant noon 1 db ≡ (
  ok (
      if some_is (is_active_tenant 1) db.tenants && is_alarming (counts 1 (sub_hours noon 6) db)
      then alert_of 1 (counts 1 (sub_hours noon 6) db) ∷ []
      else []),
  db,
)
check_tenant_lem_example = check_tenant_lem noon 1 db

abbrev fewer_reminders : UpdateNotificationPolicyDto
fewer_reminders = record {
  reminder_days_before = some (30 ∷ 7 ∷ []);
  email_from = none;
  email_template_id = none;
  enabled = none;
}

policy_read_back_example :
    ((update_policy pg 1 noon fewer_reminders context noon db).0
      ≡ ok (
          saved pg 1 noon fewer_reminders context noon db
            (policies pg 1 noon fewer_reminders context noon db db.notification_policies)))
    × ((get_or_default 1 noon (update_policy pg 1 noon fewer_reminders context noon db).1).0
        ≡ ok (settings pg 1 noon fewer_reminders context noon db))
policy_read_back_example = policy_read_back pg 1 noon fewer_reminders context noon db noon refl refl

abbrev import_job : ImportJob
import_job = record { tenant_id = 1; idempotency_key = import 50; row_count = 2 }

process_import_outcome_example : process_import noon import_job db ≡ (
    if some_is (is_active_tenant 1) db.tenants
    then (ok tt, if is_claimed 1 (import 50) db then db else claimed_db noon import_job db)
    else (err (plain_error "Tenant not active or not found"), db))
process_import_outcome_example = process_import_outcome noon import_job db refl
