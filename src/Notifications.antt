-- ===== src/Notifications.antt =====
-- The tenant's reminder settings and the delivery figures: notification-policies.service.ts and
-- notification-log.service.ts of apps/api/src/notifications, and failure-alert-policy.ts and
-- failure-alert-scanner.worker.ts of apps/worker/src/workers.
pub mod Isolation
pub mod Policies
pub mod Figures
use Prim.Native.String
use mathlib.Core.Option
use employee_compliance_saas.Common.{
  ℕ, ◌+◌, ◌-◌, ◌*◌, zero, suc, String, Bool, true, false, not, ◌&&◌, Option, none, some, List, [],
  ◌∷◌, ◌++◌, head?, ◌==◌, ltb, leb, if◌then◌else◌, or_default, or_else, length, keep, some_is,
}
use employee_compliance_saas.Common.Exec.{
  Exception, plain_error, Result, ok, err, Exec, pure, throw, gets, ◌>>=◌, ◌>>◌,
}
use employee_compliance_saas.Database.Schema.{
  Uuid, Instant, notification_policy_updated, success, TenantRow, NotificationPolicyRow,
  NotificationStatus, sent, failed, suppressed, NotificationLogRow, Db,
}
use employee_compliance_saas.Database.Session.{
  Postgres, Session, transaction, set_tenant_context, fresh_uuid, now_of, first_or, select_log,
  select_notification_policies, insert_notification_policy, update_notification_policies,
}
use employee_compliance_saas.Database.Record.{notification_policy_state}
use employee_compliance_saas.Audit.{AuditContext, Entry, log}
use employee_compliance_saas.Reminders.{default_reminder_days_before, is_active, tenant_is_active}

-- What `getOrDefault` returns: the id and the time of the last change are null for the defaults.
pub record NotificationPolicy : Type 0 where
  pub id : Option Uuid
  pub tenant_id : Uuid
  pub reminder_days_before : List ℕ
  pub email_from : Option String
  pub email_template_id : Option String
  pub enabled : Bool
  pub updated_at : Option Instant

pub record UpdateNotificationPolicyDto : Type 0 where
  pub reminder_days_before : Option (List ℕ)
  pub email_from : Option String
  pub email_template_id : Option String
  pub enabled : Option Bool

abbrev pub default_notification_policy : Uuid → NotificationPolicy
default_notification_policy tenant = record {
  id = none;
  tenant_id = tenant;
  reminder_days_before = default_reminder_days_before;
  email_from = none;
  email_template_id = none;
  enabled = true;
  updated_at = none;
}

abbrev pub customized : NotificationPolicyRow → NotificationPolicy
customized row = record {
  id = some row.id;
  tenant_id = row.tenant_id;
  reminder_days_before = row.reminder_days_before;
  email_from = row.email_from;
  email_template_id = row.email_template_id;
  enabled = row.enabled;
  updated_at = some row.updated_at;
}

abbrev pub policy_or_default : Uuid → List NotificationPolicyRow → NotificationPolicy
policy_or_default tenant [] = default_notification_policy tenant
policy_or_default tenant (row ∷ _) = customized row

get_or_default_in : Uuid → Exec Session NotificationPolicy
get_or_default_in tenant = do
  rows ← select_notification_policies (λ p. p.tenant_id == tenant)
  pure (policy_or_default tenant rows)

unfoldable pub get_or_default : Uuid → Instant → Exec Db NotificationPolicy
unfolding get_or_default_in
get_or_default tenant now = transaction now (set_tenant_context tenant >> get_or_default_in tenant)

-- `{ tenantId, ...next }`: each field is the caller's, or else the stored one, or else the default.
abbrev pub next_policy :
    Uuid → Uuid → Instant → UpdateNotificationPolicyDto → NotificationPolicy → NotificationPolicyRow
next_policy id tenant at dto before = record {
  id = id;
  tenant_id = tenant;
  reminder_days_before = or_default dto.reminder_days_before before.reminder_days_before;
  email_from = or_else dto.email_from before.email_from;
  email_template_id = or_else dto.email_template_id before.email_template_id;
  enabled = or_default dto.enabled before.enabled;
  updated_at = at;
}

-- The SET clause of the conflict: `{ ...next, updatedAt: new Date() }`.
abbrev pub set_policy :
    NotificationPolicyRow → Instant → NotificationPolicyRow → NotificationPolicyRow
set_policy next clock row = record row {
  reminder_days_before = next.reminder_days_before;
  email_from = next.email_from;
  email_template_id = next.email_template_id;
  enabled = next.enabled;
  updated_at = clock;
}

abbrev pub insert_one : NotificationPolicyRow → Exec Session (List NotificationPolicyRow)
insert_one next = do row ← insert_notification_policy next; pure (row ∷ [])

abbrev pub upsert_over :
    NotificationPolicyRow
    → Instant
    → List NotificationPolicyRow
    → Exec Session (List NotificationPolicyRow)
upsert_over next clock [] = insert_one next
upsert_over next clock (_ ∷ _) =
    update_notification_policies (λ p. p.tenant_id == next.tenant_id) (set_policy next clock)

-- INSERT … ON CONFLICT (tenant_id) DO UPDATE … RETURNING
upsert_notification_policy :
    NotificationPolicyRow → Instant → Exec Session (List NotificationPolicyRow)
upsert_notification_policy next clock = do
  clashing ← select_notification_policies (λ p. p.tenant_id == next.tenant_id)
  upsert_over next clock clashing

abbrev pub policy_entry : AuditContext → List NotificationPolicyRow → NotificationPolicyRow → Entry
policy_entry context existing after = record {
  context = context;
  action = notification_policy_updated;
  entity_type = "notification_policy";
  entity_id = some after.id;
  before_state = Option.map notification_policy_state (head? existing);
  after_state = some (notification_policy_state after);
  outcome = success;
  reason = none;
}

module _ (pg : Postgres) (tenant : Uuid) (clock : Instant) (dto : UpdateNotificationPolicyDto)
    (context : AuditContext) where
  update_in : Exec Session NotificationPolicyRow
  update_in = do
    existing ← select_notification_policies (λ p. p.tenant_id == tenant)
    id ← fresh_uuid pg
    now ← now_of
    upserted ←
        upsert_notification_policy
          (next_policy id tenant now dto (policy_or_default tenant existing)) clock
    after ← first_or (plain_error "Notification policy upsert did not return a row") upserted
    log pg (policy_entry context existing after)
    pure after

  -- `clock` is what `new Date()` returns, `now` the start of the transaction.
  unfoldable pub update_policy : Instant → Exec Db NotificationPolicyRow
  unfolding update_in upsert_notification_policy
  update_policy now = transaction now (set_tenant_context tenant >> update_in)

-- delivery figures

abbrev status_index : NotificationStatus → ℕ
status_index sent = 0
status_index failed = 1
status_index suppressed = 2

abbrev pub same_status : NotificationStatus → NotificationStatus → Bool
same_status a b = status_index a == status_index b

abbrev pub count_of : NotificationStatus → List NotificationLogRow → ℕ
count_of status rows = length (keep (λ l. same_status l.status status) rows)

abbrev pub group : NotificationStatus → List NotificationLogRow → List (NotificationStatus × ℕ)
group status rows = if count_of status rows == 0 then [] else (status, count_of status rows) ∷ []

-- `GROUP BY status`: one row for each status that occurs.
abbrev pub group_by_status : List NotificationLogRow → List (NotificationStatus × ℕ)
group_by_status rows = group sent rows ++ group failed rows ++ group suppressed rows

pub record Counts : Type 0 where
  pub sent_count : ℕ
  pub failed_count : ℕ
  pub suppressed_count : ℕ

abbrev set_count : Counts → NotificationStatus × ℕ → Counts
set_count c (sent, n) = record c { sent_count = n }
set_count c (failed, n) = record c { failed_count = n }
set_count c (suppressed, n) = record c { suppressed_count = n }

-- The loop over the groups.
abbrev pub read_counts : Counts → List (NotificationStatus × ℕ) → Counts
read_counts c [] = c
read_counts c (row ∷ rows) = read_counts (set_count c row) rows

abbrev pub no_counts : Counts
no_counts = record { sent_count = 0; failed_count = 0; suppressed_count = 0 }

-- `subHours`. The clock is past 1970 by more than any window.
abbrev pub sub_hours : Instant → ℕ → Instant
sub_hours now hours = now - hours * 3600000

abbrev pub is_recent : Uuid → Instant → NotificationLogRow → Bool
is_recent tenant from l = l.tenant_id == tenant && leb from l.sent_at

counts_since : Uuid → Instant → Exec Session Counts
counts_since tenant from = do
  rows ← select_log (is_recent tenant from)
  pure (read_counts no_counts (group_by_status rows))

pub record NotificationLogStats : Type 0 where
  pub window_hours : ℕ
  pub window_start : Instant
  pub window_end : Instant
  pub counts : Counts
  pub total_attempts : ℕ
  -- the numerator and the denominator
  pub failure_rate : Option (ℕ × ℕ)

abbrev pub stats_of : ℕ → Instant → Counts → NotificationLogStats
stats_of window_hours clock c = record {
  window_hours = window_hours;
  window_start = sub_hours clock window_hours;
  window_end = clock;
  counts = c;
  total_attempts = c.sent_count + c.failed_count;
  failure_rate =
      if c.sent_count + c.failed_count == 0
      then none
      else some (c.failed_count, c.sent_count + c.failed_count);
}

stats_in : Uuid → ℕ → Instant → Exec Session NotificationLogStats
stats_in tenant window_hours clock = do
  counts ← counts_since tenant (sub_hours clock window_hours)
  pure (stats_of window_hours clock counts)

unfoldable pub get_stats : Uuid → ℕ → Instant → Exec Db NotificationLogStats
unfolding stats_in counts_since
get_stats tenant window_hours clock =
    transaction clock (set_tenant_context tenant >> stats_in tenant window_hours clock)

-- `failed / total >= 0.5`, which for counts below 2 ^ 53 is `2 * failed >= total`.
unfoldable pub should_alert_on_failure_rate : ℕ → ℕ → Bool
should_alert_on_failure_rate sent_count failed_count =
    if ltb (sent_count + failed_count) 5
    then false
    else leb (sent_count + failed_count) (2 * failed_count)

-- The ALERT line of a tenant.
pub record Alert : Type 0 where
  pub tenant_id : Uuid
  pub failed_count : ℕ
  pub total_attempts : ℕ

abbrev pub alerts_for : Uuid → Counts → List Alert
alerts_for tenant c =
    if should_alert_on_failure_rate c.sent_count c.failed_count
    then record {
      tenant_id = tenant;
      failed_count = c.failed_count;
      total_attempts = c.sent_count + c.failed_count;
    }
      ∷ []
    else []

abbrev pub scan_window_hours : ℕ
scan_window_hours = 6

check_active : Uuid → Instant → Bool → Exec Session (List Alert)
check_active tenant clock false = pure []
check_active tenant clock true = do
  counts ← counts_since tenant (sub_hours clock scan_window_hours)
  pure (alerts_for tenant counts)

check_tenant_in : Uuid → Instant → Exec Session (List Alert)
check_tenant_in tenant clock = do
  still_active ← tenant_is_active tenant
  check_active tenant clock still_active

unfoldable pub check_tenant : Instant → Uuid → Exec Db (List Alert)
unfolding check_tenant_in check_active counts_since
check_tenant clock tenant =
    transaction clock (set_tenant_context tenant >> check_tenant_in tenant clock)

check_tenants : Instant → List TenantRow → Exec Db (List Alert)
check_tenants clock [] = pure []
check_tenants clock (t ∷ ts) = do
  alerts ← (if is_active t.status then check_tenant clock t.id else pure [])
  rest ← check_tenants clock ts
  pure (alerts ++ rest)

-- The hourly scan.
unfoldable pub scan_failure_rates : Instant → Exec Db (List Alert)
unfolding check_tenants
scan_failure_rates clock db = check_tenants clock db.tenants db
