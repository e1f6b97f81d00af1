-- ===== src/Notifications/Figures.antt =====
-- The delivery figures against a direct count of the log.
use employee_compliance_saas.Common.{
  ℕ, ◌+◌, ◌≡◌, Bool, ◌&&◌, List, [], ◌∷◌, ◌++◌, arith, ◌==◌, leb, if◌then◌else◌, keep, some_is,
  Bool-cases, inl, inr,
}
use employee_compliance_saas.Common.Exec.{ok}
use employee_compliance_saas.Database.Schema.{
  Uuid, Instant, NotificationStatus, sent, failed, suppressed, NotificationLogRow, Db,
}
use employee_compliance_saas.Reminders.{is_active_tenant}
use employee_compliance_saas.Notifications.{
  count_of, group_by_status, Counts, read_counts, no_counts, sub_hours, is_recent, stats_of,
  get_stats, should_alert_on_failure_rate, Alert, check_tenant,
}

-- The entries of one status that the tenant has logged since a time.
abbrev pub logged_since : Uuid → Instant → NotificationStatus → Db → ℕ
logged_since t from status db =
    count_of status (keep (λ l. l.tenant_id == t && is_recent t from l) db.notification_log)

abbrev pub counts : Uuid → Instant → Db → Counts
counts t from db = record {
  sent_count = logged_since t from sent db;
  failed_count = logged_since t from failed db;
  suppressed_count = logged_since t from suppressed db;
}

read_counts_lem :
    (rows : List NotificationLogRow)
    → read_counts no_counts (group_by_status rows) ≡ record {
      sent_count = count_of sent rows;
      failed_count = count_of failed rows;
      suppressed_count = count_of suppressed rows;
    }
read_counts_lem rows = go (count_of sent rows) (count_of failed rows) (count_of suppressed rows)
  where
    go :
        (a b c : ℕ)
        → read_counts no_counts (
            (if a == 0 then [] else (sent, a) ∷ [])
            ++ (if b == 0 then [] else (failed, b) ∷ [])
            ++ (if c == 0 then [] else (suppressed, c) ∷ []))
          ≡ record { sent_count = a; failed_count = b; suppressed_count = c }
    go a b c = ground arith

-- The statistics are those of a direct count: for each status the number of the tenant's entries
-- since the start of the window, whatever statuses occur in it. Nothing is written.
get_stats_lem :
    (t : Uuid) (window_hours : ℕ) (clock : Instant) (db : Db)
    → get_stats t window_hours clock db
      ≡ (ok (stats_of window_hours clock (counts t (sub_hours clock window_hours) db)), db)
unfolding get_stats
get_stats_lem t window_hours clock db = rw (
    read_counts_lem (
      keep (λ l. l.tenant_id == t && is_recent t (sub_hours clock window_hours) l)
        db.notification_log))

should_alert_lem : (s f : ℕ) → should_alert_on_failure_rate s f ≡ (leb 5 (s + f) && leb s f)
unfolding should_alert_on_failure_rate
should_alert_lem s f = ground arith

abbrev pub alert_of : Uuid → Counts → Alert
alert_of t c = record {
  tenant_id = t;
  failed_count = c.failed_count;
  total_attempts = c.sent_count + c.failed_count;
}

-- At least five attempts, and no fewer failed than succeeded.
abbrev pub is_alarming : Counts → Bool
is_alarming c = leb 5 (c.sent_count + c.failed_count) && leb c.sent_count c.failed_count

-- A tenant gets one alert in an hourly scan if it is active, at least five deliveries were attempted
-- in the last six hours, and at least as many of them failed as succeeded; suppressed reminders do not
-- count. Otherwise it gets none. Nothing is written.
pub check_tenant_lem :
    (clock : Instant) (t : Uuid) (db : Db)
    → check_tenant clock t db ≡ (
      ok (
          if some_is (is_active_tenant t) db.tenants
            && is_alarming (counts t (sub_hours clock 6) db)
          then alert_of t (counts t (sub_hours clock 6) db) ∷ []
          else []),
      db,
    )
unfolding check_tenant
check_tenant_lem clock t db = elim (Bool-cases (some_is (is_active_tenant t) db.tenants)) [
  | inr e ↦ rw e
  | inl e ↦ rw (
    e,
    read_counts_lem
        (keep (λ l. l.tenant_id == t && is_recent t (sub_hours clock 6) l) db.notification_log),
    should_alert_lem (logged_since t (sub_hours clock 6) sent db)
        (logged_since t (sub_hours clock 6) failed db),
  )
]
