-- ===== src/Expiry.antt =====
-- The Expiry Engine: apps/api/src/expiry/expiry.service.ts.
pub mod Thresholds
pub mod Ageing
use employee_compliance_saas.Common.{
  ℕ, ◌-◌, ◌≤◌, String, Bool, true, false, ◌&&◌, ◌||◌, Option, none, some, ltb, leb, max, ◌==◌,
  if◌then◌else◌,
}
use employee_compliance_saas.Common.Int.{ℤ, pos, negsuc, neg_part, leb_ℤ, sub_ℕ, is_negative}
use employee_compliance_saas.Common.Text.{is_empty}
use employee_compliance_saas.Calendar.{text, calendar_days_until}
use employee_compliance_saas.Database.Schema.{
  Instant, ExpiryStatus, valid, expiring_soon, renewal_in_progress, exception, expired, blocked,
  ExpiryPolicy,
}

-- The statuses that only a user sets.
abbrev pub is_manual : ExpiryStatus → Bool
is_manual renewal_in_progress = true
is_manual exception = true
is_manual _ = false

abbrev pub widest_warning_window : ExpiryPolicy → ℕ
widest_warning_window p =
    max (max (max p.critical_days p.warning_days_3) p.warning_days_2) p.warning_days_1

-- What follows the day count; a NaN fails every comparison. The policy's day counts are numbers that
-- are not negative.
unfoldable pub status_of_days : ExpiryPolicy → Option ℤ → ExpiryStatus
status_of_days p none = valid
status_of_days p (some days) =
    if is_negative days
    then (if ltb 0 p.grace_period_days && leb_ℤ (sub_ℕ 0 p.grace_period_days) days
        then expiring_soon
        else if p.auto_block
        then blocked
        else expired)
    else if leb_ℤ days (pos (widest_warning_window p))
    then expiring_soon
    else valid

-- `!expiryDate` holds of null and of the empty text.
abbrev engine_status : Option String → ExpiryPolicy → Instant → ExpiryStatus
engine_status none p now = valid
engine_status (some date) p now =
    if is_empty date then valid else status_of_days p (calendar_days_until (text date) now)

unfoldable pub calculate_status :
    Option String → ExpiryPolicy → ExpiryStatus → Instant → ExpiryStatus
calculate_status expiry p current now =
    if is_manual current then current else engine_status expiry p now
