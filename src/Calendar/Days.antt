-- ===== src/Calendar/Days.antt =====
-- Tests and laws of the day count.
use employee_compliance_saas.Common.{◌≡◌, refl, some}
use employee_compliance_saas.Common.Int.{pos, negsuc, round_div, ◌-ℤ◌}
use employee_compliance_saas.Common.Text.{number}
use employee_compliance_saas.Calendar.{
  text, calendar_days_until, utc_midnight_millis, civil_of_day, date_utc, to_utc_date_string,
}
use employee_compliance_saas.Common.Text.{codes}

-- tests/unit/calendar-days.test.ts, CAL-01, CAL-03, CAL-04, CAL-08 and CAL-09.
run : Unit {0}
unfolding calendar_days_until utc_midnight_millis civil_of_day date_utc round_div ◌-ℤ◌ number
    to_utc_date_string
run = tt

thirty_days : calendar_days_until (text "2026-10-01") 1788220800000 ≡ some (pos 30)
unfolding run
thirty_days = refl

late_evening : calendar_days_until (text "2026-10-01") 1788293820000 ≡ some (pos 30)
unfolding run
late_evening = refl

two_days_past : calendar_days_until (text "2026-08-30") 1788220800000 ≡ some (negsuc 1)
unfolding run
two_days_past = refl

utc_date_string : to_utc_date_string 1788303600000 ≡ codes "2026-09-01"
unfolding run
utc_date_string = refl
