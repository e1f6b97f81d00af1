-- ===== src/Calendar.antt =====
-- Calendar days in UTC: apps/api/src/common/calendar-days.ts and its copy
-- apps/worker/src/workers/calendar-days.ts, over the language's `Date.UTC` and `getUTC…`.
pub mod Days
pub mod Eras
pub mod Reading
pub mod Order
use employee_compliance_saas.Common.{
  ℕ, zero, suc, ◌+◌, ◌-◌, ◌*◌, ◌/◌, ◌%◌, String, Bool, true, false, not, ◌&&◌, ◌||◌, Option, none,
  some, List, [], ◌∷◌, ◌++◌, ◌==◌, leb, ltb, if◌then◌else◌, take, drop,
}
use employee_compliance_saas.Common.Int.{ℤ, sub_ℕ, ◌-ℤ◌, round_div}
use employee_compliance_saas.Common.Text.{codes, number}
use employee_compliance_saas.Database.Schema.{Instant}

abbrev pub ms_per_day : ℕ
ms_per_day = 86400000

-- The days from 1 January of year 1 to the epoch.
abbrev pub epoch_day : ℕ
epoch_day = 719162

abbrev pub is_leap : ℕ → Bool
is_leap y = (y % 4 == 0 && not (y % 100 == 0)) || y % 400 == 0

-- The days of a year before the month with this index, 0 for January.
abbrev pub days_before_month : ℕ → ℕ → ℕ
days_before_month y m =
    let leap = if is_leap y then 1 else 0 in
    if m == 0
    then 0
    else if m == 1
    then 31
    else if m == 2
    then 59 + leap
    else if m == 3
    then 90 + leap
    else if m == 4
    then 120 + leap
    else if m == 5
    then 151 + leap
    else if m == 6
    then 181 + leap
    else if m == 7
    then 212 + leap
    else if m == 8
    then 243 + leap
    else if m == 9
    then 273 + leap
    else if m == 10
    then 304 + leap
    else 334 + leap

abbrev pub days_before_year : ℕ → ℕ
days_before_year y = 365 * (y - 1) + (y - 1) / 4 - (y - 1) / 100 + (y - 1) / 400

-- `Date.UTC(y, month - 1, day)`, in days since 1 January of year 1: the years 0 to 99 are read as
-- 1900 to 1999, and a month or a day out of its range runs over.
unfoldable pub utc_day : ℕ → ℕ → ℕ → ℕ
utc_day y month day =
    let full = if leb y 99 then 1900 + y else y in
    let year = full + (month + 11) / 12 - 1 in
    days_before_year year + days_before_month year ((month + 11) % 12) + day - 1

-- The same in milliseconds since the epoch.
unfoldable pub date_utc : ℕ → ℕ → ℕ → ℤ
unfolding utc_day
date_utc y month day = sub_ℕ (utc_day y month day * ms_per_day) (epoch_day * ms_per_day)

pub record Civil : Type 0 where
  pub year : ℕ
  pub month : ℕ
  pub day : ℕ

-- `getUTCFullYear`, `getUTCMonth() + 1` and `getUTCDate` of an instant, by its day since the epoch:
-- years that begin in March, in eras of 400 years.
unfoldable pub civil_of_day : ℕ → Civil
civil_of_day n =
    let z = n + 719468 in
    let doe = z % 146097 in
    let yoe = (doe - doe / 1460 + doe / 36524 - doe / 146096) / 365 in
    let doy = doe - (365 * yoe + yoe / 4 - yoe / 100) in
    let mp = (5 * doy + 2) / 153 in
    let month = if ltb mp 10 then mp + 3 else mp - 9 in
    record {
      year = yoe + z / 146097 * 400 + (if leb month 2 then 1 else 0);
      month = month;
      day = doy - (153 * mp + 2) / 5 + 1;
    }

pub data DateValue : Type 0 where
  text : String → DateValue
  date : Instant → DateValue

abbrev apply_utc : Option ℕ → Option ℕ → Option ℕ → Option ℤ
apply_utc (some y) (some m) (some d) = some (date_utc y m d)
apply_utc _ _ _ = none

-- `none` is NaN.
unfoldable pub utc_midnight_millis : DateValue → Option ℤ
unfolding number
utc_midnight_millis (text value) =
    let s = take 10 (codes value) in
    apply_utc (number (take 4 s)) (number (take 2 (drop 5 s))) (number (take 2 (drop 8 s)))
utc_midnight_millis (date instant) =
    let c = civil_of_day (instant / ms_per_day) in some (date_utc c.year c.month c.day)

abbrev pub rounded_difference : Option ℤ → Option ℤ → Option ℤ
rounded_difference (some a) (some b) = some (round_div (a -ℤ b) ms_per_day)
rounded_difference _ _ = none

unfoldable pub calendar_days_until : DateValue → Instant → Option ℤ
calendar_days_until expiry now =
    rounded_difference (utc_midnight_millis expiry) (utc_midnight_millis (date now))

-- The digits of a number, padded with zeros.
abbrev pub padded_2 : ℕ → List ℕ
padded_2 n = (48 + n / 10 % 10) ∷ (48 + n % 10) ∷ []

abbrev pub padded_4 : ℕ → List ℕ
padded_4 n = (48 + n / 1000 % 10) ∷ (48 + n / 100 % 10) ∷ padded_2 n

-- `toISOString().slice(0, 10)`, for the years up to 9999.
unfoldable pub to_utc_date_string : Instant → List ℕ
to_utc_date_string instant =
    let c = civil_of_day (instant / ms_per_day) in
    padded_4 c.year ++ 45 ∷ padded_2 c.month ++ 45 ∷ padded_2 c.day
