-- ===== src/Calendar/Reading.antt =====
-- A printed date, read back: `toUtcDateString`, `utcMidnightMillis` and `calendarDaysUntil` of
-- apps/api/src/common/calendar-days.ts together.
use employee_compliance_saas.Common.{ℕ, ◌*◌, ◌/◌, ◌≤◌, ◌≡◌, ap, ◌∙◌, arith, String, some, ◌∷◌, ◌++◌}
use employee_compliance_saas.Common.Int.{pos, sub_ℕ, ◌-ℤ◌, round_div}
use employee_compliance_saas.Common.Text.{codes, number}
use employee_compliance_saas.Database.Schema.{Instant}
use employee_compliance_saas.Calendar.{
  ms_per_day, epoch_day, date_utc, Civil, civil_of_day, text, utc_midnight_millis,
  calendar_days_until, padded_2, padded_4, to_utc_date_string,
}
use employee_compliance_saas.Calendar.Eras.{utc_day-civil_of_day}

number_2 : (n : ℕ) → n ≤ 99 → number (padded_2 n) ≡ some n
unfolding number
number_2 n h = ground arith

number_4 : (n : ℕ) → n ≤ 9999 → number (padded_4 n) ≡ some n
unfolding number
number_4 n h = ground arith

-- UTC midnight of a day.
midnight :
    (n : ℕ)
    → date_utc (civil_of_day n).year (civil_of_day n).month (civil_of_day n).day
      ≡ pos (n * ms_per_day)
unfolding date_utc
midnight n =
    ap (λ d. sub_ℕ (d * ms_per_day) (epoch_day * ms_per_day)) (utc_day-civil_of_day n)
    ∙ ground arith

difference :
    (a b : ℕ) → round_div (pos (a * ms_per_day) -ℤ pos (b * ms_per_day)) ms_per_day ≡ sub_ℕ a b
unfolding round_div ◌-ℤ◌
difference a b = ground arith

pub month_le : (n : ℕ) → (civil_of_day n).month ≤ 99
unfolding civil_of_day
month_le n = ground arith

pub day_le : (n : ℕ) → (civil_of_day n).day ≤ 99
unfolding civil_of_day
day_le n = ground arith

-- The digits of a text that starts with a printed date are read as that date.
read_date :
    (c : Civil)
    → c.year ≤ 9999
    → c.month ≤ 99
    → c.day ≤ 99
    → (s : String) → codes s ≡ padded_4 c.year ++ 45 ∷ padded_2 c.month ++ 45 ∷ padded_2 c.day
    → utc_midnight_millis (text s) ≡ some (date_utc c.year c.month c.day)
unfolding utc_midnight_millis
read_date c h k l s e = rw (e, number_4 c.year h, number_2 c.month k, number_2 c.day l)

-- A date that the program has printed of an instant, up to the year 9999, is read back as the UTC day
-- of that instant: the days until it, at any time of any day, are the difference of the two day numbers,
-- whatever the times of day.
pub read_back :
    (s : String) (instant now : Instant)
    → codes s ≡ to_utc_date_string instant
    → (civil_of_day (instant / ms_per_day)).year ≤ 9999
    → calendar_days_until (text s) now ≡ some (sub_ℕ (instant / ms_per_day) (now / ms_per_day))
unfolding calendar_days_until utc_midnight_millis to_utc_date_string
read_back s instant now e h =
    let day = instant / ms_per_day in
    rw (
      read_date (civil_of_day day) h (month_le day) (day_le day) s e,
      midnight day,
      midnight (now / ms_per_day),
      difference day (now / ms_per_day),
    )
