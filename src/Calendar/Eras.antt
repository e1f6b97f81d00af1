-- ===== src/Calendar/Eras.antt =====
-- The day number of the date that a day number has: the calendar of apps/api/src/common/calendar-days.ts
-- counts every day once.
use employee_compliance_saas.Common.{
  refl, Bool-cases, inl, inr, ap, ◌∙◌, ℕ, ◌+◌, ◌-◌, ◌*◌, ◌/◌, ◌%◌, ◌≤◌, ◌<◌, ◌≡◌, leb, ltb, ◌==◌,
  if◌then◌else◌, arith,
}
use employee_compliance_saas.Calendar.{
  Civil, civil_of_day, utc_day, days_before_year, days_before_month, is_leap, epoch_day,
}

-- The year of an era of 400 years.
abbrev pub yoe_of : ℕ → ℕ
yoe_of doe = (doe - doe / 1460 + doe / 36524 - doe / 146096) / 365

pub yoe_lt : (doe : ℕ) → doe < 146097 → yoe_of doe < 400
yoe_lt doe h = omega arith

abbrev pub start_of : ℕ → ℕ
start_of yoe = 365 * yoe + yoe / 4 - yoe / 100

pub start_le : (doe : ℕ) → doe < 146097 → start_of (yoe_of doe) ≤ doe
start_le doe h = omega arith

pub lt_next : (doe : ℕ) → doe < 146097 → doe < start_of (yoe_of doe + 1) + (yoe_of doe + 1) / 400
lt_next doe h = omega arith

abbrev leap_day : ℕ → ℕ
leap_day y = if is_leap y then 1 else 0

leap_lem :
    (y : ℕ) → 1 ≤ y → days_before_year y + 365 + leap_day y ≡ 365 * y + y / 4 - y / 100 + y / 400
leap_lem y h = ground arith

-- The days before a month, with the leap day given.
abbrev table : ℕ → ℕ → ℕ
table leap m =
    if m == 0
    then 0
    else if m == 1
    then 31
    else if m == 2
    then 59 + leap
    else if m == 3
    then 90 + leap
    else if m == 4
    then 120 + leap
    else if m == 5
    then 151 + leap
    else if m == 6
    then 181 + leap
    else if m == 7
    then 212 + leap
    else if m == 8
    then 243 + leap
    else if m == 9
    then 273 + leap
    else if m == 10
    then 304 + leap
    else 334 + leap

table_lem : (y m : ℕ) → days_before_month y m ≡ table (leap_day y) m
table_lem y m = refl

table_march : (leap mp : ℕ) → mp < 10 → table leap (mp + 2) ≡ 59 + (153 * mp + 2) / 5 + leap
table_march leap mp h = ground arith

march :
    (y doy mp : ℕ)
    → 1 ≤ y
    → mp ≡ (5 * doy + 2) / 153
    → mp < 10
    → days_before_year y + days_before_month y (mp + 2) + (doy - (153 * mp + 2) / 5 + 1) - 1
      ≡ 365 * y + y / 4 - y / 100 + y / 400 + doy - 306
march y doy mp p e h =
    rw (table_lem y (mp + 2), table_march (leap_day y) mp h) (omega (arith, leap_lem y p))

january :
    (y doy mp : ℕ)
    → mp ≡ (5 * doy + 2) / 153
    → 10 ≤ mp
    → mp < 12
    → days_before_year (y + 1)
        + days_before_month (y + 1) (mp - 10)
        + (doy - (153 * mp + 2) / 5 + 1)
        - 1
      ≡ 365 * y + y / 4 - y / 100 + y / 400 + doy - 306
january y doy mp e h k = rw (table_lem (y + 1) (mp - 10)) (ground arith)

abbrev pub doy_of : ℕ → ℕ
doy_of doe = doe - start_of (yoe_of doe)

abbrev pub mp_of : ℕ → ℕ
mp_of doe = (5 * doy_of doe + 2) / 153

pub mp_lt : (doe : ℕ) → doe < 146097 → mp_of doe < 12
mp_lt doe h = omega arith

-- The year that begins in March.
abbrev pub march_year : ℕ → ℕ
march_year z = yoe_of (z % 146097) + z / 146097 * 400

-- The days before it.
pub march_year_lem :
    (yoe era : ℕ)
    → yoe < 400
    → 365 * (yoe + era * 400)
        + (yoe + era * 400) / 4
        - (yoe + era * 400) / 100
        + (yoe + era * 400) / 400
      ≡ start_of yoe + era * 146097
march_year_lem yoe era h = omega arith

pub counted :
    (z : ℕ)
    → 365 * march_year z
        + march_year z / 4
        - march_year z / 100
        + march_year z / 400
        + doy_of (z % 146097)
      ≡ z
counted z = omega (
  arith,
  march_year_lem (yoe_of (z % 146097)) (z / 146097) (yoe_lt (z % 146097) (omega arith)),
  start_le (z % 146097) (omega arith),
)

abbrev number_of : ℕ → ℕ → ℕ → ℕ
number_of y m day = days_before_year y + days_before_month y m + day - 1

utc_day_lem :
    (y month day : ℕ)
    → 100 ≤ y
    → 1 ≤ month
    → month ≤ 12
    → utc_day y month day ≡ number_of y (month - 1) day
unfolding utc_day
utc_day_lem y month day h p q =
    let same : (if leb y 99 then 1900 + y else y) + (month + 11) / 12 - 1 ≡ y = ground arith in
    let index : (month + 11) % 12 ≡ month - 1 = omega arith in λ i. number_of (same i) (index i) day

-- The day with this index in a year that begins in March, in the month with this index there.
date_of : ℕ → ℕ → ℕ → Civil
date_of year mp doy =
    let month = if ltb mp 10 then mp + 3 else mp - 9 in
    record {
      year = year + (if leb month 2 then 1 else 0);
      month = month;
      day = doy - (153 * mp + 2) / 5 + 1;
    }

module _ (year mp doy : ℕ) (h : 100 ≤ year) (e : mp ≡ (5 * doy + 2) / 153) (k : mp < 12) where
  abbrev day_there : ℕ
  day_there = doy - (153 * mp + 2) / 5 + 1

  abbrev days_there : ℕ
  days_there = 365 * year + year / 4 - year / 100 + year / 400 + doy - 306

  in_march_year : mp < 10 → utc_day year (mp + 3) day_there ≡ days_there
  in_march_year early =
      let index : mp + 3 - 1 ≡ mp + 2 = omega arith in
      utc_day_lem year (mp + 3) day_there h (omega arith) (omega arith)
      ∙ ap (λ m. number_of year m day_there) index
      ∙ march year doy mp (omega arith) e early

  in_next_year : 10 ≤ mp → utc_day (year + 1) (mp - 9) day_there ≡ days_there
  in_next_year late =
      let index : mp - 9 - 1 ≡ mp - 10 = omega arith in
      utc_day_lem (year + 1) (mp - 9) day_there (omega arith) (omega arith) (omega arith)
      ∙ ap (λ m. number_of (year + 1) m day_there) index
      ∙ january year doy mp e late k

  utc_day-date_of :
      utc_day (date_of year mp doy).year (date_of year mp doy).month (date_of year mp doy).day
      ≡ days_there
  unfolding date_of
  utc_day-date_of = elim (Bool-cases (ltb mp 10)) [
    | inl early ↦
        let lt : mp < 10 = ground arith in
        let same : (date_of year mp doy).year ≡ year = ground arith in
        let month : (date_of year mp doy).month ≡ mp + 3 = ground arith in
        (λ i. utc_day (same i) (month i) day_there) ∙ in_march_year lt
    | inr late ↦
        let le : 10 ≤ mp = ground arith in
        let next : (date_of year mp doy).year ≡ year + 1 = ground arith in
        let month : (date_of year mp doy).month ≡ mp - 9 = ground arith in
        (λ i. utc_day (next i) (month i) day_there) ∙ in_next_year le
  ]

-- The date that an instant has is the day that it is.
pub utc_day-civil_of_day :
    (n : ℕ)
    → utc_day (civil_of_day n).year (civil_of_day n).month (civil_of_day n).day ≡ n + epoch_day
unfolding civil_of_day
utc_day-civil_of_day n =
    let z = n + 719468 in
    unfold date_of in
    utc_day-date_of (march_year z) (mp_of (z % 146097)) (doy_of (z % 146097)) (omega arith) refl
      (mp_lt (z % 146097) (omega arith))
    ∙ omega (arith, counted z)
