-- ===== src/Calendar/Order.antt =====
-- The order of the dates that day numbers have, and that of their printed texts.
use employee_compliance_saas.Common.{
  ℕ, ◌+◌, ◌-◌, ◌*◌, ◌/◌, ◌%◌, ◌≤◌, ◌<◌, ◌≡◌, ap, ◌∙◌, ◌⊎◌, inl, inr, Bool, true, false, Bool-cases,
  ==_iff, ◌&&◌, ◌||◌, leb, ltb, ◌==◌, if◌then◌else◌, arith,
}
use employee_compliance_saas.Calendar.{Civil, civil_of_day}
use employee_compliance_saas.Calendar.Eras.{
  march_year, doy_of, yoe_of, start_of, counted, lt_next, yoe_lt, mp_lt,
}

-- The days before a year that begins in March.
abbrev days_before : ℕ → ℕ
days_before y = 365 * y + y / 4 - y / 100 + y / 400

ends_lem :
    (yoe era doe z : ℕ)
    → yoe < 400
    → doe < start_of (yoe + 1) + (yoe + 1) / 400
    → z ≡ era * 146097 + doe
    → z < days_before (yoe + era * 400 + 1)
ends_lem yoe era doe z h k e = omega (arith, h, k, e)

ends : (z : ℕ) → z < days_before (march_year z + 1)
ends z =
    ends_lem (yoe_of (z % 146097)) (z / 146097) (z % 146097) z (yoe_lt (z % 146097) (omega arith))
      (lt_next (z % 146097) (omega arith)) (omega arith)

days_before_mono : (a b : ℕ) → a ≤ b → days_before a ≤ days_before b
days_before_mono a b h = omega (arith, h)

-- A later day is in a later year, or later in the same one.
later :
    (a b : ℕ)
    → a < b
    → (march_year a < march_year b)
      ⊎ ((march_year a ≡ march_year b) × (doy_of (a % 146097) < doy_of (b % 146097)))
later a b h = elim (Bool-cases (ltb (march_year a) (march_year b))) [
  | inl e ↦ inl (ground (arith, e))
  | inr e ↦ elim (Bool-cases (march_year a == march_year b)) [
    | inl same ↦
        let eq : march_year a ≡ march_year b = (==_iff (march_year a) (march_year b)).0 same in
        inr (eq, later_in (march_year a) (march_year b) _ _ a b eq (counted a) (counted b) h)
    | inr other ↦
        let le : march_year b + 1 ≤ march_year a = apart (march_year a) (march_year b) e other in
        absurd (
          omega
            (arith, h, ends b, days_before_mono (march_year b + 1) (march_year a) le, counted a))
  ]
]
  where
    apart : (x y : ℕ) → ltb x y ≡ false → (x == y) ≡ false → y + 1 ≤ x
    apart x y h k = ground (arith, h, k)

    later_in :
        (x y m n a b : ℕ) → x ≡ y → days_before x + m ≡ a → days_before y + n ≡ b → a < b → m < n
    later_in x y m n a b e p q h = omega (arith, ap days_before e, p, q, h)

-- The order of dates, field by field.
abbrev pub is_before : Civil → Civil → Bool
is_before a b =
    ltb a.year b.year
    || (a.year == b.year && (ltb a.month b.month || (a.month == b.month && ltb a.day b.day)))

-- The date in the month with an index in a year that begins in March.
abbrev civil_at : ℕ → ℕ → ℕ → Civil
civil_at year mp day =
    let month = if ltb mp 10 then mp + 3 else mp - 9 in
    record { year = year + (if leb month 2 then 1 else 0); month = month; day = day }

later_year : (x y p q d e : ℕ) → x < y → p < 12 → is_before (civil_at x p d) (civil_at y q e) ≡ true
later_year x y p q d e h k = ground (arith, h, k)

later_month : (x p q d e : ℕ) → p < q → q < 12 → is_before (civil_at x p d) (civil_at x q e) ≡ true
later_month x p q d e h k = ground (arith, h, k)

later_day : (x p d e : ℕ) → d < e → is_before (civil_at x p d) (civil_at x p e) ≡ true
later_day x p d e h = ground (arith, h)

abbrev civil_of : ℕ → ℕ → Civil
civil_of year doy =
    civil_at year ((5 * doy + 2) / 153) (doy - (153 * ((5 * doy + 2) / 153) + 2) / 5 + 1)

later_in_year :
    (x m n : ℕ) → m < n → (5 * n + 2) / 153 < 12 → is_before (civil_of x m) (civil_of x n) ≡ true
later_in_year x m n h k = elim (Bool-cases (ltb ((5 * m + 2) / 153) ((5 * n + 2) / 153))) [
  | inl e ↦ later_month x _ _ _ _ (ground (arith, e)) k
  | inr e ↦
      let same : (5 * m + 2) / 153 ≡ (5 * n + 2) / 153 = month_of (ground (arith, e)) in
      ap (λ p. is_before (civil_at x p (m - (153 * p + 2) / 5 + 1)) (civil_of x n)) same
      ∙ later_day x ((5 * n + 2) / 153) _ _ (day_of same)
]
  where
    month_of : (5 * n + 2) / 153 ≤ (5 * m + 2) / 153 → (5 * m + 2) / 153 ≡ (5 * n + 2) / 153
    month_of le = omega (arith, le, h)

    day_of :
        (5 * m + 2) / 153 ≡ (5 * n + 2) / 153
        → m - (153 * ((5 * n + 2) / 153) + 2) / 5 + 1 < n - (153 * ((5 * n + 2) / 153) + 2) / 5 + 1
    day_of same = omega (arith, same, h)

-- Of two days the later one has the later date.
pub civil_of_day-is_before : (m n : ℕ) → m < n → is_before (civil_of_day m) (civil_of_day n) ≡ true
unfolding civil_of_day
civil_of_day-is_before m n h = elim (later (m + 719468) (n + 719468) (omega (arith, h))) [
  | inl year ↦
      later_year (march_year (m + 719468)) (march_year (n + 719468)) _ _ _ _ year
        (mp_lt ((m + 719468) % 146097) (omega arith))
  | inr (same, day) ↦
      ap (λ y. is_before (civil_of y (doy_of ((m + 719468) % 146097))) (civil_of_day n)) same
      ∙ later_in_year (march_year (n + 719468)) (doy_of ((m + 719468) % 146097))
          (doy_of ((n + 719468) % 146097)) day (mp_lt ((n + 719468) % 146097) (omega arith))
]
