-- ===== src/Dashboard/Texts.antt =====
-- The texts of dates, compared as Postgres compares them, against the days of the dates.
use employee_compliance_saas.Common.{
  ℕ, ◌+◌, ◌/◌, ◌%◌, ◌≤◌, ◌<◌, ◌≡◌, sym, ap, ◌∙◌, inl, inr, Bool, true, false, ◌&&◌, ◌||◌,
  Bool-cases, ==_iff, List, [], ◌∷◌, ◌++◌, leb, ltb, ◌==◌, if◌then◌else◌, arith,
}
use employee_compliance_saas.Calendar.{
  Civil, civil_of_day, to_utc_date_string, padded_2, padded_4, ms_per_day,
}
use employee_compliance_saas.Calendar.Order.{is_before, civil_of_day-is_before}
use employee_compliance_saas.Calendar.Reading.{month_le, day_le}
use employee_compliance_saas.Database.Schema.{Instant}
use employee_compliance_saas.Dashboard.Expiring.{date_le}

-- Two digits, and what follows them.
two_digits :
    (m n : ℕ) (r s : List ℕ)
    → m ≤ 99
    → n ≤ 99
    → date_le (padded_2 m ++ r) (padded_2 n ++ s) ≡ (ltb m n || (m == n && date_le r s))
two_digits m n r s h k = ground (arith, h, k)

split : (m : ℕ) (r : List ℕ) → padded_4 m ++ r ≡ padded_2 (m / 100) ++ padded_2 (m % 100) ++ r
split m r =
    let first : 48 + m / 1000 % 10 ≡ 48 + m / 100 / 10 % 10 = omega arith in
    let third : 48 + m / 10 % 10 ≡ 48 + m % 100 / 10 % 10 = omega arith in
    let last : 48 + m % 10 ≡ 48 + m % 100 % 10 = omega arith in
    λ i. first i ∷ (48 + m / 100 % 10) ∷ third i ∷ last i ∷ r

joined :
    (m n : ℕ) (b : Bool)
    → (ltb (m / 100) (n / 100)
        || (m / 100 == n / 100 && (ltb (m % 100) (n % 100) || (m % 100 == n % 100 && b))))
      ≡ (ltb m n || (m == n && b))
joined m n b = ground arith

four_digits :
    (m n : ℕ) (r s : List ℕ)
    → m ≤ 9999
    → n ≤ 9999
    → date_le (padded_4 m ++ r) (padded_4 n ++ s) ≡ (ltb m n || (m == n && date_le r s))
four_digits m n r s h k =
    (λ i. date_le (split m r i) (split n s i))
    ∙ two_digits (m / 100) (n / 100) (padded_2 (m % 100) ++ r) (padded_2 (n % 100) ++ s)
        (omega (arith, h)) (omega (arith, k))
    ∙ ap (λ b. ltb (m / 100) (n / 100) || (m / 100 == n / 100 && b))
        (two_digits (m % 100) (n % 100) r s (omega arith) (omega arith))
    ∙ joined m n (date_le r s)

-- The texts of two dates are in the order of the fields.
printed_order :
    (a b : Civil)
    → a.year ≤ 9999
    → b.year ≤ 9999
    → a.month ≤ 99
    → b.month ≤ 99
    → a.day ≤ 99
    → b.day ≤ 99
    → date_le
        (padded_4 a.year ++ 45 ∷ padded_2 a.month ++ 45 ∷ padded_2 a.day)
        (padded_4 b.year ++ 45 ∷ padded_2 b.month ++ 45 ∷ padded_2 b.day)
      ≡ (ltb a.year b.year
          || (a.year == b.year && (ltb a.month b.month || (a.month == b.month && leb a.day b.day))))
printed_order a b h k p q d e =
    four_digits a.year b.year (45 ∷ padded_2 a.month ++ 45 ∷ padded_2 a.day)
      (45 ∷ padded_2 b.month ++ 45 ∷ padded_2 b.day) h k
    ∙ ap (λ c. ltb a.year b.year || (a.year == b.year && c))
        (two_digits a.month b.month (45 ∷ padded_2 a.day) (45 ∷ padded_2 b.day) p q
          ∙ ap (λ c. ltb a.month b.month || (a.month == b.month && c))
              (two_digits a.day b.day [] [] d e ∙ last a.day b.day))
  where
    last : (m n : ℕ) → (ltb m n || (m == n && true)) ≡ leb m n
    last m n = ground arith

irreflexive : (a : Civil) → is_before a a ≡ false
irreflexive a = ground arith

same_before : (a b : Civil) → is_before a b ≡ true → is_before b a ≡ false
same_before a b h = ground (arith, h)

-- `leb` of the fields, from the strict order.
at_most :
    (a b : Civil)
    → (ltb a.year b.year
        || (a.year == b.year && (ltb a.month b.month || (a.month == b.month && leb a.day b.day))))
      ≡ (if is_before b a then false else true)
at_most a b = ground arith

-- Dates up to the year 9999 are printed in the order of the days.
pub printed_days :
    (m n : Instant)
    → (civil_of_day (m / ms_per_day)).year ≤ 9999
    → (civil_of_day (n / ms_per_day)).year ≤ 9999
    → date_le (to_utc_date_string m) (to_utc_date_string n) ≡ leb (m / ms_per_day) (n / ms_per_day)
unfolding to_utc_date_string
printed_days m n h k =
    let a = m / ms_per_day in
    let b = n / ms_per_day in
    printed_order (civil_of_day a) (civil_of_day b) h k (month_le a) (month_le b) (day_le a)
      (day_le b)
    ∙ at_most (civil_of_day a) (civil_of_day b)
    ∙ days a b
  where
    days :
        (a b : ℕ) → (if is_before (civil_of_day b) (civil_of_day a) then false else true) ≡ leb a b
    days a b = elim (Bool-cases (ltb b a)) [
      | inl e ↦ rw (civil_of_day-is_before b a (ground (arith, e))) (ground (arith, e))
      | inr e ↦ elim (Bool-cases (a == b)) [
        | inl same ↦
            let eq : b ≡ a = sym ((==_iff a b).0 same) in
            ap (λ x. if is_before (civil_of_day x) (civil_of_day a) then false else true) eq
            ∙ rw (irreflexive (civil_of_day a)) (ground (arith, same))
        | inr other ↦
            let lt : a < b = ground (arith, e, other) in
            rw (same_before (civil_of_day a) (civil_of_day b) (civil_of_day-is_before a b lt))
              (ground (arith, e))
      ]
    ]
