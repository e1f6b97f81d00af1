-- ===== src/Expiry/Thresholds.antt =====
-- The engine against the specification's sequence of threshold checks.
use employee_compliance_saas.Common.{
  ℕ, ◌+◌, ◌≡◌, String, Bool, true, false, ◌||◌, Option, some, leb, max, if◌then◌else◌, arith,
}
use native.Mathlib.Nat.{add-zero}
use employee_compliance_saas.Common.Int.{pos, negsuc, leb_ℤ, is_negative}
use employee_compliance_saas.Database.Schema.{
  Instant, ExpiryStatus, valid, expiring_soon, expired, blocked, ExpiryPolicy,
}
use employee_compliance_saas.Expiry.{
  status_of_days, calculate_status, widest_warning_window, is_manual,
}

-- The four threshold checks, one after the other, for a date that is not past.
unfoldable pub sequential_status : ExpiryPolicy → ℕ → ExpiryStatus
sequential_status p days =
    if leb days p.critical_days
    then expiring_soon
    else if leb days p.warning_days_3
    then expiring_soon
    else if leb days p.warning_days_2
    then expiring_soon
    else if leb days p.warning_days_1
    then expiring_soon
    else valid

leb-max : (d a b : ℕ) → leb d (max a b) ≡ (leb d a || leb d b)
leb-max d a b = ground arith

within_window :
    (p : ExpiryPolicy) (days : ℕ)
    → leb_ℤ (pos days) (pos (widest_warning_window p)) ≡ (
        ((leb days p.critical_days || leb days p.warning_days_3) || leb days p.warning_days_2)
        || leb days p.warning_days_1)
within_window p days = simp (add-zero, leb-max)

not_negative : (d : ℕ) → is_negative (pos d) ≡ false
not_negative d = ground arith

any_of_four :
    (a b c d : Bool) {A : Type 0} (x y : A)
    → (if ((a || b) || c) || d then x else y)
      ≡ (if a then x else if b then x else if c then x else if d then x else y)
any_of_four a b c d x y = ground arith

-- For a date that is not past, the single comparison with the widest window gives what the four
-- threshold checks give, whatever the order of the thresholds.
pub status_of_days-eq-sequential_status :
    (p : ExpiryPolicy) (days : ℕ) → status_of_days p (some (pos days)) ≡ sequential_status p days
unfolding status_of_days sequential_status
status_of_days-eq-sequential_status p days =
    rw (not_negative, within_window)
      (any_of_four (leb days p.critical_days) (leb days p.warning_days_3)
        (leb days p.warning_days_2) (leb days p.warning_days_1) expiring_soon valid)

-- A document that expired n + 1 days ago is EXPIRING_SOON exactly while n + 1 is at most the grace
-- period, and else BLOCKED or EXPIRED as `auto_block` says.
status_of_days_past :
    (p : ExpiryPolicy) (n : ℕ)
    → status_of_days p (some (negsuc n)) ≡ (
        if leb (n + 1) p.grace_period_days
        then expiring_soon
        else if p.auto_block
        then blocked
        else expired)
unfolding status_of_days
status_of_days_past p n = ground arith

-- The two facts of the next theorem, as the other modules use them.
pub calculate_status_manual :
    (expiry : Option String) (p : ExpiryPolicy) (current : ExpiryStatus) (now : Instant)
    → is_manual (calculate_status expiry p current now) ≡ is_manual current
      × (is_manual current ≡ true → calculate_status expiry p current now ≡ current)
unfolding calculate_status status_of_days
calculate_status_manual expiry p current now = (ground arith, λ h. ground arith)

-- The engine never sets a status that only a user sets, and keeps one that a user did set.
manual_status_kept :
    (expiry : Option String) (p : ExpiryPolicy) (current : ExpiryStatus) (now : Instant)
    → (is_manual (calculate_status expiry p current now) ≡ is_manual current)
      × ((if is_manual current then calculate_status expiry p current now else current) ≡ current)
manual_status_kept expiry p current now =
    let (same, kept) = calculate_status_manual expiry p current now in (same, ground (arith, kept))
