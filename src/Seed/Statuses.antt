-- ===== src/Seed/Statuses.antt =====
-- The statuses that the generator writes, against the expiry engine.
use employee_compliance_saas.Common.{
  ℕ, ◌/◌, ◌≤◌, ◌<◌, ◌≡◌, refl, String, false, some, List, ◌∷◌, arith,
}
use employee_compliance_saas.Common.Int.{sub_ℕ}
use employee_compliance_saas.Common.Text.{codes, is_empty}
use employee_compliance_saas.Calendar.{ms_per_day, civil_of_day, to_utc_date_string}
use employee_compliance_saas.Calendar.Reading.{read_back}
use employee_compliance_saas.Database.Schema.{Instant, ExpiryStatus}
use employee_compliance_saas.Documents.{default_policy}
use employee_compliance_saas.Expiry.{is_manual, status_of_days, calculate_status}
use employee_compliance_saas.Seed.{
  ExpiryBucket, expired, critical, expiring_soon, valid, expiry_bucket_to_dates, expiry_date,
}

not_empty : (s : String) (c : ℕ) (cs : List ℕ) → codes s ≡ c ∷ cs → is_empty s ≡ false
not_empty (String.[]) c cs h = cc
not_empty (String.◌∷◌ d s) c cs h = refl

printed_not_empty :
    (s : String) (instant : Instant) → codes s ≡ to_utc_date_string instant → is_empty s ≡ false
unfolding to_utc_date_string
printed_not_empty s instant h = not_empty s _ _ h

module _ (rand_int : ℕ → ℕ) (below : (n : ℕ) → 1 ≤ n → rand_int n < n) (now : Instant)
    (recent : 400 ≤ now / ms_per_day) where
  status_of_bucket :
      (bucket : ExpiryBucket)
      → status_of_days default_policy (
          some (
            sub_ℕ
              ((expiry_bucket_to_dates rand_int now bucket).expiry_instant / ms_per_day)
              (now / ms_per_day)))
        ≡ (expiry_bucket_to_dates rand_int now bucket).expiry_status
  unfolding expiry_bucket_to_dates status_of_days
  status_of_bucket expired = ground (arith, below 400 (omega arith), recent)
  status_of_bucket critical = ground (arith, below 30 (omega arith))
  status_of_bucket expiring_soon = ground (arith, below 60 (omega arith))
  status_of_bucket valid = ground (arith, below 820 (omega arith))

  -- The status that the generator stores with an expiry date is the one that the expiry engine computes
  -- of that date under the default policy, at any time of the UTC day on which the generator started,
  -- for a document without a status that a user has set. The conditions: randInt(n) is below n, the
  -- day is later than 1971-02-04, and the expiry year is at most 9999.
  pub seed_status :
      (bucket : ExpiryBucket) (date : String) (later : Instant) (current : ExpiryStatus)
      → codes date ≡ expiry_date (expiry_bucket_to_dates rand_int now bucket)
      → (civil_of_day
          ((expiry_bucket_to_dates rand_int now bucket).expiry_instant / ms_per_day)).year
        ≤ 9999
      → later / ms_per_day ≡ now / ms_per_day
      → is_manual current ≡ false
      → calculate_status (some date) default_policy current later
        ≡ (expiry_bucket_to_dates rand_int now bucket).expiry_status
  unfolding calculate_status
  seed_status bucket date later current printed year same engine =
      let instant = (expiry_bucket_to_dates rand_int now bucket).expiry_instant in
      rw
        (
          engine,
          printed_not_empty date instant printed,
          read_back date instant later printed year,
          same,
        )
        (status_of_bucket bucket)
