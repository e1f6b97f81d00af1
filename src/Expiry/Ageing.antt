-- ===== src/Expiry/Ageing.antt =====
-- How the engine's status moves as a document ages.
use employee_compliance_saas.Common.{ℕ, ◌≤◌, some, arith}
use employee_compliance_saas.Common.Int.{ℤ, ◌≤ℤ◌}
use employee_compliance_saas.Database.Schema.{ExpiryStatus, valid, expiring_soon, ExpiryPolicy}
use employee_compliance_saas.Expiry.{status_of_days}

-- How urgent a status of the engine is.
abbrev pub severity : ExpiryStatus → ℕ
severity valid = 0
severity expiring_soon = 1
severity _ = 2

-- With fewer days left the engine's status is never less urgent.
severity_mono :
    (p : ExpiryPolicy) (later sooner : ℤ)
    → later ≤ℤ sooner
    → severity (status_of_days p (some sooner)) ≤ severity (status_of_days p (some later))
unfolding status_of_days
severity_mono p later sooner h = ground arith
