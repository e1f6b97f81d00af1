-- ===== src/Health.antt =====
-- The probes of apps/api/src/health: the two pings with their time limit, and what they amount to.
use employee_compliance_saas.Common.{
  ℕ, ◌≡◌, refl, String, Bool, true, false, ◌&&◌, Option, none, some, ltb, if◌then◌else◌, str_eq,
  arith, Bool-cases, inl, inr,
}

-- A promise of the database or of Redis: it settles after some milliseconds, with a value or, as
-- `none`, with an error; or it never does.
pub data Promise (A : Type 0) : Type 0 where
  settles : ℕ → Option A → Promise A
  hangs : Promise A

pub data CheckStatus : Type 0 where
  ok fail : CheckStatus

pub record ReadinessChecks : Type 0 where
  pub db : CheckStatus
  pub redis : CheckStatus

pub data Readiness : Type 0 where
  ready not_ready : Readiness

pub record ReadinessResult : Type 0 where
  pub http_status : ℕ
  pub status : Readiness
  pub checks : ReadinessChecks

abbrev pub is_ok : CheckStatus → Bool
is_ok ok = true
is_ok fail = false

unfoldable pub compute_readiness : ReadinessChecks → ReadinessResult
compute_readiness checks =
    let is_ready = is_ok checks.db && is_ok checks.redis in
    record {
      http_status = if is_ready then 200 else 503;
      status = if is_ready then ready else not_ready;
      checks = checks;
    }

abbrev pub check_timeout_ms : ℕ
check_timeout_ms = 2000

-- What the promise settles to within the limit; `none` is an error or the timeout. A promise that
-- settles in the very millisecond of the timeout counts as too late.
unfoldable pub with_timeout : {A : Type 0} → Promise A → ℕ → Option A
with_timeout hangs ms = none
with_timeout (settles time value) ms = if ltb time ms then value else none

abbrev status_of : Option (Unit {0}) → CheckStatus
status_of none = fail
status_of (some _) = ok

unfoldable pub check_db : Promise (Unit {0}) → CheckStatus
check_db ping = status_of (with_timeout ping check_timeout_ms)

abbrev pong : Option String → CheckStatus
pong none = fail
pong (some reply) = if str_eq reply "PONG" then ok else fail

unfoldable pub check_redis : Promise String → CheckStatus
check_redis ping = pong (with_timeout ping check_timeout_ms)

unfoldable pub readiness : Promise (Unit {0}) → Promise String → ReadinessResult
readiness db redis = compute_readiness (record { db = check_db db; redis = check_redis redis })

abbrev pub answers : Promise (Unit {0}) → Bool
answers (settles time (some _)) = ltb time 2000
answers _ = false

abbrev pub answers_pong : Promise String → Bool
answers_pong (settles time (some reply)) = ltb time 2000 && str_eq reply "PONG"
answers_pong _ = false

check_db_lem : (ping : Promise (Unit {0})) → is_ok (check_db ping) ≡ answers ping
unfolding check_db with_timeout
check_db_lem hangs = refl
check_db_lem (settles time none) = elim (Bool-cases (ltb time 2000)) [ inl e ↦ rw e | inr e ↦ rw e ]
check_db_lem (settles time (some _)) = elim (Bool-cases (ltb time 2000)) [
  | inl e ↦ rw e
  | inr e ↦ rw e
]

check_redis_lem : (ping : Promise String) → is_ok (check_redis ping) ≡ answers_pong ping
unfolding check_redis with_timeout
check_redis_lem hangs = refl
check_redis_lem (settles time none) = elim (Bool-cases (ltb time 2000)) [
  | inl e ↦ rw e
  | inr e ↦ rw e
]
check_redis_lem (settles time (some reply)) = elim (Bool-cases (ltb time 2000)) [
  | inl e ↦ rw e (ground arith)
  | inr e ↦ rw e
]

-- The readiness probe answers 200 exactly if both pings come back within two seconds, the database's
-- without an error and Redis's with PONG; otherwise it answers 503.
pub readiness_lem :
    (db : Promise (Unit {0})) (redis : Promise String)
    → (readiness db redis).http_status ≡ (if answers db && answers_pong redis then 200 else 503)
unfolding readiness compute_readiness
readiness_lem db redis = rw (check_db_lem db, check_redis_lem redis)
