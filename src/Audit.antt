-- ===== src/Audit.antt =====
-- The append-only audit trail: apps/api/src/audit/audit.service.ts, and the context that
-- apps/api/src/common/audit-context.ts builds for it. The structured log lines are not modelled.
pub mod Write
pub mod Trail
pub mod Secrets
use employee_compliance_saas.Common.{
  ℕ, String, Bool, true, false, not, ◌||◌, Option, none, some, List, [], ◌∷◌, if◌then◌else◌, keep,
  is_some,
}
use employee_compliance_saas.Common.Exec.{Exec, pg_error, pure, throw, gets, ◌>>=◌, ◌>>◌}
use employee_compliance_saas.Common.Text.{contains_ignoring_case}
use employee_compliance_saas.Database.Schema.{
  Uuid, AuditAction, AuditOutcome, Json, State, AuditEventRow,
}
use employee_compliance_saas.Database.Session.{
  Postgres, Session, with_savepoint, fresh_uuid, now_of, insert_audit_event,
}

pub record AuditContext : Type 0 where
  pub tenant_id : Uuid
  pub actor_user_id : String
  pub actor_ip : Option String
  pub actor_user_agent : Option String
  pub request_id : Option String
  pub correlation_id : Option String

-- `/password|secret|token|credential/i`
unfoldable pub is_secret : String → Bool
is_secret key =
    contains_ignoring_case "password" key
    || contains_ignoring_case "secret" key
    || contains_ignoring_case "token" key
    || contains_ignoring_case "credential" key

abbrev pub is_public : String × Json → Bool
is_public (key, _) = not (is_secret key)

-- The entries whose key does not look like a secret's.
unfoldable pub strip_secrets : Option State → Option State
strip_secrets none = none
strip_secrets (some state) = some (keep is_public state)

-- What one call of `log` is given.
pub record Entry : Type 0 where
  pub context : AuditContext
  pub action : AuditAction
  pub entity_type : String
  pub entity_id : Option Uuid
  pub before_state : Option State
  pub after_state : Option State
  pub outcome : AuditOutcome
  pub reason : Option String

module _ (pg : Postgres) where
  abbrev cast_uuid : Option Uuid → Exec Session Uuid
  cast_uuid none = throw (pg_error "22P02")
  cast_uuid (some id) = pure id

  -- The `correlation_id` column, a uuid, is given the context's text, which Postgres may refuse, or
  -- its random default.
  correlation_uuid : Option String → Exec Session Uuid
  correlation_uuid none = fresh_uuid pg
  correlation_uuid (some correlation) = cast_uuid (pg.uuid_in correlation)

  -- The `actor_ip` column, an inet.
  check_ip : Option String → Exec Session (Unit {0})
  check_ip none = pure tt
  check_ip (some ip) = if pg.inet_in ip then pure tt else throw (pg_error "22P02")

  -- The INSERT inside the savepoint.
  unfoldable pub write : Entry → Exec Session AuditEventRow
  unfolding correlation_uuid check_ip
  write e = do
    id ← fresh_uuid pg
    correlation_id ← correlation_uuid e.context.correlation_id
    check_ip e.context.actor_ip
    created_at ← now_of
    insert_audit_event (record {
      id = id;
      tenant_id = e.context.tenant_id;
      correlation_id = correlation_id;
      request_id = e.context.request_id;
      actor_user_id = some e.context.actor_user_id;
      actor_ip = e.context.actor_ip;
      actor_user_agent = e.context.actor_user_agent;
      action = e.action;
      entity_type = e.entity_type;
      entity_id = e.entity_id;
      before_state = strip_secrets e.before_state;
      after_state = strip_secrets e.after_state;
      outcome = e.outcome;
      reason = e.reason;
      created_at = created_at;
    })

  -- `log` swallows what the savepoint rolled back.
  unfoldable pub log : Entry → Exec Session (Unit {0})
  log e = do with_savepoint (write e); pure tt
