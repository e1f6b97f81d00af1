-- ===== src/Audit/Trail.antt =====
-- When a call of `log` leaves an event, and when it leaves none.
use employee_compliance_saas.Common.{
  ◌+◌, String, ◌≡◌, refl, Bool, true, false, ◌&&◌, Option, none, some, [], ◌∷◌, ◌++◌, arith, ◌==◌,
  some_is, is_some, ==_iff,
}
use employee_compliance_saas.Common.Exec.{ok}
use employee_compliance_saas.Database.Schema.{Uuid, Instant, AuditEventRow}
use employee_compliance_saas.Database.Session.{
  Postgres, Session, insert_audit_event, tenant_missing,
}
use employee_compliance_saas.Audit.{
  AuditContext, Entry, log, write, correlation_uuid, check_ip, strip_secrets,
}

-- The correlation id is absent or the text of a uuid, and the address is absent or one.
abbrev pub correlation_accepted : Postgres → Option String → Bool
correlation_accepted pg none = true
correlation_accepted pg (some c) = is_some (pg.uuid_in c)

abbrev pub ip_accepted : Postgres → Option String → Bool
ip_accepted pg none = true
ip_accepted pg (some ip) = pg.inet_in ip

-- What the INSERT of an audit event needs: the tenant is the session's and exists, Postgres reads
-- the two texts of the context, and the drawn id is new.
pub record CanWrite (pg : Postgres) (c : AuditContext) (s : Session) : Type 0 where
  pub own : s.current_tenant ≡ some c.tenant_id
  pub known : tenant_missing c.tenant_id s ≡ false
  pub correlation : correlation_accepted pg c.correlation_id ≡ true
  pub address : ip_accepted pg c.actor_ip ≡ true
  pub unused : some_is (λ e. e.id == pg.gen_random_uuid s.db.draws) s.db.audit_events ≡ false

abbrev pub written : Entry → Uuid → Uuid → Instant → AuditEventRow
written e id correlation now = record {
  id = id;
  tenant_id = e.context.tenant_id;
  correlation_id = correlation;
  request_id = e.context.request_id;
  actor_user_id = some e.context.actor_user_id;
  actor_ip = e.context.actor_ip;
  actor_user_agent = e.context.actor_user_agent;
  action = e.action;
  entity_type = e.entity_type;
  entity_id = e.entity_id;
  before_state = strip_secrets e.before_state;
  after_state = strip_secrets e.after_state;
  outcome = e.outcome;
  reason = e.reason;
  created_at = now;
}

some_of : (o : Option Uuid) → is_some o ≡ true → (id : Uuid) × (o ≡ some id)
some_of none h = cc
some_of (some id) h = (id, refl)

-- The correlation id that is stored: the context's, or a second random uuid.
abbrev pub stored_correlation : Postgres → Session → Option String → Option Uuid
stored_correlation pg s none = some (pg.gen_random_uuid (s.db.draws + 1))
stored_correlation pg s (some c) = pg.uuid_in c

stored_of :
    (pg : Postgres) (s : Session) (c : Option String)
    → correlation_accepted pg c ≡ true
    → (correlation : Uuid) × (stored_correlation pg s c ≡ some correlation)
stored_of pg s none h = (_, refl)
stored_of pg s (some c) h = some_of (pg.uuid_in c) h

abbrev drawn : Session → Option String → Session
drawn s none = record s { db = record s.db { draws = s.db.draws + 1 + 1 } }
drawn s (some c) = record s { db = record s.db { draws = s.db.draws + 1 } }

module _ (pg : Postgres) (e : Entry) (s : Session) where
  insert-ok :
      (row : AuditEventRow) (s' : Session)
      → CanWrite pg e.context s
      → row.tenant_id ≡ e.context.tenant_id
      → row.id ≡ pg.gen_random_uuid s.db.draws
      → s'.current_tenant ≡ s.current_tenant
      → s'.db.audit_events ≡ s.db.audit_events
      → s'.db.tenants ≡ s.db.tenants
      → insert_audit_event row s'
        ≡ (ok row, record s' { db = record s'.db { audit_events = s.db.audit_events ++ row ∷ [] } })
  unfolding insert_audit_event
  insert-ok row s' w et ei ec ea en = rw (
    ea,
    en,
    ec,
    et,
    ei,
    w.own,
    w.known,
    w.unused,
    (==_iff e.context.tenant_id e.context.tenant_id).1 refl,
  )

  write_lem :
      (correlation : Uuid)
      → stored_correlation pg s e.context.correlation_id ≡ some correlation
      → ip_accepted pg e.context.actor_ip ≡ true
      → write pg e s
        ≡ insert_audit_event
            (written e (pg.gen_random_uuid s.db.draws) correlation s.now)
            (drawn s e.context.correlation_id)
  unfolding write correlation_uuid check_ip
  write_lem correlation h k = ground arith

  drawn-keeps :
      (drawn s e.context.correlation_id).current_tenant ≡ s.current_tenant
      × (drawn s e.context.correlation_id).db.audit_events ≡ s.db.audit_events
      × (drawn s e.context.correlation_id).db.tenants ≡ s.db.tenants
  drawn-keeps = ground arith

  stored :
      CanWrite pg e.context s
      → (correlation : Uuid) × (stored_correlation pg s e.context.correlation_id ≡ some correlation)
  stored w = stored_of pg s e.context.correlation_id w.correlation

  -- A call of `log` appends exactly one event, with the given action, entity, outcome, reason and
  -- stripped states, if the tenant is the session's and exists, Postgres reads the context's
  -- correlation id and address, and the drawn id is new. The correlation id is the context's, or
  -- else a second random uuid.
  pub log_appends :
      CanWrite pg e.context s
      → (correlation : Uuid) × (stored_correlation pg s e.context.correlation_id ≡ some correlation)
        × ((log pg e s).1.db.audit_events
            ≡ s.db.audit_events ++ written e (pg.gen_random_uuid s.db.draws) correlation s.now ∷ [])
  unfolding log
  log_appends w =
      let (correlation, h) = stored w in
      let row : AuditEventRow = written e (pg.gen_random_uuid s.db.draws) correlation s.now in
      let (ec, ea, en) = drawn-keeps in
      (
        correlation,
        h,
        rw (
          write_lem correlation h w.address,
          insert-ok row (drawn s e.context.correlation_id) w refl refl ec ea en,
        ),
      )

  -- A call of `log` whose correlation id or address Postgres does not read leaves no event and no
  -- other trace, and its caller does not learn of it.
  pub log_lost :
      (correlation_accepted pg e.context.correlation_id && ip_accepted pg e.context.actor_ip)
        ≡ false
      → log pg e s ≡ (ok tt, s)
  unfolding log write correlation_uuid check_ip
  log_lost h = ground arith
