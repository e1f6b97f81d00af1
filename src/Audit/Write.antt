-- ===== src/Audit/Write.antt =====
-- What a call of `log` does to the transaction that it is made in.
use employee_compliance_saas.Common.{
  String, ◌≡◌, inl, inr, refl, ◌∙◌, Option, none, some, [], Option-cases,
}
use employee_compliance_saas.Common.Exec.{Exception, Result, ok, err, resume, pure}
use employee_compliance_saas.Common.Exec.Keeps.{Keeps, keeps_rules}
use employee_compliance_saas.Database.Schema.{Uuid, Db, AuditEventRow}
use employee_compliance_saas.Database.Session.{
  Postgres, Session, insert_unless, released, fresh_uuid, insert_audit_event,
}
use employee_compliance_saas.Database.Isolation.{InTenant, tenant_rules}
use employee_compliance_saas.Audit.{Entry, log, write, correlation_uuid, check_ip}

module _ (pg : Postgres) {t : Uuid} {o : Db} where
  correlation_uuid-InTenant : (c : Option String) → Keeps (InTenant t o) (correlation_uuid pg c)
  unfolding correlation_uuid
  correlation_uuid-InTenant none = search tenant_rules
  correlation_uuid-InTenant (some c) = elim (Option-cases (pg.uuid_in c)) [
    | inl e ↦ rw e (search tenant_rules)
    | inr (u, e) ↦ rw e (search tenant_rules)
  ]

  check_ip-InTenant : (ip : Option String) → Keeps (InTenant t o) (check_ip pg ip)
  unfolding check_ip
  check_ip-InTenant none = search tenant_rules
  check_ip-InTenant (some ip) = search tenant_rules

  write-InTenant : (e : Entry) → e.context.tenant_id ≡ t → Keeps (InTenant t o) (write pg e)
  unfolding write
  write-InTenant e h = search (tenant_rules, correlation_uuid-InTenant, check_ip-InTenant) depth 12

  pub log-InTenant : (e : Entry) → e.context.tenant_id ≡ t → Keeps (InTenant t o) (log pg e)
  unfolding log
  log-InTenant e h = search (tenant_rules, write-InTenant)

-- A session without the audit trail and the count of uuids.
abbrev pub frame : Session → Session
frame s = record s { db = record s.db { audit_events = []; draws = 0 } }

record Framed (b s : Session) : Type 0 where
  same : frame s ≡ b

module _ (pg : Postgres) {b : Session} where
  fresh_uuid-Framed : Keeps (Framed b) (fresh_uuid pg)
  fresh_uuid-Framed = record { at = λ s h. record { same = h.same } }

  insert_unless-Framed :
      (refusal : Option Exception) (after : Db) (row : AuditEventRow) (s : Session)
      → Framed b s
      → frame (record s { db = after }) ≡ frame s
      → Framed b (insert_unless refusal after row s).1
  insert_unless-Framed none after row s h e = record { same = e ∙ h.same }
  insert_unless-Framed (some x) after row s h e = h

  insert_audit_event-Framed : (row : AuditEventRow) → Keeps (Framed b) (insert_audit_event row)
  unfolding insert_audit_event
  insert_audit_event-Framed row = record { at = λ s h. insert_unless-Framed _ _ row s h refl }

  correlation_uuid-Framed : (c : Option String) → Keeps (Framed b) (correlation_uuid pg c)
  unfolding correlation_uuid
  correlation_uuid-Framed none = fresh_uuid-Framed
  correlation_uuid-Framed (some c) = elim (Option-cases (pg.uuid_in c)) [
    | inl e ↦ rw e (search keeps_rules)
    | inr (u, e) ↦ rw e (search keeps_rules)
  ]

  check_ip-Framed : (ip : Option String) → Keeps (Framed b) (check_ip pg ip)
  unfolding check_ip
  check_ip-Framed none = search keeps_rules
  check_ip-Framed (some ip) = search keeps_rules

  write-Framed : (e : Entry) → Keeps (Framed b) (write pg e)
  unfolding write
  write-Framed e =
      search
        (
          keeps_rules, fresh_uuid-Framed, correlation_uuid-Framed, check_ip-Framed,
          insert_audit_event-Framed,
        )
        depth 12

-- What `log` makes of the outcome of the savepoint.
swallowed : {A : Type 0} → Result A × Session → Session → Result (Unit {0}) × Session
swallowed (r, s') s = (ok tt, (released s (r, s')).1)

module _ (pg : Postgres) (e : Entry) (s : Session) where
  log-swallowed : log pg e s ≡ swallowed (write pg e s) s
  unfolding log swallowed
  log-swallowed = let (r, s') = write pg e s in go r s'
    where
      go :
          (r : Result AuditEventRow) (s' : Session)
          → resume (λ _. pure tt) (released s (r, s')) ≡ (ok tt, (released s (r, s')).1)
      go (ok a) s' = refl
      go (err x) s' = refl

  -- `log` never throws.
  pub log_ok : log pg e s ≡ (ok tt, (log pg e s).1)
  unfolding swallowed
  log_ok = rw log-swallowed

  -- `log` changes nothing of the session but the audit trail.
  pub frame-log : frame (log pg e s).1 ≡ frame s
  unfolding swallowed
  frame-log =
      rw log-swallowed
        (let (r, s') = write pg e s in go r s' ((write-Framed pg e).at s (record { same = refl })))
    where
      go :
          (r : Result AuditEventRow) (s' : Session)
          → Framed (frame s) s'
          → frame (released s (r, s')).1 ≡ frame s
      go (ok a) s' h = h.same
      go (err x) s' h = refl
