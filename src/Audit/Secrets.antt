-- ===== src/Audit/Secrets.antt =====
-- What the audit trail never holds.
use employee_compliance_saas.Common.{
  String, ◌≡◌, refl, false, Option, none, some, [], ◌∷◌, ◌++◌, keep, All, All-append, Bool-cases,
  Option-cases, inl, inr,
}
use employee_compliance_saas.Common.Exec.{Exception, Result, ok, err, resume, pure}
use employee_compliance_saas.Common.Exec.Keeps.{Keeps, keeps_rules}
use employee_compliance_saas.Common.Text.{contains_ignoring_case}
use employee_compliance_saas.Database.Schema.{
  Db, Json, State, AuditEventRow, EmployeeRow, DocumentRow,
}
use employee_compliance_saas.Database.Record.{employee_state, document_state}
use employee_compliance_saas.Database.Session.{
  Postgres, Session, released, fresh_uuid, insert_audit_event, insert_unless, audit_refusal,
}
use employee_compliance_saas.Audit.{
  Entry, log, write, correlation_uuid, check_ip, is_public, is_secret, strip_secrets,
}

pub IsPublic : String × Json → Type 0
IsPublic (key, value) = is_secret key ≡ false

abbrev HasNoSecrets : Option State → Type 0
HasNoSecrets none = Unit
HasNoSecrets (some state) = All IsPublic state

-- Neither state of an event has an entry whose key looks like a secret's.
pub record IsClean (e : AuditEventRow) : Type 0 where
  pub before : HasNoSecrets e.before_state
  pub after : HasNoSecrets e.after_state

keep-IsPublic : (state : State) → All IsPublic (keep is_public state)
unfolding IsPublic
keep-IsPublic [] = tt
keep-IsPublic ((key, value) ∷ state) = elim (Bool-cases (is_secret key)) [
  | inl e ↦ rw e (keep-IsPublic state)
  | inr e ↦ rw e (e, keep-IsPublic state)
]

strip_secrets-HasNoSecrets : (state : Option State) → HasNoSecrets (strip_secrets state)
unfolding strip_secrets
strip_secrets-HasNoSecrets none = tt
strip_secrets-HasNoSecrets (some state) = keep-IsPublic state

record Trail (s : Session) : Type 0 where
  clean : All IsClean s.db.audit_events

module _ (pg : Postgres) where
  fresh_uuid-Trail : Keeps Trail (fresh_uuid pg)
  fresh_uuid-Trail = record { at = λ s h. record { clean = h.clean } }

  insert_unless-Trail :
      (refusal : Option Exception) (after : Db) (row : AuditEventRow) (s : Session)
      → Trail s
      → All IsClean after.audit_events
      → Trail (insert_unless refusal after row s).1
  insert_unless-Trail none after row s h k = record { clean = k }
  insert_unless-Trail (some x) after row s h k = h

  insert_audit_event-Trail :
      (row : AuditEventRow) → IsClean row → Keeps Trail (insert_audit_event row)
  unfolding insert_audit_event
  insert_audit_event-Trail row c = record {
    at = λ s h.
        insert_unless-Trail (audit_refusal row s)
          (record s.db { audit_events = s.db.audit_events ++ row ∷ [] }) row s h
          (All-append IsClean s.db.audit_events (row ∷ []) h.clean (c, tt));
  }

  correlation_uuid-Trail : (c : Option String) → Keeps Trail (correlation_uuid pg c)
  unfolding correlation_uuid
  correlation_uuid-Trail none = fresh_uuid-Trail
  correlation_uuid-Trail (some c) = elim (Option-cases (pg.uuid_in c)) [
    | inl e ↦ rw e (search keeps_rules)
    | inr (u, e) ↦ rw e (search keeps_rules)
  ]

  check_ip-Trail : (ip : Option String) → Keeps Trail (check_ip pg ip)
  unfolding check_ip
  check_ip-Trail none = search keeps_rules
  check_ip-Trail (some ip) = search keeps_rules

  stripped-IsClean :
      (e : Entry) (row : AuditEventRow)
      → row.before_state ≡ strip_secrets e.before_state
      → row.after_state ≡ strip_secrets e.after_state
      → IsClean row
  stripped-IsClean e row h k = record {
    before = rw h (strip_secrets-HasNoSecrets e.before_state);
    after = rw k (strip_secrets-HasNoSecrets e.after_state);
  }

  write-Trail : (e : Entry) → Keeps Trail (write pg e)
  unfolding write
  write-Trail e =
      search
        (
          keeps_rules,
          fresh_uuid-Trail,
          correlation_uuid-Trail,
          check_ip-Trail,
          insert_audit_event-Trail,
          stripped-IsClean e,
        )
        depth 14

  -- If no event of the trail holds an entry whose key matches the secret pattern, none does after a
  -- call of `log`, whatever states it is given and whether or not the write goes through.
  pub log-IsClean :
      (e : Entry) (s : Session)
      → All IsClean s.db.audit_events
      → All IsClean (log pg e s).1.db.audit_events
  unfolding log
  log-IsClean e s h =
      let (r, s') = write pg e s in go r s' ((write-Trail e).at s (record { clean = h }))
    where
      go :
          (r : Result AuditEventRow) (s' : Session)
          → Trail s'
          → All IsClean (resume (λ _. pure tt) (released s (r, s'))).1.db.audit_events
      go (ok a) s' k = k.clean
      go (err x) s' k = h

-- The columns of an employee and of a document pass the filter whole.
states_public :
    (e : EmployeeRow) (d : DocumentRow)
    → (strip_secrets (some (employee_state e)) ≡ some (employee_state e))
      × (strip_secrets (some (document_state d)) ≡ some (document_state d))
unfolding strip_secrets employee_state document_state is_secret contains_ignoring_case
states_public e d = (refl, refl)
