-- ===== src/Database/Isolation.antt =====
-- Tenant isolation of the statements: in a session of one tenant, no statement changes a row of
-- another tenant in any of the tables under row-level security.
use employee_compliance_saas.Common.{List, [], ◌∷◌, ◌≡◌, refl, ap, ◌∙◌, Bool, Option, none, some}
use employee_compliance_saas.Common.Exec.{Result, ok, err, Exec, ◌>>◌, Exception}
use employee_compliance_saas.Common.Exec.Keeps.{Keeps, keeps_rules}
use employee_compliance_saas.Database.Table.{outside, outside-append, outside-update}
use employee_compliance_saas.Database.Schema.{
  Uuid, Instant, Db, EmployeeRow, DocumentRow, AuditEventRow, IdempotencyKeyRow, NotificationLogRow,
  NotificationPolicyRow, ImportBatchRow,
}
use employee_compliance_saas.Database.Session.{
  Postgres, Session, transaction, finish, set_tenant_context, released, with_savepoint, fresh_uuid,
  first_or, insert_unless, insert_employee, update_employees, insert_document, update_documents,
  insert_audit_event, insert_key, insert_log, insert_batch, update_batches,
  insert_notification_policy, update_notification_policies,
}

-- What a database holds of the tenants other than `t`, and of the tenants themselves.
abbrev pub others : Uuid → Db → Db
others t db = record {
  tenants = db.tenants;
  employees = outside (λ r. r.tenant_id) t db.employees;
  documents = outside (λ r. r.tenant_id) t db.documents;
  expiry_policies = outside (λ r. r.tenant_id) t db.expiry_policies;
  audit_events = outside (λ r. r.tenant_id) t db.audit_events;
  idempotency_keys = outside (λ r. r.tenant_id) t db.idempotency_keys;
  notification_policies = outside (λ r. r.tenant_id) t db.notification_policies;
  notification_log = outside (λ r. r.tenant_id) t db.notification_log;
  import_batches = outside (λ r. r.tenant_id) t db.import_batches;
  draws = 0;
}

-- The session is the tenant's, and the other tenants' rows are those of `o`.
pub record InTenant (t : Uuid) (o : Db) (s : Session) : Type 0 where
  pub context : s.current_tenant ≡ some t
  pub unchanged : others t s.db ≡ o

module _ {t : Uuid} {o : Db} where
  pub fresh_uuid-InTenant : (pg : Postgres) → Keeps (InTenant t o) (fresh_uuid pg)
  fresh_uuid-InTenant pg = record {
    at = λ s h. record { context = h.context; unchanged = h.unchanged };
  }

  pub insert_unless-InTenant :
      {Row : Type 0} (refusal : Option Exception) (after : Db) (row : Row) (s : Session)
      → InTenant t o s
      → others t after ≡ others t s.db
      → InTenant t o (insert_unless refusal after row s).1
  insert_unless-InTenant none after row s h e = record {
    context = h.context;
    unchanged = e ∙ h.unchanged;
  }
  insert_unless-InTenant (some x) after row s h e = h

  pub insert_employee-InTenant :
      (r : EmployeeRow) → r.tenant_id ≡ t → Keeps (InTenant t o) (insert_employee r)
  unfolding insert_employee
  insert_employee-InTenant r e = record {
    at = λ s h. insert_unless-InTenant _ _ r s h (
        ap (λ es. record (others t s.db) { employees = es })
          (outside-append (λ x. x.tenant_id) t s.db.employees r e));
  }

  pub update_employees-InTenant :
      (p : EmployeeRow → Bool) (f : EmployeeRow → EmployeeRow)
      → ((r : EmployeeRow) → (f r).tenant_id ≡ r.tenant_id)
      → Keeps (InTenant t o) (update_employees p f)
  unfolding update_employees
  update_employees-InTenant p f e = record {
    at = λ s h. record {
      context = h.context;
      unchanged = rw h.context (
          rw (outside-update (λ (x : EmployeeRow). x.tenant_id) t p f s.db.employees e)
            h.unchanged);
    };
  }

  pub insert_document-InTenant :
      (r : DocumentRow) → r.tenant_id ≡ t → Keeps (InTenant t o) (insert_document r)
  unfolding insert_document
  insert_document-InTenant r e = record {
    at = λ s h. insert_unless-InTenant _ _ r s h (
        ap (λ es. record (others t s.db) { documents = es })
          (outside-append (λ x. x.tenant_id) t s.db.documents r e));
  }

  pub insert_audit_event-InTenant :
      (r : AuditEventRow) → r.tenant_id ≡ t → Keeps (InTenant t o) (insert_audit_event r)
  unfolding insert_audit_event
  insert_audit_event-InTenant r e = record {
    at = λ s h. insert_unless-InTenant _ _ r s h (
        ap (λ es. record (others t s.db) { audit_events = es })
          (outside-append (λ x. x.tenant_id) t s.db.audit_events r e));
  }

  pub insert_key-InTenant :
      (r : IdempotencyKeyRow) → r.tenant_id ≡ t → Keeps (InTenant t o) (insert_key r)
  unfolding insert_key
  insert_key-InTenant r e = record {
    at = λ s h. insert_unless-InTenant _ _ r s h (
        ap (λ es. record (others t s.db) { idempotency_keys = es })
          (outside-append (λ x. x.tenant_id) t s.db.idempotency_keys r e));
  }

  pub insert_log-InTenant :
      (r : NotificationLogRow) → r.tenant_id ≡ t → Keeps (InTenant t o) (insert_log r)
  unfolding insert_log
  insert_log-InTenant r e = record {
    at = λ s h. insert_unless-InTenant _ _ r s h (
        ap (λ es. record (others t s.db) { notification_log = es })
          (outside-append (λ x. x.tenant_id) t s.db.notification_log r e));
  }

  pub insert_batch-InTenant :
      (r : ImportBatchRow) → r.tenant_id ≡ t → Keeps (InTenant t o) (insert_batch r)
  unfolding insert_batch
  insert_batch-InTenant r e = record {
    at = λ s h. insert_unless-InTenant _ _ r s h (
        ap (λ es. record (others t s.db) { import_batches = es })
          (outside-append (λ x. x.tenant_id) t s.db.import_batches r e));
  }

  pub insert_notification_policy-InTenant :
      (r : NotificationPolicyRow)
      → r.tenant_id ≡ t
      → Keeps (InTenant t o) (insert_notification_policy r)
  unfolding insert_notification_policy
  insert_notification_policy-InTenant r e = record {
    at = λ s h. insert_unless-InTenant _ _ r s h (
        ap (λ es. record (others t s.db) { notification_policies = es })
          (outside-append (λ x. x.tenant_id) t s.db.notification_policies r e));
  }

  pub update_documents-InTenant :
      (p : DocumentRow → Bool) (f : DocumentRow → DocumentRow)
      → ((r : DocumentRow) → (f r).tenant_id ≡ r.tenant_id)
      → Keeps (InTenant t o) (update_documents p f)
  unfolding update_documents
  update_documents-InTenant p f e = record {
    at = λ s h. record {
      context = h.context;
      unchanged = rw h.context (
          rw (outside-update (λ (x : DocumentRow). x.tenant_id) t p f s.db.documents e)
            h.unchanged);
    };
  }

  pub update_batches-InTenant :
      (p : ImportBatchRow → Bool) (f : ImportBatchRow → ImportBatchRow)
      → ((r : ImportBatchRow) → (f r).tenant_id ≡ r.tenant_id)
      → Keeps (InTenant t o) (update_batches p f)
  unfolding update_batches
  update_batches-InTenant p f e = record {
    at = λ s h. record {
      context = h.context;
      unchanged = rw h.context (
          rw (outside-update (λ (x : ImportBatchRow). x.tenant_id) t p f s.db.import_batches e)
            h.unchanged);
    };
  }

  pub update_notification_policies-InTenant :
      (p : NotificationPolicyRow → Bool) (f : NotificationPolicyRow → NotificationPolicyRow)
      → ((r : NotificationPolicyRow) → (f r).tenant_id ≡ r.tenant_id)
      → Keeps (InTenant t o) (update_notification_policies p f)
  unfolding update_notification_policies
  update_notification_policies-InTenant p f e = record {
    at = λ s h. record {
      context = h.context;
      unchanged = rw h.context (
          rw
            (outside-update (λ (x : NotificationPolicyRow). x.tenant_id) t p f
              s.db.notification_policies e)
            h.unchanged);
    };
  }

  released-InTenant :
      {A : Type 0} (s : Session) (r : Result A) (s' : Session)
      → InTenant t o s
      → InTenant t o s'
      → InTenant t o (released s (r, s')).1
  released-InTenant s (ok a) s' h k = k
  released-InTenant s (err e) s' h k = h

  pub with_savepoint-InTenant :
      {A : Type 0} (m : Exec Session A)
      → Keeps (InTenant t o) m
      → Keeps (InTenant t o) (with_savepoint m)
  with_savepoint-InTenant m k = record {
    at = λ s h. let (r, s') = m s in released-InTenant s r s' h (k.at s h);
  }

  pub first_or-InTenant :
      {A : Type 0} (e : Exception) (rows : List A) → Keeps (InTenant t o) (first_or e rows)
  first_or-InTenant e [] = record { at = λ s h. h }
  first_or-InTenant e (row ∷ rows) = record { at = λ s h. h }

pub ruleset tenant_rules = (
  keeps_rules, fresh_uuid-InTenant, insert_employee-InTenant, update_employees-InTenant,
  insert_document-InTenant, update_documents-InTenant, insert_audit_event-InTenant,
  insert_key-InTenant, insert_log-InTenant, insert_batch-InTenant, update_batches-InTenant,
  insert_notification_policy-InTenant, update_notification_policies-InTenant,
  with_savepoint-InTenant, first_or-InTenant,
)

finish-others :
    {A : Type 0} (t : Uuid) (db : Db) (r : Result A) (s : Session)
    → InTenant t (others t db) s
    → others t (finish db (r, s)).1 ≡ others t db
finish-others t db (ok a) s h = h.unchanged
finish-others t db (err e) s h = refl

-- A transaction that first sets the tenant leaves the other tenants alone.
pub others-transaction :
    {A : Type 0} (t : Uuid) (now : Instant) (body : Exec Session A) (db : Db)
    → Keeps (InTenant t (others t db)) body
    → others t (transaction now (set_tenant_context t >> body) db).1 ≡ others t db
others-transaction t now body db k =
    let s : Session = record { db = db; current_tenant = some t; now = now } in
    let (r, s') = body s in
    finish-others t db r s' (k.at s (record { context = refl; unchanged = refl }))
