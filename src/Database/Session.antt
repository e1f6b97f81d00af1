-- ===== src/Database/Session.antt =====
-- A transaction of the application's database user: drizzle's `db.transaction`, `setTenantContext`
-- (apps/api/src/database/tenant-context.ts), and the statements that the services send.
use employee_compliance_saas.Common.{
  ℕ, ◌+◌, String, Bool, true, false, not, ◌&&◌, ◌||◌, Option, none, some, List, [], ◌∷◌, ◌++◌, map,
  ◌==◌, if◌then◌else◌, some_is, str_eq,
}
use employee_compliance_saas.Common.Exec.{
  Exception, pg_error, Result, ok, err, Exec, pure, throw, gets, modify,
}
use employee_compliance_saas.Database.Table.{is_visible, select, update}
use employee_compliance_saas.Database.Schema.{
  Uuid, Instant, EmployeeRow, DocumentRow, ExpiryPolicyRow, AuditEventRow, IdempotencyKey, reminder,
  import, IdempotencyKeyRow, NotificationPolicyRow, NotificationLogRow, ImportBatchRow, Db,
}

-- What the program uses of Postgres and does not define: the random uuids, by how many were drawn
-- before; the reading of a text into a uuid or inet column, which may be refused; and the English
-- full-text match `to_tsvector(document) @@ plainto_tsquery(query)`.
pub record Postgres : Type 0 where
  pub gen_random_uuid : ℕ → Uuid
  pub uuid_in : String → Option Uuid
  pub inet_in : String → Bool
  pub text_match : String → String → Bool

-- `now` is the start of the transaction, which is what `now()` returns.
pub record Session : Type 0 where
  pub db : Db
  pub current_tenant : Option Uuid
  pub now : Instant

-- COMMIT, or ROLLBACK on a throw.
abbrev pub finish : {A : Type 0} → Db → Result A × Session → Result A × Db
finish before (ok a, s) = (ok a, s.db)
finish before (err e, s) = (err e, before)

abbrev pub transaction : {A : Type 0} → Instant → Exec Session A → Exec Db A
transaction now body db = finish db (body (record { db = db; current_tenant = none; now = now }))

abbrev pub set_tenant_context : Uuid → Exec Session (Unit {0})
set_tenant_context tenant = modify (λ s. record s { current_tenant = some tenant })

-- SAVEPOINT, then RELEASE, or ROLLBACK TO SAVEPOINT: whether the action went through.
abbrev pub released : {A : Type 0} → Session → Result A × Session → Result Bool × Session
released before (ok a, s) = (ok true, s)
released before (err e, s) = (ok false, before)

abbrev pub with_savepoint : {A : Type 0} → Exec Session A → Exec Session Bool
with_savepoint body s = released s (body s)

-- An INSERT is refused by the row-level security policy, by a unique index, or by a foreign key.
abbrev pub refused_by : Bool → Bool → Bool → Option Exception
refused_by hidden clash dangling =
    if hidden
    then some (pg_error "42501")
    else if clash
    then some (pg_error "23505")
    else if dangling
    then some (pg_error "23503")
    else none

abbrev pub insert_unless : {Row : Type 0} → Option Exception → Db → Row → Exec Session Row
insert_unless none after row s = (ok row, record s { db = after })
insert_unless (some e) after row s = (err e, s)

abbrev pub tenant_missing : Uuid → Session → Bool
tenant_missing tenant s = not (some_is (λ t. t.id == tenant) s.db.tenants)

module _ (pg : Postgres) where
  abbrev pub fresh_uuid : Exec Session Uuid
  fresh_uuid s =
      (ok (pg.gen_random_uuid s.db.draws), record s { db = record s.db { draws = s.db.draws + 1 } })

abbrev pub now_of : Exec Session Instant
now_of = gets (λ s. s.now)

-- `rows[0]`, or the exception that the caller throws when there is none.
abbrev pub first_or : {A : Type 0} → Exception → List A → Exec Session A
first_or e [] = throw e
first_or e (row ∷ _) = pure row

-- employees

abbrev pub select_employees : (EmployeeRow → Bool) → Exec Session (List EmployeeRow)
select_employees p = gets (λ s. select (λ r. r.tenant_id) s.current_tenant p s.db.employees)

abbrev pub same_employee : EmployeeRow → EmployeeRow → Bool
same_employee a b =
    a.id == b.id || (a.tenant_id == b.tenant_id && str_eq a.employee_code b.employee_code)

unfoldable pub insert_employee : EmployeeRow → Exec Session EmployeeRow
insert_employee row s =
    insert_unless
      (refused_by (not (is_visible s.current_tenant row.tenant_id))
        (some_is (same_employee row) s.db.employees) (tenant_missing row.tenant_id s))
      (record s.db { employees = s.db.employees ++ row ∷ [] }) row s

-- UPDATE … RETURNING: the updated rows, as they are now.
unfoldable pub update_employees :
    (EmployeeRow → Bool) → (EmployeeRow → EmployeeRow) → Exec Session (List EmployeeRow)
update_employees p f s = (
  ok (map f (select (λ r. r.tenant_id) s.current_tenant p s.db.employees)),
  record s {
    db = record s.db { employees = update (λ r. r.tenant_id) s.current_tenant p f s.db.employees };
  },
)

-- documents

abbrev pub select_documents : (DocumentRow → Bool) → Exec Session (List DocumentRow)
select_documents p = gets (λ s. select (λ r. r.tenant_id) s.current_tenant p s.db.documents)

abbrev pub employee_missing : Option Uuid → Session → Bool
employee_missing none s = false
employee_missing (some id) s = not (some_is (λ e. e.id == id) s.db.employees)

abbrev pub document_refusal : DocumentRow → Session → Option Exception
document_refusal row s =
    refused_by (not (is_visible s.current_tenant row.tenant_id))
      (some_is (λ d. d.id == row.id) s.db.documents)
      (tenant_missing row.tenant_id s || employee_missing row.employee_id s)

unfoldable pub insert_document : DocumentRow → Exec Session DocumentRow
insert_document row s =
    insert_unless (document_refusal row s) (record s.db { documents = s.db.documents ++ row ∷ [] })
      row s

unfoldable pub update_documents :
    (DocumentRow → Bool) → (DocumentRow → DocumentRow) → Exec Session (List DocumentRow)
update_documents p f s = (
  ok (map f (select (λ r. r.tenant_id) s.current_tenant p s.db.documents)),
  record s {
    db = record s.db { documents = update (λ r. r.tenant_id) s.current_tenant p f s.db.documents };
  },
)

abbrev pub select_expiry_policies : (ExpiryPolicyRow → Bool) → Exec Session (List ExpiryPolicyRow)
select_expiry_policies p =
    gets (λ s. select (λ r. r.tenant_id) s.current_tenant p s.db.expiry_policies)

-- audit_events

abbrev pub audit_refusal : AuditEventRow → Session → Option Exception
audit_refusal row s =
    refused_by (not (is_visible s.current_tenant row.tenant_id))
      (some_is (λ e. e.id == row.id) s.db.audit_events) (tenant_missing row.tenant_id s)

unfoldable pub insert_audit_event : AuditEventRow → Exec Session AuditEventRow
insert_audit_event row s =
    insert_unless (audit_refusal row s)
      (record s.db { audit_events = s.db.audit_events ++ row ∷ [] }) row s

-- idempotency_keys, whose primary key is the text alone, across the tenants

abbrev pub same_key : IdempotencyKey → IdempotencyKey → Bool
same_key (reminder d n) (reminder d' n') = d == d' && n == n'
same_key (import b) (import b') = b == b'
same_key _ _ = false

abbrev pub select_keys : (IdempotencyKeyRow → Bool) → Exec Session (List IdempotencyKeyRow)
select_keys p = gets (λ s. select (λ r. r.tenant_id) s.current_tenant p s.db.idempotency_keys)

unfoldable pub insert_key : IdempotencyKeyRow → Exec Session IdempotencyKeyRow
insert_key row s =
    insert_unless
      (refused_by (not (is_visible s.current_tenant row.tenant_id))
        (some_is (λ k. same_key k.key row.key) s.db.idempotency_keys) false)
      (record s.db { idempotency_keys = s.db.idempotency_keys ++ row ∷ [] }) row s

-- notification_log

abbrev pub select_log : (NotificationLogRow → Bool) → Exec Session (List NotificationLogRow)
select_log p = gets (λ s. select (λ r. r.tenant_id) s.current_tenant p s.db.notification_log)

abbrev pub document_missing : Option Uuid → Session → Bool
document_missing none s = false
document_missing (some id) s = not (some_is (λ d. d.id == id) s.db.documents)

unfoldable pub insert_log : NotificationLogRow → Exec Session NotificationLogRow
insert_log row s =
    insert_unless
      (refused_by (not (is_visible s.current_tenant row.tenant_id))
        (some_is (λ l. l.id == row.id) s.db.notification_log)
        (tenant_missing row.tenant_id s || document_missing row.document_id s))
      (record s.db { notification_log = s.db.notification_log ++ row ∷ [] }) row s

-- import_batches

abbrev pub select_batches : (ImportBatchRow → Bool) → Exec Session (List ImportBatchRow)
select_batches p = gets (λ s. select (λ r. r.tenant_id) s.current_tenant p s.db.import_batches)

abbrev pub same_batch : ImportBatchRow → ImportBatchRow → Bool
same_batch a b =
    a.import_batch_id == b.import_batch_id
    || (a.tenant_id == b.tenant_id && str_eq a.file_hash b.file_hash)

unfoldable pub insert_batch : ImportBatchRow → Exec Session ImportBatchRow
insert_batch row s =
    insert_unless
      (refused_by (not (is_visible s.current_tenant row.tenant_id))
        (some_is (same_batch row) s.db.import_batches) (tenant_missing row.tenant_id s))
      (record s.db { import_batches = s.db.import_batches ++ row ∷ [] }) row s

unfoldable pub update_batches :
    (ImportBatchRow → Bool) → (ImportBatchRow → ImportBatchRow) → Exec Session (List ImportBatchRow)
update_batches p f s = (
  ok (map f (select (λ r. r.tenant_id) s.current_tenant p s.db.import_batches)),
  record s {
    db = record s.db {
      import_batches = update (λ r. r.tenant_id) s.current_tenant p f s.db.import_batches;
    };
  },
)

-- tenant_notification_policies, unique by tenant

abbrev pub select_notification_policies :
    (NotificationPolicyRow → Bool) → Exec Session (List NotificationPolicyRow)
select_notification_policies p =
    gets (λ s. select (λ r. r.tenant_id) s.current_tenant p s.db.notification_policies)

unfoldable pub insert_notification_policy :
    NotificationPolicyRow → Exec Session NotificationPolicyRow
insert_notification_policy row s =
    insert_unless
      (refused_by (not (is_visible s.current_tenant row.tenant_id))
        (some_is (λ p. p.id == row.id || p.tenant_id == row.tenant_id) s.db.notification_policies)
        (tenant_missing row.tenant_id s))
      (record s.db { notification_policies = s.db.notification_policies ++ row ∷ [] }) row s

unfoldable pub update_notification_policies :
    (NotificationPolicyRow → Bool)
    → (NotificationPolicyRow → NotificationPolicyRow)
    → Exec Session (List NotificationPolicyRow)
update_notification_policies p f s = (
  ok (map f (select (λ r. r.tenant_id) s.current_tenant p s.db.notification_policies)),
  record s {
    db = record s.db {
      notification_policies =
          update (λ r. r.tenant_id) s.current_tenant p f s.db.notification_policies;
    };
  },
)
