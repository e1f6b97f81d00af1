-- ===== src/Documents.antt =====
-- apps/api/src/documents/documents.service.ts: each method is one transaction.
pub mod Isolation
pub mod Update
pub mod Soundness
pub mod Outcomes
use Prim.Native.String
use mathlib.Core.Option
use employee_compliance_saas.Common.{
  ℕ, ◌+◌, String, Bool, true, false, not, ◌&&◌, ◌||◌, Option, none, some, List, [], ◌∷◌, ◌==◌,
  if◌then◌else◌, is_none, or_default, or_else,
}
use employee_compliance_saas.Common.Exec.{
  Exception, bad_request, not_found, conflict, Result, ok, err, Exec, pure, throw, gets, ◌>>=◌,
  ◌>>◌,
}
use employee_compliance_saas.Common.Text.{is_empty}
use employee_compliance_saas.Database.Schema.{
  Uuid, Instant, EmployeeRow, DocumentType, DocumentRow, ExpiryStatus, ExpiryPolicy,
  ExpiryPolicyRow, same_status, same_type, Db, State, AuditAction, document_created,
  document_updated, document_archived, expiry_status_changed, success,
}
use employee_compliance_saas.Database.Record.{
  document_state, expiry_status_state, expiry_status_text,
}
use employee_compliance_saas.Database.Session.{
  Postgres, Session, transaction, set_tenant_context, fresh_uuid, now_of, first_or,
  select_employees, select_expiry_policies, select_documents, insert_document, update_documents,
}
use employee_compliance_saas.Audit.{AuditContext, Entry, log}
use employee_compliance_saas.Employees.{is_live}
use employee_compliance_saas.Expiry.{calculate_status}

pub record CreateDocumentDto : Type 0 where
  pub doc_type : DocumentType
  pub doc_number : String
  pub issue_date : Option String
  pub expiry_date : Option String

-- The two statuses that a user may set.
pub data ManualStatus : Type 0 where
  renewal_in_progress exception : ManualStatus

abbrev pub to_status : ManualStatus → ExpiryStatus
to_status ManualStatus.renewal_in_progress = ExpiryStatus.renewal_in_progress
to_status ManualStatus.exception = ExpiryStatus.exception

pub record UpdateDocumentDto : Type 0 where
  pub doc_number : Option String
  pub issue_date : Option String
  pub expiry_date : Option String
  pub expiry_status : Option ManualStatus
  pub exception_reason : Option String
  pub version : ℕ

abbrev pub default_policy : ExpiryPolicy
default_policy = record {
  warning_days_1 = 90;
  warning_days_2 = 60;
  warning_days_3 = 30;
  critical_days = 14;
  grace_period_days = 0;
  auto_block = false;
}

abbrev pub policy_or_default : List ExpiryPolicyRow → ExpiryPolicy
policy_or_default [] = default_policy
policy_or_default (row ∷ _) = row.policy

abbrev pub load_policy : Uuid → DocumentType → Exec Session ExpiryPolicy
load_policy tenant type = do
  rows ← select_expiry_policies (λ p. p.tenant_id == tenant && same_type p.doc_type type)
  pure (policy_or_default rows)

abbrev pub is_live_document : Uuid → DocumentRow → Bool
is_live_document id d = d.id == id && is_none d.deleted_at

-- `!dto.exceptionReason`
abbrev pub is_falsy : Option String → Bool
is_falsy none = true
is_falsy (some s) = is_empty s

abbrev pub is_exception : Option ManualStatus → Bool
is_exception (some ManualStatus.exception) = true
is_exception _ = false

abbrev pub is_renewal : Option ManualStatus → Bool
is_renewal (some ManualStatus.renewal_in_progress) = true
is_renewal _ = false

abbrev pub new_document :
    Uuid → Instant → Uuid → Uuid → CreateDocumentDto → ExpiryStatus → DocumentRow
new_document id now tenant employee dto status = record {
  id = id;
  tenant_id = tenant;
  employee_id = some employee;
  doc_type = dto.doc_type;
  doc_number = dto.doc_number;
  issue_date = dto.issue_date;
  expiry_date = dto.expiry_date;
  status = "valid";
  expiry_status = status;
  version = 1;
  renewal_started_at = none;
  exception_reason = none;
  created_at = now;
  deleted_at = none;
}

-- The SET clause of `update`, from the row that was read and the status that was worked out.
abbrev pub set_document :
    DocumentRow → UpdateDocumentDto → ExpiryStatus → Instant → DocumentRow → DocumentRow
set_document before dto status now d = record d {
  doc_number = or_default dto.doc_number before.doc_number;
  issue_date = or_else dto.issue_date before.issue_date;
  expiry_date = or_else dto.expiry_date before.expiry_date;
  expiry_status = status;
  exception_reason =
      if is_exception dto.expiry_status then dto.exception_reason else before.exception_reason;
  renewal_started_at = if is_renewal dto.expiry_status then some now else before.renewal_started_at;
  version = before.version + 1;
}

abbrev pub set_deleted : Instant → DocumentRow → DocumentRow
set_deleted now d = record d { deleted_at = some now }

-- The reason that the trail keeps of a manual override.
abbrev pub override_reason : UpdateDocumentDto → Option ManualStatus → Option String
override_reason dto none = none
override_reason dto (some manual) = some (
    or_default dto.exception_reason
      (String.◌++◌ "manual override: " (expiry_status_text (to_status manual))))

abbrev pub entry : AuditContext → AuditAction → Uuid → Option State → State → Option String → Entry
entry context action id before after reason = record {
  context = context;
  action = action;
  entity_type = "document";
  entity_id = some id;
  before_state = before;
  after_state = some after;
  outcome = success;
  reason = reason;
}

module _ (pg : Postgres) (tenant : Uuid) where
  create_in : Uuid → CreateDocumentDto → AuditContext → Exec Session DocumentRow
  create_in employee dto context = do
    employee_rows ← select_employees (is_live employee)
    first_or (not_found "Employee not found") employee_rows
    policy ← load_policy tenant dto.doc_type
    now ← now_of
    id ← fresh_uuid pg
    created ← insert_document (
        new_document id now tenant employee dto
          (calculate_status dto.expiry_date policy ExpiryStatus.valid now))
    log pg (entry context document_created created.id none (document_state created) none)
    pure created

  -- The override, or else the engine's status under the tenant's policy.
  next_status : DocumentRow → UpdateDocumentDto → Option ManualStatus → Exec Session ExpiryStatus
  next_status before dto (some manual) = pure (to_status manual)
  next_status before dto none = do
    policy ← load_policy tenant before.doc_type
    now ← now_of
    pure (
        calculate_status (or_else dto.expiry_date before.expiry_date) policy before.expiry_status
          now)

  pub log_status_change : AuditContext → Uuid → DocumentRow → DocumentRow → Exec Session (Unit {0})
  log_status_change context id before after =
      if same_status before.expiry_status after.expiry_status
      then pure tt
      else log pg (
          entry context expiry_status_changed id (some (expiry_status_state before.expiry_status))
            (expiry_status_state after.expiry_status) none)

  update_in : Uuid → UpdateDocumentDto → AuditContext → Exec Session DocumentRow
  update_in id dto context = do
    existing ← select_documents (is_live_document id)
    before ← first_or (not_found "Document not found") existing
    status ← next_status before dto dto.expiry_status
    now ← now_of
    updated ←
        update_documents (λ d. (d.id == id && d.version == dto.version) && is_none d.deleted_at)
          (set_document before dto status now)
    after ←
        first_or (conflict "Document was modified by another request" "version_mismatch") updated
    log pg (
        entry context document_updated id (some (document_state before)) (document_state after)
          (override_reason dto dto.expiry_status))
    log_status_change context id before after
    pure after

  archive_in : Uuid → AuditContext → Exec Session (Uuid × Option Instant)
  archive_in id context = do
    existing ← select_documents (is_live_document id)
    before ← first_or (not_found "Document not found") existing
    now ← now_of
    updated ← update_documents (is_live_document id) (set_deleted now)
    after ← first_or (not_found "Document not found") updated
    log pg (
        entry context document_archived id (some (document_state before)) (document_state after)
          none)
    pure (after.id, after.deleted_at)

  unfoldable pub create : Instant → Uuid → CreateDocumentDto → AuditContext → Exec Db DocumentRow
  unfolding create_in
  create now employee dto context =
      transaction now (set_tenant_context tenant >> create_in employee dto context)

  -- An exception without a reason is refused before the transaction.
  unfoldable pub update : Instant → Uuid → UpdateDocumentDto → AuditContext → Exec Db DocumentRow
  unfolding update_in next_status log_status_change
  update now id dto context =
      if is_exception dto.expiry_status && is_falsy dto.exception_reason
      then throw (bad_request "exceptionReason is required when expiryStatus is EXCEPTION")
      else transaction now (set_tenant_context tenant >> update_in id dto context)

  unfoldable pub archive : Instant → Uuid → AuditContext → Exec Db (Uuid × Option Instant)
  unfolding archive_in
  archive now id context = transaction now (set_tenant_context tenant >> archive_in id context)
