-- ===== src/Documents/Isolation.antt =====
-- Tenant isolation of the document service.
use employee_compliance_saas.Common.{◌≡◌, refl, Option, none, some, ◌&&◌, Bool-cases, inl, inr}
use employee_compliance_saas.Common.Exec.Keeps.{Keeps}
use employee_compliance_saas.Database.Schema.{Uuid, Instant, Db, DocumentRow}
use employee_compliance_saas.Database.Session.{Postgres}
use employee_compliance_saas.Database.Isolation.{others, InTenant, tenant_rules, others-transaction}
use employee_compliance_saas.Audit.{AuditContext}
use employee_compliance_saas.Audit.Write.{log-InTenant}
use employee_compliance_saas.Documents.{
  CreateDocumentDto, UpdateDocumentDto, ManualStatus, is_exception, is_falsy, next_status,
  log_status_change, create_in, update_in, archive_in, create, update, archive,
}

ruleset document_rules = (tenant_rules, log-InTenant)

module _ (pg : Postgres) (t : Uuid) {o : Db} (context : AuditContext)
    (own : context.tenant_id ≡ t) where
  create_in-InTenant :
      (employee : Uuid) (dto : CreateDocumentDto)
      → Keeps (InTenant t o) (create_in pg t employee dto context)
  unfolding create_in
  create_in-InTenant employee dto = search document_rules depth 14

  next_status-InTenant :
      (before : DocumentRow) (dto : UpdateDocumentDto) (m : Option ManualStatus)
      → Keeps (InTenant t o) (next_status pg t before dto m)
  unfolding next_status
  next_status-InTenant before dto none = search document_rules depth 12
  next_status-InTenant before dto (some m) = search document_rules depth 12

  log_status_change-InTenant :
      (id : Uuid) (before after : DocumentRow)
      → Keeps (InTenant t o) (log_status_change pg t context id before after)
  unfolding log_status_change
  log_status_change-InTenant id before after = search document_rules depth 12

  update_in-InTenant :
      (id : Uuid) (dto : UpdateDocumentDto) → Keeps (InTenant t o) (update_in pg t id dto context)
  unfolding update_in
  update_in-InTenant id dto =
      search (document_rules, next_status-InTenant, log_status_change-InTenant) depth 14

  archive_in-InTenant : (id : Uuid) → Keeps (InTenant t o) (archive_in pg t id context)
  unfolding archive_in
  archive_in-InTenant id = search document_rules depth 12

module _ (pg : Postgres) (t : Uuid) (now : Instant) (context : AuditContext)
    (own : context.tenant_id ≡ t) where
  pub others-create :
      (employee : Uuid) (dto : CreateDocumentDto) (db : Db)
      → others t (create pg t now employee dto context db).1 ≡ others t db
  unfolding create
  others-create employee dto db =
      others-transaction t now (create_in pg t employee dto context) db
        (create_in-InTenant pg t context own employee dto)

  pub others-update :
      (id : Uuid) (dto : UpdateDocumentDto) (db : Db)
      → others t (update pg t now id dto context db).1 ≡ others t db
  unfolding update
  others-update id dto db =
      elim (Bool-cases (is_exception dto.expiry_status && is_falsy dto.exception_reason)) [
        | inl e ↦ rw e refl
        | inr e ↦ rw e (
            others-transaction t now (update_in pg t id dto context) db
              (update_in-InTenant pg t context own id dto))
      ]

  pub others-archive :
      (id : Uuid) (db : Db) → others t (archive pg t now id context db).1 ≡ others t db
  unfolding archive
  others-archive id db =
      others-transaction t now (archive_in pg t id context) db
        (archive_in-InTenant pg t context own id)

  -- Creating, updating or archiving a document in the tenant's name changes no row of another tenant
  -- in any table, whether or not the call throws. The condition: the audit context names the tenant.
  documents_isolated :
      (id : Uuid) (new_dto : CreateDocumentDto) (dto : UpdateDocumentDto) (db : Db)
      → (others t (create pg t now id new_dto context db).1 ≡ others t db)
        × (others t (update pg t now id dto context db).1 ≡ others t db)
        × (others t (archive pg t now id context db).1 ≡ others t db)
  documents_isolated id new_dto dto db =
      (others-create id new_dto db, others-update id dto db, others-archive id db)
