-- ===== src/Api/Writes.antt =====
-- The handlers that write change no row of another tenant.
use employee_compliance_saas.Common.{◌≡◌, refl, ◌∙◌, String, Option, none, some}
use employee_compliance_saas.Common.Exec.{Result, ok, err, Exec, ◌>>=◌}
use employee_compliance_saas.Common.Exec.Keeps.{Keeps, keeps_rules}
use employee_compliance_saas.Database.Schema.{Uuid, Db}
use employee_compliance_saas.Database.Isolation.{others}
use employee_compliance_saas.Access.{Request, context_with, sub_of, build_audit_context}
use employee_compliance_saas.Audit.{AuditContext}
use employee_compliance_saas.Employees.{CreateEmployeeDto, UpdateEmployeeDto}
use employee_compliance_saas.Documents.{CreateDocumentDto, UpdateDocumentDto}
use employee_compliance_saas.Notifications.{UpdateNotificationPolicyDto, update_policy}
use employee_compliance_saas.Notifications.Isolation.{others-update_policy}
use employee_compliance_saas.Imports.Upload.{Uploads, in_db, import_employees}
use employee_compliance_saas.Imports.Upload.Isolation.{
  UploadsApart, in_db-UploadsApart, import_employees-UploadsApart,
}
use employee_compliance_saas.Api.Wire.{Value}
use employee_compliance_saas.Api.Controllers.{
  UploadedFile, Server, attempt, create_employee, update_employee, archive_employee,
  create_document, update_document, archive_document, change_policy, upload_employees,
}
use employee_compliance_saas.Employees
use employee_compliance_saas.Documents

context_with-tenant :
    (req : Request) (t : Uuid) (sub : Option String) (c : AuditContext)
    → context_with req (some t) sub ≡ ok c
    → c.tenant_id ≡ t
context_with-tenant req t none c h = cc
context_with-tenant req t (some String.[]) c h = cc
context_with-tenant req t (some (String.◌∷◌ x s)) c h = cc

-- The audit context of a request names the request's tenant.
context-tenant :
    (req : Request) (t : Uuid) (c : AuditContext)
    → req.tenant_id ≡ some t
    → build_audit_context req ≡ ok c
    → c.tenant_id ≡ t
unfolding build_audit_context
context-tenant req t c e h = context_with-tenant req t (sub_of req.auth) c (rw e at h)

module _ {t : Uuid} {o : Db} where
  apart-call :
      {A : Type 0} (call : Exec Db A)
      → ((db : Db) → others t (call db).1 ≡ others t db)
      → Keeps (UploadsApart t o) (in_db call)
  apart-call call same =
      in_db-UploadsApart call (record { at = λ db h. record { unchanged = same db ∙ h.unchanged } })

  attempt-Apart : {A : Type 0} (r : Result A) → Keeps (UploadsApart t o) (attempt r)
  attempt-Apart (ok a) = record { at = λ u h. h }
  attempt-Apart (err e) = record { at = λ u h. h }

  -- Only a context that names the tenant reaches a service.
  with_context-Apart :
      {A : Type 0} (req : Request) (next : AuditContext → Exec Uploads A)
      → req.tenant_id ≡ some t
      → ((c : AuditContext) → c.tenant_id ≡ t → Keeps (UploadsApart t o) (next c))
      → Keeps (UploadsApart t o) (attempt (build_audit_context req) >>= next)
  with_context-Apart req next e rest = go (build_audit_context req) refl
    where
      go :
          (r : Result AuditContext)
          → build_audit_context req ≡ r
          → Keeps (UploadsApart t o) (attempt r >>= next)
      go (ok c) b = record { at = λ u h. (rest c (context-tenant req t c e b)).at u h }
      go (err x) b = record { at = λ u h. h }

-- The services, called in the name of the tenant.
module _ (server : Server) (t : Uuid) {o : Db} (c : AuditContext) (own : c.tenant_id ≡ t) where
  create-Apart :
      (dto : CreateEmployeeDto)
      → Keeps (UploadsApart t o) (in_db (Employees.create server.out.pg t server.now dto c))
  create-Apart dto =
      apart-call (Employees.create server.out.pg t server.now dto c)
        (Employees.Isolation.others-create server.out.pg t server.now c own dto)

  update-Apart :
      (id : Uuid) (dto : UpdateEmployeeDto)
      → Keeps (UploadsApart t o) (in_db (Employees.update server.out.pg t server.now id dto c))
  update-Apart id dto =
      apart-call (Employees.update server.out.pg t server.now id dto c)
        (Employees.Isolation.others-update server.out.pg t server.now c own id dto)

  archive-Apart :
      (id : Uuid)
      → Keeps (UploadsApart t o) (in_db (Employees.archive server.out.pg t server.now id c))
  archive-Apart id =
      apart-call (Employees.archive server.out.pg t server.now id c)
        (Employees.Isolation.others-archive server.out.pg t server.now c own id)

  create_document-call :
      (employee : Uuid) (dto : CreateDocumentDto)
      → Keeps
          (UploadsApart t o)
          (in_db (Documents.create server.out.pg t server.now employee dto c))
  create_document-call employee dto =
      apart-call (Documents.create server.out.pg t server.now employee dto c)
        (Documents.Isolation.others-create server.out.pg t server.now c own employee dto)

  update_document-call :
      (id : Uuid) (dto : UpdateDocumentDto)
      → Keeps (UploadsApart t o) (in_db (Documents.update server.out.pg t server.now id dto c))
  update_document-call id dto =
      apart-call (Documents.update server.out.pg t server.now id dto c)
        (Documents.Isolation.others-update server.out.pg t server.now c own id dto)

  archive_document-call :
      (id : Uuid)
      → Keeps (UploadsApart t o) (in_db (Documents.archive server.out.pg t server.now id c))
  archive_document-call id =
      apart-call (Documents.archive server.out.pg t server.now id c)
        (Documents.Isolation.others-archive server.out.pg t server.now c own id)

  update_policy-Apart :
      (dto : UpdateNotificationPolicyDto)
      → Keeps
          (UploadsApart t o)
          (in_db (update_policy server.out.pg t server.clock dto c server.now))
  update_policy-Apart dto =
      apart-call (update_policy server.out.pg t server.clock dto c server.now)
        (others-update_policy server.out.pg t server.clock dto c own server.now)

  import-Apart :
      (actor file : String)
      → Keeps (UploadsApart t o) (import_employees server.out t server.now c actor file)
  import-Apart actor file = import_employees-UploadsApart server.out t server.now c actor own file

ruleset write_rules = (
  keeps_rules, attempt-Apart, with_context-Apart, create-Apart, update-Apart, archive-Apart,
  create_document-call, update_document-call, archive_document-call, update_policy-Apart,
  import-Apart,
)

module _ (server : Server) (t : Uuid) (req : Request) (own : req.tenant_id ≡ some t) {o : Db} where
  pub create_employee-Apart :
      (body : Value) → Keeps (UploadsApart t o) (create_employee server t req body)
  unfolding create_employee
  create_employee-Apart body = search write_rules depth 12

  pub update_employee-Apart :
      (params body : Value) → Keeps (UploadsApart t o) (update_employee server t req params body)
  unfolding update_employee
  update_employee-Apart params body = search write_rules depth 14

  pub archive_employee-Apart :
      (params : Value) → Keeps (UploadsApart t o) (archive_employee server t req params)
  unfolding archive_employee
  archive_employee-Apart params = search write_rules depth 14

  pub create_document-Apart :
      (params body : Value) → Keeps (UploadsApart t o) (create_document server t req params body)
  unfolding create_document
  create_document-Apart params body = search write_rules depth 14

  pub update_document-Apart :
      (params body : Value) → Keeps (UploadsApart t o) (update_document server t req params body)
  unfolding update_document
  update_document-Apart params body = search write_rules depth 14

  pub archive_document-Apart :
      (params : Value) → Keeps (UploadsApart t o) (archive_document server t req params)
  unfolding archive_document
  archive_document-Apart params = search write_rules depth 14

  pub change_policy-Apart :
      (body : Value) → Keeps (UploadsApart t o) (change_policy server t req body)
  unfolding change_policy
  change_policy-Apart body = search write_rules depth 14

  pub upload_employees-Apart :
      (file : Option UploadedFile) → Keeps (UploadsApart t o) (upload_employees server t req file)
  unfolding upload_employees
  upload_employees-Apart none = search write_rules depth 12
  upload_employees-Apart (some file) = search write_rules depth 14
