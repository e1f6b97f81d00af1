-- ===== src/Api/Routes.antt =====
-- The routes of apps/api/src with their guards, and the status of an answer.
use employee_compliance_saas.Common.{ℕ, String, Option, none, some, List, [], ◌∷◌}
use employee_compliance_saas.Common.Exec.{
  Exception, bad_request, unauthorized, forbidden, not_found, conflict, plain_error, pg_error,
  Result, ok, err, Exec, throw,
}
use employee_compliance_saas.Database.Schema.{Uuid}
use employee_compliance_saas.Access.{
  Request, JwtVerify, Environment, Role, tenant_admin, hr_manager, hr_staff, viewer, use_request_id,
  use_guards,
}
use employee_compliance_saas.Imports.Upload.{Uploads}
use employee_compliance_saas.Api.Wire.{Value}
use employee_compliance_saas.Api.Controllers.{
  UploadedFile, Server, Answer, create_employee, list_employees, get_employee, update_employee,
  archive_employee, list_documents, update_document, archive_document, create_document,
  documents_of_employee, dashboard_summary, dashboard_document_stats, dashboard_expiring,
  get_policy, change_policy, notification_stats, upload_employees, get_import_batch,
  download_employees,
}

-- A route with what the request carries for it: parameters, query or body.
pub data Call : Type 0 where
  post_employee : Value → Call
  get_employees : Value → Call
  get_one_employee : Value → Call
  patch_employee : Value → Value → Call
  delete_employee : Value → Call
  get_documents : Value → Call
  patch_document : Value → Value → Call
  delete_document : Value → Call
  post_document : Value → Value → Call
  get_employee_documents : Value → Call
  get_summary : Call
  get_document_stats : Call
  get_expiring : Value → Call
  get_notification_policy : Call
  patch_notification_policy : Value → Call
  get_notification_stats : Value → Call
  post_import : Option UploadedFile → Call
  get_import : Value → Call
  get_export : Call

-- `@Roles(…)`
unfoldable pub required_roles : Call → List Role
required_roles (post_employee _) = hr_staff ∷ []
required_roles (get_employees _) = viewer ∷ []
required_roles (get_one_employee _) = viewer ∷ []
required_roles (patch_employee _ _) = hr_staff ∷ []
required_roles (delete_employee _) = hr_manager ∷ []
required_roles (get_documents _) = viewer ∷ []
required_roles (patch_document _ _) = hr_staff ∷ []
required_roles (delete_document _) = hr_manager ∷ []
required_roles (post_document _ _) = hr_staff ∷ []
required_roles (get_employee_documents _) = viewer ∷ []
required_roles get_summary = viewer ∷ []
required_roles get_document_stats = viewer ∷ []
required_roles (get_expiring _) = viewer ∷ []
required_roles get_notification_policy = tenant_admin ∷ []
required_roles (patch_notification_policy _) = tenant_admin ∷ []
required_roles (get_notification_stats _) = tenant_admin ∷ []
required_roles (post_import _) = hr_staff ∷ []
required_roles (get_import _) = hr_staff ∷ []
required_roles get_export = hr_manager ∷ []

unfoldable pub handle : Server → Uuid → Request → Call → Exec Uploads Answer
handle server t req (post_employee body) = create_employee server t req body
handle server t req (get_employees query) = list_employees server t req query
handle server t req (get_one_employee params) = get_employee server t req params
handle server t req (patch_employee params body) = update_employee server t req params body
handle server t req (delete_employee params) = archive_employee server t req params
handle server t req (get_documents query) = list_documents server t req query
handle server t req (patch_document params body) = update_document server t req params body
handle server t req (delete_document params) = archive_document server t req params
handle server t req (post_document params body) = create_document server t req params body
handle server t req (get_employee_documents params) = documents_of_employee server t req params
handle server t req get_summary = dashboard_summary server t req
handle server t req get_document_stats = dashboard_document_stats server t req
handle server t req (get_expiring query) = dashboard_expiring server t req query
handle server t req get_notification_policy = get_policy server t req
handle server t req (patch_notification_policy body) = change_policy server t req body
handle server t req (get_notification_stats query) = notification_stats server t req query
handle server t req (post_import file) = upload_employees server t req file
handle server t req (get_import params) = get_import_batch server t req params
handle server t req get_export = download_employees server t req

-- The identifiers that the middleware gives to a request.
pub record Identifiers : Type 0 where
  pub request_id : String
  pub correlation_id : String

module _ (jwt_verify : JwtVerify) (env : Environment) (server : Server) where
  -- `req.tenantId as string`: the guards have set it (Access.Tenant).
  abbrev pub handle_in : Request → Call → Option Uuid → Exec Uploads Answer
  handle_in req call none = throw (plain_error "tenantId is undefined")
  handle_in req call (some t) = handle server t req call

  abbrev pub handle_admitted : Call → Result Request → Exec Uploads Answer
  handle_admitted call (ok req) = handle_in req call req.tenant_id
  handle_admitted call (err e) = throw e

  abbrev pub admitted : Identifiers → Request → Call → Uploads → Result Request
  admitted ids req call uploads =
      use_guards jwt_verify env uploads.db (required_roles call)
        (use_request_id ids.request_id ids.correlation_id req)

  -- One request: the middleware, the guards, and the handler.
  unfoldable pub serve : Identifiers → Request → Call → Exec Uploads Answer
  serve ids req call uploads = handle_admitted call (admitted ids req call uploads) uploads

-- The status of an answer: 201 of a POST, and 200 of the others.
abbrev pub success_status : Call → ℕ
success_status (post_employee _) = 201
success_status (post_document _ _) = 201
success_status (post_import _) = 201
success_status _ = 200

abbrev pub error_status : Exception → ℕ
error_status (bad_request _) = 400
error_status (unauthorized _) = 401
error_status (forbidden _) = 403
error_status (not_found _) = 404
error_status (conflict _ _) = 409
error_status (plain_error _) = 500
error_status (pg_error _) = 500

abbrev pub status_of : Call → Result Answer → ℕ
status_of call (ok _) = success_status call
status_of call (err e) = error_status e
