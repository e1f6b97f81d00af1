-- ===== src/Api/Served.antt =====
-- What one request may do to the state of the platform.
use employee_compliance_saas.Common.{◌≡◌, refl, ap, ◌∙◌, ◌⊎◌, inl, inr, some}
use employee_compliance_saas.Common.Exec.{Result, ok, err}
use employee_compliance_saas.Common.Exec.Keeps.{Keeps}
use employee_compliance_saas.Database.Schema.{Uuid}
use employee_compliance_saas.Database.Isolation.{others}
use employee_compliance_saas.Access.{Request, JwtVerify, Environment, use_request_id}
use employee_compliance_saas.Access.Tenant.{IsVerified, use_guards-IsVerified}
use employee_compliance_saas.Imports.Upload.{Uploads}
use employee_compliance_saas.Imports.Upload.Isolation.{UploadsApart}
use employee_compliance_saas.Api.Controllers.{Server}
use employee_compliance_saas.Api.Reads.{
  Stays, kept, get_employee-Stays, list_employees-Stays, list_documents-Stays,
  documents_of_employee-Stays, dashboard_summary-Stays, dashboard_document_stats-Stays,
  dashboard_expiring-Stays, get_policy-Stays, notification_stats-Stays, get_import_batch-Stays,
  download_employees-Stays,
}
use employee_compliance_saas.Api.Writes.{
  create_employee-Apart, update_employee-Apart, archive_employee-Apart, create_document-Apart,
  update_document-Apart, archive_document-Apart, change_policy-Apart, upload_employees-Apart,
}
use employee_compliance_saas.Api.Routes.{
  Call, post_employee, get_employees, get_one_employee, patch_employee, delete_employee,
  get_documents, patch_document, delete_document, post_document, get_employee_documents,
  get_summary, get_document_stats, get_expiring, get_notification_policy, patch_notification_policy,
  get_notification_stats, post_import, get_import, get_export, required_roles, handle, Identifiers,
  handle_in, handle_admitted, admitted, serve,
}

module _ (server : Server) (t : Uuid) (req : Request) (u : Uploads) where
  apart :
      {A : Type 0} (call : Uploads → Result A × Uploads)
      → Keeps (UploadsApart t (others t u.db)) call
      → others t (call u).1.db ≡ others t u.db
  apart call k = (k.at u (record { inside = record { unchanged = refl } })).inside.unchanged

  kept-apart :
      {A : Type 0} (call : Uploads → Result A × Uploads)
      → Keeps (Stays u) call
      → others t (call u).1.db ≡ others t u.db
  kept-apart call k = ap (λ v. others t v.db) (kept u call k)

  others-handle :
      (call : Call)
      → req.tenant_id ≡ some t
      → others t (handle server t req call u).1.db ≡ others t u.db
  unfolding handle
  others-handle (post_employee body) own = apart _ (create_employee-Apart server t req own body)
  others-handle (get_employees query) own = kept-apart _ (list_employees-Stays server t req query)
  others-handle (get_one_employee params) own =
      kept-apart _ (get_employee-Stays server t req params)
  others-handle (patch_employee params body) own =
      apart _ (update_employee-Apart server t req own params body)
  others-handle (delete_employee params) own =
      apart _ (archive_employee-Apart server t req own params)
  others-handle (get_documents query) own = kept-apart _ (list_documents-Stays server t req query)
  others-handle (patch_document params body) own =
      apart _ (update_document-Apart server t req own params body)
  others-handle (delete_document params) own =
      apart _ (archive_document-Apart server t req own params)
  others-handle (post_document params body) own =
      apart _ (create_document-Apart server t req own params body)
  others-handle (get_employee_documents params) own =
      kept-apart _ (documents_of_employee-Stays server t req params)
  others-handle get_summary own = kept-apart _ (dashboard_summary-Stays server t req)
  others-handle get_document_stats own = kept-apart _ (dashboard_document_stats-Stays server t req)
  others-handle (get_expiring query) own =
      kept-apart _ (dashboard_expiring-Stays server t req query)
  others-handle get_notification_policy own = kept-apart _ (get_policy-Stays server t req)
  others-handle (patch_notification_policy body) own =
      apart _ (change_policy-Apart server t req own body)
  others-handle (get_notification_stats query) own =
      kept-apart _ (notification_stats-Stays server t req query)
  others-handle (post_import file) own = apart _ (upload_employees-Apart server t req own file)
  others-handle (get_import params) own = kept-apart _ (get_import_batch-Stays server t req params)
  others-handle get_export own = kept-apart _ (download_employees-Stays server t req)

others-admitted :
    (jwt_verify : JwtVerify) (env : Environment) (server : Server) (t : Uuid) (req : Request)
    (u : Uploads) (call : Call)
    → req.tenant_id ≡ some t
    → others t (handle_in jwt_verify env server req call req.tenant_id u).1.db ≡ others t u.db
others-admitted jwt_verify env server t req u call own =
    ap (λ o. others t (handle_in jwt_verify env server req call o u).1.db) own
    ∙ others-handle server t req u call own

module _ (jwt_verify : JwtVerify) (env : Environment) (server : Server) (ids : Identifiers)
    (req : Request) (call : Call) (u : Uploads) where
  -- One request changes nothing at all, or it was admitted with the claims of a token that
  -- `verifyAccessToken` accepted, and it changed no row of a tenant other than the active one that
  -- these claims name; whatever route, parameters and body it has, and whether or not it throws.
  pub request_isolated :
      ((serve jwt_verify env server ids req call u).1 ≡ u)
      ⊎ ((a : Request) × (v : IsVerified jwt_verify env u.db a) × (others v.id
              (serve jwt_verify env server ids req call u).1.db
            ≡ others v.id u.db))
  unfolding serve
  request_isolated = go (admitted jwt_verify env server ids req call u) refl
    where
      go :
          (r : Result Request)
          → admitted jwt_verify env server ids req call u ≡ r
          → ((handle_admitted jwt_verify env server call r u).1 ≡ u)
            ⊎ ((a : Request) × (v : IsVerified jwt_verify env u.db a) × (others v.id
                    (handle_admitted jwt_verify env server call r u).1.db
                  ≡ others v.id u.db))
      go (err e) h = inl refl
      go (ok a) h =
          let v =
            use_guards-IsVerified jwt_verify env u.db (required_roles call)
              (use_request_id ids.request_id ids.correlation_id req) a h in
          inr (a, v, others-admitted jwt_verify env server v.id a u call v.carries_tenant)
