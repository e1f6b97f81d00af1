-- ===== src/Api/BelowStaff.antt =====
-- A request of someone below hr-staff only reads.
use employee_compliance_saas.Common.{
  ◌≡◌, refl, ap, ◌∙◌, Bool, true, false, ◌||◌, ℕ, if◌then◌else◌, leb, arith, Option, none, some,
  List, [], ◌∷◌, some_is, String,
}
use employee_compliance_saas.Common.Exec.{forbidden, Result, ok, err}
use employee_compliance_saas.Database.Schema.{Uuid, Db}
use employee_compliance_saas.Access.{
  Request, Claims, JwtVerify, Environment, Role, hr_staff, hr_manager, tenant_admin, roles_of,
  is_inherited, auth_guard, role_hierarchy, level_of, can_activate, tenant_guard, and_then,
  use_request_id, use_guards, org_slug_of,
}
use employee_compliance_saas.Access.Roles.{is_reached, can_activate_lem}
use employee_compliance_saas.Access.Tenant.{tenant_with_ok}
use employee_compliance_saas.Imports.Upload.{Uploads}
use employee_compliance_saas.Api.Controllers.{Server}
use employee_compliance_saas.Api.Reads.{
  kept, get_employee-Stays, list_employees-Stays, list_documents-Stays, documents_of_employee-Stays,
  dashboard_summary-Stays, dashboard_document_stats-Stays, dashboard_expiring-Stays,
  get_policy-Stays, notification_stats-Stays, get_import_batch-Stays, download_employees-Stays,
}
use employee_compliance_saas.Api.Routes.{
  Call, post_employee, get_employees, get_one_employee, patch_employee, delete_employee,
  get_documents, patch_document, delete_document, post_document, get_employee_documents,
  get_summary, get_document_stats, get_expiring, get_notification_policy, patch_notification_policy,
  get_notification_stats, post_import, get_import, get_export, required_roles, handle, Identifiers,
  handle_in, handle_admitted, admitted, serve,
}

-- Reading routes, and the roles of the others.
data Kind (server : Server) (call : Call) : Type 0 where
  reading :
      ((t : Uuid) (req : Request) (u : Uploads) → (handle server t req call u).1 ≡ u)
      → Kind server call
  writing :
      (role : Role)
      → required_roles call ≡ role ∷ []
      → leb 2 (role_hierarchy role) ≡ true
      → Kind server call

kind : (server : Server) (call : Call) → Kind server call
unfolding handle required_roles
kind server (post_employee body) = writing hr_staff refl refl
kind server (get_employees query) =
    reading (λ t req u. kept u _ (list_employees-Stays server t req query))
kind server (get_one_employee params) =
    reading (λ t req u. kept u _ (get_employee-Stays server t req params))
kind server (patch_employee params body) = writing hr_staff refl refl
kind server (delete_employee params) = writing hr_manager refl refl
kind server (get_documents query) =
    reading (λ t req u. kept u _ (list_documents-Stays server t req query))
kind server (patch_document params body) = writing hr_staff refl refl
kind server (delete_document params) = writing hr_manager refl refl
kind server (post_document params body) = writing hr_staff refl refl
kind server (get_employee_documents params) =
    reading (λ t req u. kept u _ (documents_of_employee-Stays server t req params))
kind server get_summary = reading (λ t req u. kept u _ (dashboard_summary-Stays server t req))
kind server get_document_stats =
    reading (λ t req u. kept u _ (dashboard_document_stats-Stays server t req))
kind server (get_expiring query) =
    reading (λ t req u. kept u _ (dashboard_expiring-Stays server t req query))
kind server get_notification_policy = reading (λ t req u. kept u _ (get_policy-Stays server t req))
kind server (patch_notification_policy body) = writing tenant_admin refl refl
kind server (get_notification_stats query) =
    reading (λ t req u. kept u _ (notification_stats-Stays server t req query))
kind server (post_import file) = writing hr_staff refl refl
kind server (get_import params) =
    reading (λ t req u. kept u _ (get_import_batch-Stays server t req params))
kind server get_export = reading (λ t req u. kept u _ (download_employees-Stays server t req))

-- The token of a request that `auth_guard` admits has a role that is hr-staff or higher, or one whose
-- name the role guard does not count.
abbrev pub is_staff : Option Claims → Bool
is_staff auth = some_is is_inherited (roles_of auth) || is_reached (hr_staff ∷ []) (roles_of auth)

too_low : (high level : ℕ) → leb 2 high ≡ true → leb 2 level ≡ false → leb high level ≡ false
too_low high level h k = ground arith

-- One test of a list, and the tests of the rest.
first_false :
    (b c : Bool)
    → (if (if b then true else false) then true else c) ≡ false
    → (b ≡ false) × (c ≡ false)
first_false b c h = ground arith

none_true :
    (b c : Bool) → b ≡ false → c ≡ false → (if (if b then true else false) then true else c) ≡ false
none_true b c h k = ground arith

reaches_more :
    (role : Role) (names : List String)
    → leb 2 (role_hierarchy role) ≡ true
    → is_reached (hr_staff ∷ []) names ≡ false
    → is_reached (role ∷ []) names ≡ false
reaches_more role [] h k = refl
reaches_more role (name ∷ names) h k =
    let (low, rest) = first_false (leb 2 (level_of name)) (is_reached (hr_staff ∷ []) names) k in
    none_true (leb (role_hierarchy role) (level_of name)) (is_reached (role ∷ []) names)
      (too_low (role_hierarchy role) (level_of name) h low) (reaches_more role names h rest)

not_reached :
    (role : Role) (req : Request)
    → leb 2 (role_hierarchy role) ≡ true
    → is_staff req.auth ≡ false
    → can_activate (role ∷ []) req ≡ err (forbidden "Insufficient role")
not_reached role req h k =
    can_activate_lem (role ∷ []) req ∙ ground (arith, reaches_more role (roles_of req.auth) h)

tenant_guard-auth : (db : Db) (a b : Request) → tenant_guard db a ≡ ok b → b.auth ≡ a.auth
unfolding tenant_guard
tenant_guard-auth db a b h =
    let (slug, es, id, ei, same) = tenant_with_ok db a b (org_slug_of a.auth) h in
    ap (λ (r : Request). r.auth) same

-- Whether a chain of guards has refused a request.
abbrev Refuses : Result Request → Type 0
Refuses (ok a) = ⊥
Refuses (err e) = Unit

module _ (db : Db) (role : Role) (high : leb 2 (role_hierarchy role) ≡ true) where
  role-Refuses : (b : Request) → is_staff b.auth ≡ false → Refuses (can_activate (role ∷ []) b)
  role-Refuses b below = rw (not_reached role b high below) tt

  tenant-Refuses :
      (a : Request)
      → is_staff a.auth ≡ false
      → Refuses (and_then (tenant_guard db a) (can_activate (role ∷ [])))
  tenant-Refuses a below = go (tenant_guard db a) refl
    where
      go :
          (r : Result Request)
          → tenant_guard db a ≡ r
          → Refuses (and_then r (can_activate (role ∷ [])))
      go (ok b) h = role-Refuses b (ap is_staff (tenant_guard-auth db a b h) ∙ below)
      go (err e) h = tt

  guards_refuse :
      (jwt_verify : JwtVerify) (env : Environment) (req : Request)
      → ((a : Request) → auth_guard jwt_verify env req ≡ ok a → is_staff a.auth ≡ false)
      → Refuses (use_guards jwt_verify env db (role ∷ []) req)
  unfolding use_guards
  guards_refuse jwt_verify env req below = go (auth_guard jwt_verify env req) refl
    where
      go :
          (r : Result Request)
          → auth_guard jwt_verify env req ≡ r
          → Refuses (and_then r λ a. and_then (tenant_guard db a) (can_activate (role ∷ [])))
      go (ok a) h = tenant-Refuses a (below a h)
      go (err e) h = tt

module _ (jwt_verify : JwtVerify) (env : Environment) (server : Server) (ids : Identifiers)
    (req : Request) (call : Call) (u : Uploads) where
  -- A request whose token holds no role that is hr-staff or higher, and no role named like a key that
  -- objects inherit, changes nothing: neither the database nor the queue of completion jobs, whatever
  -- route, parameters and body it has.
  pub below_staff_reads :
      ((a : Request)
        → auth_guard jwt_verify env (use_request_id ids.request_id ids.correlation_id req) ≡ ok a
        → is_staff a.auth ≡ false)
      → (serve jwt_verify env server ids req call u).1 ≡ u
  unfolding serve
  below_staff_reads below = by_kind (kind server call)
    where
      in_handler :
          ((t : Uuid) (a : Request) (u : Uploads) → (handle server t a call u).1 ≡ u)
          → (a : Request) (t : Option Uuid) → (handle_in jwt_verify env server a call t u).1 ≡ u
      in_handler same a none = refl
      in_handler same a (some t) = same t a u

      by_result :
          ((t : Uuid) (a : Request) (u : Uploads) → (handle server t a call u).1 ≡ u)
          → (r : Result Request) → (handle_admitted jwt_verify env server call r u).1 ≡ u
      by_result same (ok a) = in_handler same a a.tenant_id
      by_result same (err e) = refl

      refused :
          (r : Result Request) → Refuses r → (handle_admitted jwt_verify env server call r u).1 ≡ u
      refused (ok a) h = absurd h
      refused (err e) h = refl

      by_kind :
          Kind server call
          → (handle_admitted jwt_verify env server call
              (admitted jwt_verify env server ids req call u)
              u).1
            ≡ u
      by_kind (reading same) = by_result same (admitted jwt_verify env server ids req call u)
      by_kind (writing role is high) = refused (admitted jwt_verify env server ids req call u) (
          rw is (
            guards_refuse u.db role high jwt_verify env
              (use_request_id ids.request_id ids.correlation_id req) below))
