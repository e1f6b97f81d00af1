-- ===== src/Access.antt =====
-- Who may call the API: the request ids (apps/api/src/common/request-id.middleware.ts), the three
-- guards in their order (apps/api/src/auth, apps/api/src/tenant, apps/api/src/rbac), the role
-- hierarchy (packages/shared/src/constants/roles.constants.ts) and the audit context of a request
-- (apps/api/src/common/audit-context.ts).
pub mod Roles
pub mod Tenant
use Prim.Native.String
use employee_compliance_saas.Common.{
  ℕ, String, Bool, true, false, not, ◌&&◌, ◌||◌, Option, none, some, List, [], ◌∷◌, map, max, ◌==◌,
  ltb, if◌then◌else◌, str_eq, or_default, some_is, keep,
}
use employee_compliance_saas.Common.Exec.{
  Exception, unauthorized, forbidden, plain_error, Result, ok, err,
}
use employee_compliance_saas.Common.Text.{is_empty, trim, after_prefix}
use employee_compliance_saas.Database.Schema.{Uuid, TenantRow, Db}
use employee_compliance_saas.Audit.{AuditContext}
use employee_compliance_saas.Reminders.{is_active}

-- A header of Node's request: absent, sent once, or sent several times.
pub data Header : Type 0 where
  absent : Header
  single : String → Header
  repeated : List String → Header

-- The claims that the program reads of a verified token.
pub record Claims : Type 0 where
  pub sub : Option String
  pub org_slug : Option String
  pub roles : Option (List String)
  pub typ : Option String

pub record Request : Type 0 where
  pub authorization : Header
  pub x_correlation_id : Header
  pub user_agent : Option String
  pub ip : Option String
  pub auth : Option Claims
  pub tenant_id : Option Uuid
  pub request_id : Option String
  pub correlation_id : Option String

-- jose's `jwtVerify` against a key set: the token, the issuer and the accepted audiences.
abbrev pub JwtVerify : Type 0
JwtVerify = String → String → String → List String → Option Claims

pub record Environment : Type 0 where
  pub keycloak_issuer : Option String
  pub keycloak_client_id : Option String
  pub keycloak_jwks_uri : Option String

-- `!text`
abbrev pub is_falsy : Option String → Bool
is_falsy none = true
is_falsy (some s) = is_empty s

abbrev pub text_of : Option String → String
text_of text = or_default text ""

-- The identifiers of a request, before every guard; `random` stands for `randomUUID()`.
unfoldable pub use_request_id : String → String → Request → Request
use_request_id random random' req = record req {
  request_id = some random;
  correlation_id = some (incoming req.x_correlation_id);
}
  where
    incoming : Header → String
    incoming (single text) = if is_empty text then random' else text
    incoming _ = random'

abbrev pub is_bearer : Option String → Bool
is_bearer none = false
is_bearer (some typ) = str_eq typ "Bearer"

abbrev pub access_claims : Option Claims → Result Claims
access_claims none = err (plain_error "jwtVerify failed")
access_claims (some claims) =
    if is_bearer claims.typ then ok claims else err (plain_error "Token is not an access token")

unfoldable pub verify_access_token : JwtVerify → Environment → String → Result Claims
verify_access_token jwt_verify env token =
    if is_falsy env.keycloak_issuer
    then err (plain_error "KEYCLOAK_ISSUER is not set")
    else if is_falsy env.keycloak_jwks_uri
    then err (plain_error "KEYCLOAK_JWKS_URI is not set")
    else access_claims (
        jwt_verify token (text_of env.keycloak_jwks_uri) (text_of env.keycloak_issuer)
          (or_default env.keycloak_client_id "e0-api" ∷ "account" ∷ []))

abbrev pub authenticated : Request → Result Claims → Result Request
authenticated req (ok claims) = ok (record req { auth = some claims })
authenticated req (err _) = err (unauthorized "Invalid or expired token")

abbrev pub bearer_token : Header → Option String
bearer_token (single header) = after_prefix "Bearer " header
bearer_token _ = none

abbrev pub auth_with : JwtVerify → Environment → Request → Option String → Result Request
auth_with jwt_verify env req none = err (unauthorized "Missing bearer token")
auth_with jwt_verify env req (some token) =
    authenticated req (verify_access_token jwt_verify env (trim token))

unfoldable pub auth_guard : JwtVerify → Environment → Request → Result Request
auth_guard jwt_verify env req = auth_with jwt_verify env req (bearer_token req.authorization)

-- `tenants` has no row-level security, so the lookup needs no tenant context.
abbrev pub is_active_slug : String → TenantRow → Bool
is_active_slug slug t = str_eq t.slug slug && is_active t.status

abbrev pub first_id : List TenantRow → Option Uuid
first_id [] = none
first_id (t ∷ _) = some t.id

unfoldable pub resolve_active_tenant_id : String → Db → Option Uuid
resolve_active_tenant_id slug db = first_id (keep (is_active_slug slug) db.tenants)

abbrev pub org_slug_of : Option Claims → Option String
org_slug_of none = none
org_slug_of (some claims) = claims.org_slug

abbrev pub in_tenant : Request → Option Uuid → Result Request
in_tenant req none = err (forbidden "Unknown or inactive tenant")
in_tenant req (some t) = ok (record req { tenant_id = some t })

abbrev pub tenant_with : Db → Request → Option String → Result Request
tenant_with db req none = err (forbidden "Missing org_slug claim")
tenant_with db req (some slug) =
    if is_empty slug
    then err (forbidden "Missing org_slug claim")
    else in_tenant req (resolve_active_tenant_id slug db)

unfoldable pub tenant_guard : Db → Request → Result Request
tenant_guard db req = tenant_with db req (org_slug_of req.auth)

pub data Role : Type 0 where
  platform_admin tenant_admin hr_manager hr_staff viewer : Role

abbrev pub role_hierarchy : Role → ℕ
role_hierarchy platform_admin = 5
role_hierarchy tenant_admin = 4
role_hierarchy hr_manager = 3
role_hierarchy hr_staff = 2
role_hierarchy viewer = 1

-- The keys that the hierarchy's object inherits from `Object.prototype`.
abbrev pub inherited_names : List String
inherited_names =
    "constructor" ∷ "__defineGetter__" ∷ "__defineSetter__" ∷ "hasOwnProperty" ∷ "__lookupGetter__"
    ∷ "__lookupSetter__" ∷ "isPrototypeOf" ∷ "propertyIsEnumerable" ∷ "toString" ∷ "valueOf"
    ∷ "toLocaleString" ∷ "__proto__" ∷ []

abbrev pub is_inherited : String → Bool
is_inherited name = some_is (str_eq name) inherited_names

-- `ROLE_HIERARCHY[name] ?? 0` where the name is not an inherited key.
abbrev pub level_of : String → ℕ
level_of name =
    if str_eq name "platform-admin"
    then 5
    else if str_eq name "tenant-admin"
    then 4
    else if str_eq name "hr-manager"
    then 3
    else if str_eq name "hr-staff"
    then 2
    else if str_eq name "viewer"
    then 1
    else 0

-- `Math.max(0, ...levels)`. An inherited key yields a function or an object, which is NaN as a number,
-- and so is then the maximum: `none`.
abbrev pub max_level : Bool → ℕ → Option ℕ → Option ℕ
max_level false n (some m) = some (if ltb n m then m else n)
max_level _ n m = none

unfoldable pub user_level : List String → Option ℕ
user_level [] = some 0
user_level (name ∷ names) = max_level (is_inherited name) (level_of name) (user_level names)

-- `Math.min(...levels)` of a list that is not empty.
unfoldable pub min_required_level : Role → List Role → ℕ
min_required_level role [] = role_hierarchy role
min_required_level role (next ∷ rest) =
    let m = min_required_level next rest in
    if ltb (role_hierarchy role) m then role_hierarchy role else m

-- Every comparison with NaN is false.
abbrev pub is_insufficient : Option ℕ → ℕ → Bool
is_insufficient none required = false
is_insufficient (some level) required = level == 0 || ltb level required

abbrev pub roles_of : Option Claims → List String
roles_of none = []
roles_of (some claims) = or_default claims.roles []

unfoldable pub can_activate : List Role → Request → Result Request
can_activate [] req = ok req
can_activate (role ∷ roles) req =
    if is_insufficient (user_level (roles_of req.auth)) (min_required_level role roles)
    then err (forbidden "Insufficient role")
    else ok req

abbrev pub and_then : {A B : Type 0} → Result A → (A → Result B) → Result B
and_then (ok a) f = f a
and_then (err e) f = err e

-- `@UseGuards(AuthGuard, TenantMiddleware, RbacGuard)` with `@Roles(...)`.
unfoldable pub use_guards : JwtVerify → Environment → Db → List Role → Request → Result Request
use_guards jwt_verify env db required req =
    and_then (auth_guard jwt_verify env req)
      λ a. and_then (tenant_guard db a) λ b. can_activate required b

abbrev pub sub_of : Option Claims → Option String
sub_of none = none
sub_of (some claims) = claims.sub

abbrev pub context_with : Request → Option Uuid → Option String → Result AuditContext
context_with req (some tenant) (some sub) =
    if is_empty sub
    then err (forbidden "Missing tenant or actor context")
    else ok (record {
      tenant_id = tenant;
      actor_user_id = sub;
      actor_ip = req.ip;
      actor_user_agent = req.user_agent;
      request_id = req.request_id;
      correlation_id = req.correlation_id;
    })
context_with req _ _ = err (forbidden "Missing tenant or actor context")

unfoldable pub build_audit_context : Request → Result AuditContext
build_audit_context req = context_with req req.tenant_id (sub_of req.auth)
