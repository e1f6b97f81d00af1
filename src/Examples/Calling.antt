-- ===== src/Examples/Calling.antt =====
-- The theorems on requests and their schemas, at concrete calls.
use employee_compliance_saas.Common.{
  ◌+◌, ◌*◌, ◌≡◌, ap, ◌≤◌, sym, ◌⊎◌, true, false, none, some, [], ◌∷◌, if◌then◌else◌, str_eq, Option,
}
use employee_compliance_saas.Common.Exec.{Result, ok, err}
use employee_compliance_saas.Common.Int.{ℤ, pos}
use employee_compliance_saas.Common.Text.{trim}
use employee_compliance_saas.Access.{
  Request, Claims, JwtVerify, auth_guard, verify_access_token, use_request_id,
}
use employee_compliance_saas.Access.Tenant.{IsVerified}
use employee_compliance_saas.Database.Isolation.{others}
use employee_compliance_saas.Imports.Upload.{Uploads}
use employee_compliance_saas.Api.Wire.{Value, text, object, integer, property, end, Zod}
use employee_compliance_saas.Api.Schemas.{
  search_schema, list_schema, expiring_schema, stats_query_schema, update_employee_schema,
  update_document_schema, update_notification_policy_schema,
}
use employee_compliance_saas.Api.Controllers.{Server}
use employee_compliance_saas.Api.Routes.{Call, delete_employee, patch_employee, Identifiers, serve}
use employee_compliance_saas.Api.Served.{request_isolated}
use employee_compliance_saas.Api.BelowStaff.{is_staff, below_staff_reads}
use employee_compliance_saas.Api.Yields.{Yields, IsWithin, AreDays}
use employee_compliance_saas.Api.Bounds.{IsPaged, IsExpiringPage, schemas-Yields}
use employee_compliance_saas.Examples.{db, noon}
use employee_compliance_saas.Examples.Serving.{manager_claims, jwt_verify, env, request}
use employee_compliance_saas.Examples.Uploading.{out}

abbrev coerce_integer : Value → Option ℤ
coerce_integer (integer n) = some n
coerce_integer _ = none

abbrev zod : Zod
zod = record {
  uuid = λ s. if str_eq s "ann" then some 10 else none;
  is_email = λ s. true;
  is_date = λ s. true;
  coerce_integer = coerce_integer;
  flatten = λ problems. "";
}

abbrev server : Server
server = record {
  out = out;
  zod = zod;
  order_employees = λ rows. rows;
  order_documents = λ rows. rows;
  add_days = λ instant days. instant + days * 86400000;
  write_buffer = λ sheet. "";
  clock = noon;
  second_clock = noon;
  now = noon;
}

abbrev ids : Identifiers
ids = record { request_id = "r-1"; correlation_id = "00000000-0000-0000-0000-000000000007" }

abbrev uploads : Uploads
uploads = record { db = db; queue = [] }

abbrev ann_path : Value
ann_path = object (property "id" (text "ann") end)

abbrev archive_ann : Call
archive_ann = delete_employee ann_path

request_isolated_example :
    ((serve jwt_verify env server ids request archive_ann uploads).1 ≡ uploads)
    ⊎ ((a : Request) × (v : IsVerified jwt_verify env db a) × (others v.id
            (serve jwt_verify env server ids request archive_ann uploads).1.db
          ≡ others v.id db))
request_isolated_example = request_isolated jwt_verify env server ids request archive_ann uploads

abbrev viewer_claims : Claims
viewer_claims = record manager_claims { roles = some ("viewer" ∷ []) }

abbrev viewer_verify : JwtVerify
viewer_verify =
    λ token key_set issuer audiences. if str_eq token "good" then some viewer_claims else none

abbrev claims_of : Result Request → Option Claims
claims_of (ok a) = a.auth
claims_of (err e) = none

viewer_only :
    (a : Request)
    → auth_guard viewer_verify env (use_request_id ids.request_id ids.correlation_id request) ≡ ok a
    → is_staff a.auth ≡ false
unfolding auth_guard verify_access_token trim use_request_id
viewer_only a h = ap (λ r. is_staff (claims_of r)) (sym h)

abbrev rename_ann : Call
rename_ann =
    patch_employee ann_path
      (object (property "firstName" (text "Anna") (property "version" (integer (pos 3)) end)))

below_staff_reads_example :
    (serve viewer_verify env server ids request rename_ann uploads).1 ≡ uploads
below_staff_reads_example =
    below_staff_reads viewer_verify env server ids request rename_ann uploads viewer_only

abbrev second_page : Value
second_page = object (
    property "page" (integer (pos 2))
      (property "limit" (integer (pos 500)) (property "version" (integer (pos 3)) end)))

schemas-Yields_example :
    Yields IsPaged (search_schema zod second_page)
    × Yields IsPaged (list_schema zod second_page)
    × Yields IsExpiringPage (expiring_schema zod second_page)
    × Yields (IsWithin 1 (some 720)) (stats_query_schema zod second_page)
    × Yields (λ dto. 1 ≤ dto.version) (update_employee_schema zod second_page)
    × Yields (λ dto. 1 ≤ dto.version) (update_document_schema zod second_page)
    × Yields
        (λ dto. AreDays dto.reminder_days_before)
        (update_notification_policy_schema zod second_page)
schemas-Yields_example = schemas-Yields zod second_page
