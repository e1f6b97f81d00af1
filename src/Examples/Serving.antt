-- ===== src/Examples/Serving.antt =====
-- The theorems on the guards, the error filter, the probes and the lists, at concrete data.
use employee_compliance_saas.Common.{
  ℕ, ◌≡◌, refl, none, some, List, [], ◌∷◌, ◌&&◌, ◌||◌, if◌then◌else◌, some_is, str_eq, arith,
}
use employee_compliance_saas.Common.Exec.{ok, err, forbidden}
use employee_compliance_saas.Access.{
  Request, single, absent, Claims, JwtVerify, Environment, hr_manager, roles_of, is_inherited,
  can_activate, use_guards, auth_guard, verify_access_token, tenant_guard, resolve_active_tenant_id,
  user_level, min_required_level,
}
use employee_compliance_saas.Access.Roles.{is_none_required, is_reached, can_activate_lem}
use employee_compliance_saas.Access.Tenant.{IsVerified, use_guards-IsVerified}
use employee_compliance_saas.Common.Text.{trim}
use employee_compliance_saas.Filter.{other, catch, catch_hides}
use employee_compliance_saas.Health.{settles, readiness, answers, answers_pong, readiness_lem}
use employee_compliance_saas.Listing.{EmployeeSearchParams}
use employee_compliance_saas.Listing.Pages.{first_pages, employee_page, employee_pages_cover}
use employee_compliance_saas.Database.Schema.{EmployeeRow, Db}
use employee_compliance_saas.Listing.Order.{swapped, sort}
use employee_compliance_saas.Examples.{pg, db, noon, ann, bob}

abbrev pub manager_claims : Claims
manager_claims = record {
  sub = some "u-1";
  org_slug = some "acme";
  roles = some ("hr-manager" ∷ []);
  typ = some "Bearer";
}

-- One token is good.
abbrev pub jwt_verify : JwtVerify
jwt_verify =
    λ token key_set issuer audiences. if str_eq token "good" then some manager_claims else none

abbrev pub env : Environment
env = record {
  keycloak_issuer = some "https://id.test";
  keycloak_client_id = none;
  keycloak_jwks_uri = some "https://id.test/jwks";
}

abbrev pub request : Request
request = record {
  authorization = single "Bearer good";
  x_correlation_id = absent;
  user_agent = none;
  ip = none;
  auth = none;
  tenant_id = none;
  request_id = none;
  correlation_id = none;
}

abbrev admitted : Request
admitted = record request { auth = some manager_claims; tenant_id = some 1 }

can_activate_lem_example : can_activate (hr_manager ∷ []) admitted ≡ (
    if is_none_required (hr_manager ∷ [])
      || some_is is_inherited (roles_of admitted.auth)
      || is_reached (hr_manager ∷ []) (roles_of admitted.auth)
    then ok admitted
    else err (forbidden "Insufficient role"))
can_activate_lem_example = can_activate_lem (hr_manager ∷ []) admitted

passes : use_guards jwt_verify env db (hr_manager ∷ []) request ≡ ok admitted
unfolding use_guards auth_guard verify_access_token trim tenant_guard resolve_active_tenant_id
    can_activate user_level min_required_level
passes = refl

use_guards-IsVerified_example : IsVerified jwt_verify env db admitted
use_guards-IsVerified_example =
    use_guards-IsVerified jwt_verify env db (hr_manager ∷ []) request admitted passes

catch_hides_example :
    catch (other "relation employees does not exist") (some "r-1") "t"
    ≡ catch (other "timeout") (some "r-1") "t"
catch_hides_example =
    catch_hides (other "relation employees does not exist") (other "timeout") (some "r-1") "t" tt

readiness_lem_example :
    (readiness (settles 3 (some tt)) (settles 1 (some "PONG"))).http_status
    ≡ (if answers (settles 3 (some tt)) && answers_pong (settles 1 (some "PONG")) then 200 else 503)
readiness_lem_example = readiness_lem (settles 3 (some tt)) (settles 1 (some "PONG"))

abbrev all_employees : EmployeeSearchParams
all_employees = record {
  q = none;
  department = none;
  branch = none;
  status = none;
  page = none;
  limit = some 1;
}

-- Two employees of the first tenant, the later one first.
abbrev cai : EmployeeRow
cai = record ann { id = 12; employee_code = "E2"; created_at = 5 }

abbrev staff : Db
staff = record db { employees = cai ∷ ann ∷ bob ∷ [] }

abbrev by_creation : ℕ → List EmployeeRow → List EmployeeRow
by_creation k rows = sort (λ (e : EmployeeRow). e.created_at) rows

employee_pages_cover_example :
    first_pages (employee_page pg by_creation 1 all_employees noon staff) 2 ≡ ann ∷ cai ∷ []
employee_pages_cover_example =
    employee_pages_cover pg by_creation 1 all_employees noon staff 2 (refl, (refl, tt))
      (λ k. record { same = swapped cai ann []; sorted = ((omega arith, tt), (tt, tt)) })
      (omega arith)
