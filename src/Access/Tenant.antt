-- ===== src/Access/Tenant.antt =====
-- The tenant of a request comes from its verified token.
use employee_compliance_saas.Common.{
  ◌≡◌, refl, ap, sym, ◌∙◌, String, Bool, true, ◌&&◌, Option, none, some, List, [], ◌∷◌, arith, ◌==◌,
  keep, some_is, Bool-cases, inl, inr,
}
use employee_compliance_saas.Common.Exec.{Result, ok, err}
use employee_compliance_saas.Common.Text.{trim}
use employee_compliance_saas.Database.Schema.{Uuid, TenantRow, Db}
use employee_compliance_saas.Access.{
  Request, Claims, JwtVerify, Environment, Role, verify_access_token, authenticated, bearer_token,
  auth_with, auth_guard, is_active_slug, first_id, org_slug_of, resolve_active_tenant_id, in_tenant,
  tenant_with, tenant_guard, is_insufficient, user_level, roles_of, min_required_level,
  can_activate, and_then, use_guards,
}

and_then_ok :
    {A B : Type 0} (r : Result A) (f : A → Result B) (b : B)
    → and_then r f ≡ ok b
    → (a : A) × (r ≡ ok a) × (f a ≡ ok b)
and_then_ok (ok a) f b h = (a, refl, h)
and_then_ok (err e) f b h = cc

authenticated_ok :
    (req a : Request) (r : Result Claims)
    → authenticated req r ≡ ok a
    → (claims : Claims) × (r ≡ ok claims) × (a ≡ record req { auth = some claims })
authenticated_ok req a (ok claims) h = (claims, refl, cc)
authenticated_ok req a (err e) h = cc

auth_with_ok :
    (jwt_verify : JwtVerify) (env : Environment) (req a : Request) (token : Option String)
    → auth_with jwt_verify env req token ≡ ok a
    → (token : String) × (claims : Claims) × (verify_access_token jwt_verify env token ≡ ok claims)
      × (a ≡ record req { auth = some claims })
auth_with_ok jwt_verify env req a none h = cc
auth_with_ok jwt_verify env req a (some token) h =
    let (claims, e, c) =
      authenticated_ok req a (verify_access_token jwt_verify env (trim token)) h in
    (trim token, claims, e, c)

in_tenant_ok :
    (a b : Request) (found : Option Uuid)
    → in_tenant a found ≡ ok b
    → (id : Uuid) × (found ≡ some id) × (b ≡ record a { tenant_id = some id })
in_tenant_ok a b none h = cc
in_tenant_ok a b (some id) h = (id, refl, cc)

pub tenant_with_ok :
    (db : Db) (a b : Request) (slug : Option String)
    → tenant_with db a slug ≡ ok b
    → (text : String) × (slug ≡ some text)
      × (id : Uuid) × (resolve_active_tenant_id text db ≡ some id)
      × (b ≡ record a { tenant_id = some id })
tenant_with_ok db a b none h = cc
tenant_with_ok db a b (some String.[]) h = cc
tenant_with_ok db a b (some (String.◌∷◌ c s)) h =
    let (id, e, d) = in_tenant_ok a b (resolve_active_tenant_id (String.◌∷◌ c s) db) h in
    (String.◌∷◌ c s, refl, id, e, d)

-- The tenants hold an active one with this id and slug.
abbrev pub is_active_tenant_of : String → Uuid → Db → Bool
is_active_tenant_of slug id db = some_is (λ t. t.id == id && is_active_slug slug t) db.tenants

resolve_ok :
    (slug : String) (id : Uuid) (ts : List TenantRow)
    → first_id (keep (is_active_slug slug) ts) ≡ some id
    → some_is (λ t. t.id == id && is_active_slug slug t) ts ≡ true
resolve_ok slug id [] h = cc
resolve_ok slug id (t ∷ ts) h = elim (Bool-cases (is_active_slug slug t)) [
  | inl e ↦ ground (arith, e, h)
  | inr e ↦ ground (arith, e, h, resolve_ok slug id ts)
]

can_activate_ok : (required : List Role) (b c : Request) → can_activate required b ≡ ok c → b ≡ c
unfolding can_activate
can_activate_ok [] b c h = cc
can_activate_ok (role ∷ roles) b c h =
    elim (Bool-cases
      (is_insufficient (user_level (roles_of b.auth)) (min_required_level role roles))) [
        | inl e ↦ absurd (ground (arith, e, h))
        | inr e ↦ ground (arith, e, h)
      ]

-- What the guards promise of a request that they let through: its claims are those of a token that
-- `verifyAccessToken` accepted, the claims carry a slug, and the request's tenant is an active tenant
-- of that slug.
pub record IsVerified (jwt_verify : JwtVerify) (env : Environment) (db : Db) (admitted : Request)
    : Type 0 where
  pub token : String
  pub claims : Claims
  pub slug : String
  pub id : Uuid
  pub verified : verify_access_token jwt_verify env token ≡ ok claims
  pub carries_claims : admitted.auth ≡ some claims
  pub carries_slug : claims.org_slug ≡ some slug
  pub carries_tenant : admitted.tenant_id ≡ some id
  pub tenant : is_active_tenant_of slug id db ≡ true

-- A request that passes the three guards has claims that `verifyAccessToken` accepted for some token,
-- and its tenant is one that is active and whose slug is the claims' `org_slug`: nothing else of the
-- request can choose the tenant.
pub use_guards-IsVerified :
    (jwt_verify : JwtVerify) (env : Environment) (db : Db) (required : List Role)
    (req admitted : Request)
    → use_guards jwt_verify env db required req ≡ ok admitted
    → IsVerified jwt_verify env db admitted
unfolding use_guards auth_guard tenant_guard resolve_active_tenant_id
use_guards-IsVerified jwt_verify env db required req admitted h =
    let (a, ea, ha) =
      and_then_ok (auth_guard jwt_verify env req)
        (λ a. and_then (tenant_guard db a) (can_activate required)) admitted h in
    let (token, claims, verified, ca) =
      auth_with_ok jwt_verify env req a (bearer_token req.authorization) ea in
    let (b, eb, hb) = and_then_ok (tenant_guard db a) (can_activate required) admitted ha in
    let (slug, es, id, ei, cb) = tenant_with_ok db a b (org_slug_of a.auth) eb in
    let eq : b ≡ admitted = can_activate_ok required b admitted hb in
    record {
      token = token;
      claims = claims;
      slug = slug;
      id = id;
      verified = verified;
      carries_claims = ap (λ (r : Request). r.auth) (sym eq ∙ cb) ∙ ap (λ (r : Request). r.auth) ca;
      carries_slug = sym (ap (λ (r : Request). org_slug_of r.auth) ca) ∙ es;
      carries_tenant = ap (λ (r : Request). r.tenant_id) (sym eq ∙ cb);
      tenant = resolve_ok slug id db.tenants ei;
    }
