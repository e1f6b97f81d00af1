-- ===== src/Access/Roles.antt =====
-- The role guard against a direct reading of the hierarchy.
use employee_compliance_saas.Common.{
  ℕ, ◌≡◌, refl, ◌∙◌, String, Bool, true, false, not, ◌||◌, Option, none, some, List, [], ◌∷◌, arith,
  leb, if◌then◌else◌, some_is,
}
use employee_compliance_saas.Common.Exec.{forbidden, Result, ok, err}
use employee_compliance_saas.Access.{
  Request, Role, platform_admin, tenant_admin, hr_manager, hr_staff, viewer, role_hierarchy,
  is_inherited, level_of, max_level, user_level, min_required_level, is_insufficient, roles_of,
  can_activate,
}

abbrev pub is_none_required : List Role → Bool
is_none_required [] = true
is_none_required (_ ∷ _) = false

-- One of the required roles is at most this level.
abbrev pub is_at_level : List Role → ℕ → Bool
is_at_level required level = some_is (λ role. leb (role_hierarchy role) level) required

-- One of the user's roles reaches one of the required ones.
abbrev pub is_reached : List Role → List String → Bool
is_reached required names = some_is (λ name. is_at_level required (level_of name)) names

role_hierarchy-pos : (role : Role) → leb (role_hierarchy role) 0 ≡ false
role_hierarchy-pos platform_admin = refl
role_hierarchy-pos tenant_admin = refl
role_hierarchy-pos hr_manager = refl
role_hierarchy-pos hr_staff = refl
role_hierarchy-pos viewer = refl

min_required_level_lem :
    (role : Role) (roles : List Role) (level : ℕ)
    → leb (min_required_level role roles) level ≡ is_at_level (role ∷ roles) level
unfolding min_required_level
min_required_level_lem role [] level = ground arith
min_required_level_lem role (next ∷ rest) level =
    ground (arith, min_required_level_lem next rest level)

min_required_level-pos :
    (role : Role) (roles : List Role) → leb (min_required_level role roles) 0 ≡ false
unfolding min_required_level
min_required_level-pos role [] = role_hierarchy-pos role
min_required_level-pos role (next ∷ rest) =
    ground (arith, min_required_level-pos next rest, role_hierarchy-pos role)

max_level_lem :
    (b : Bool) (n : ℕ) (level : Option ℕ) (m : ℕ)
    → leb m 0 ≡ false
    → is_insufficient (max_level b n level) m ≡ not (b || leb m n || not (is_insufficient level m))
max_level_lem true n none m h = refl
max_level_lem true n (some k) m h = refl
max_level_lem false n none m h = ground arith
max_level_lem false n (some k) m h = ground arith

user_level_lem :
    (names : List String) (m : ℕ)
    → leb m 0 ≡ false
    → is_insufficient (user_level names) m
      ≡ not (some_is is_inherited names || some_is (λ name. leb m (level_of name)) names)
unfolding user_level
user_level_lem [] m h = ground arith
user_level_lem (name ∷ names) m h =
    max_level_lem (is_inherited name) (level_of name) (user_level names) m h
    ∙ go (is_inherited name) (leb m (level_of name)) _ _ _ (user_level_lem names m h)
  where
    go :
        (b c d x y : Bool)
        → d ≡ not (x || y)
        → not (b || c || not d) ≡ not ((if b then true else x) || (if c then true else y))
    go b c d x y h = ground arith

some_is-congr :
    {A : Type 0} (p q : A → Bool) (xs : List A)
    → ((x : A) → p x ≡ q x)
    → some_is p xs ≡ some_is q xs
some_is-congr p q [] h = refl
some_is-congr p q (x ∷ xs) h = ground (arith, h x, some_is-congr p q xs h)

-- The role guard lets a request through exactly if its route requires no role, or the token has a
-- role whose name the hierarchy's object inherits from `Object.prototype`, or one of the token's
-- roles is at least as high in the hierarchy as one of the required roles; otherwise it throws the
-- forbidden exception. It never changes the request.
pub can_activate_lem :
    (required : List Role) (req : Request)
    → can_activate required req ≡ (
        if is_none_required required
          || some_is is_inherited (roles_of req.auth)
          || is_reached required (roles_of req.auth)
        then ok req
        else err (forbidden "Insufficient role"))
unfolding can_activate
can_activate_lem [] req = refl
can_activate_lem (role ∷ roles) req =
    rw
      (
        user_level_lem (roles_of req.auth) (min_required_level role roles)
            (min_required_level-pos role roles),
        some_is-congr (λ name. leb (min_required_level role roles) (level_of name))
            (λ name. is_at_level (role ∷ roles) (level_of name)) (roles_of req.auth)
            (λ name. min_required_level_lem role roles (level_of name)),
      )
      (go
        (some_is is_inherited (roles_of req.auth) || is_reached (role ∷ roles) (roles_of req.auth)))
  where
    go :
        (b : Bool)
        → ◌≡◌ {A = Result Request}
            (if not b then err (forbidden "Insufficient role") else ok req)
            (if b then ok req else err (forbidden "Insufficient role"))
    go true = refl
    go false = refl
