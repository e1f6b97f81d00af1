-- ===== src/Database/Table.antt =====
-- One table under row-level security: what a statement of a tenant's session reads and writes, and
-- what it leaves alone. The policy is that of packages/database/migrations/003_rls.sql.
use employee_compliance_saas.Common.{
  ◌≡◌, refl, Bool, false, not, ◌&&◌, Option, none, some, List, [], ◌∷◌, ◌++◌, map, arith, ◌==◌,
  if◌then◌else◌, keep,
}
use employee_compliance_saas.Database.Schema.{Uuid}

-- The `USING` clause: with no tenant in the session, no row is visible.
abbrev pub is_visible : Option Uuid → Uuid → Bool
is_visible none tenant = false
is_visible (some current) tenant = tenant == current

module _ {Row : Type 0} (tenant : Row → Uuid) where
  abbrev pub select : Option Uuid → (Row → Bool) → List Row → List Row
  select current p rows = keep (λ r. is_visible current (tenant r) && p r) rows

  -- A row that the policy hides is not updated.
  abbrev pub set_row : Option Uuid → (Row → Bool) → (Row → Row) → Row → Row
  set_row current p f r = if is_visible current (tenant r) && p r then f r else r

  abbrev pub update : Option Uuid → (Row → Bool) → (Row → Row) → List Row → List Row
  update current p f rows = map (set_row current p f) rows

  -- The rows of the other tenants.
  abbrev pub outside : Uuid → List Row → List Row
  outside t rows = keep (λ r. not (tenant r == t)) rows

  pub outside-append :
      (t : Uuid) (rows : List Row) (r : Row)
      → tenant r ≡ t
      → outside t (rows ++ r ∷ []) ≡ outside t rows
  outside-append t [] r h = ground arith
  outside-append t (x ∷ rows) r h = ground (arith, outside-append t rows r h)

  pub outside-update :
      (t : Uuid) (p : Row → Bool) (f : Row → Row) (rows : List Row)
      → ((r : Row) → tenant (f r) ≡ tenant r)
      → outside t (update (some t) p f rows) ≡ outside t rows
  outside-update t p f [] h = refl
  outside-update t p f (x ∷ rows) h = ground (arith, outside-update t p f rows h, h x)
