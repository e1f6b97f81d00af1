-- ===== src/Listing/Order.antt =====
-- `ORDER BY` of a numeric column, as Postgres documents it: the rows come in the order of the column, and
-- rows with one value in any order.
use employee_compliance_saas.Common.{
  ℕ, ◌≤◌, ◌≡◌, refl, sym, ap, ◌∙◌, Bool, false, List, [], ◌∷◌, leb, ◌==◌, if◌then◌else◌, some_is,
  All, arith, length, suc,
}
use employee_compliance_saas.Database.Keys.{Unique}

-- The same rows in another order.
pub data Reordered {A : Type 0} : List A → List A → Type 0 where
  none_left : Reordered [] []
  next : (x : A) {xs ys : List A} → Reordered xs ys → Reordered (x ∷ xs) (x ∷ ys)
  swapped : (x y : A) (xs : List A) → Reordered (x ∷ y ∷ xs) (y ∷ x ∷ xs)
  again : {xs ys zs : List A} → Reordered xs ys → Reordered ys zs → Reordered xs zs

some_is-Reordered :
    {A : Type 0} (p : A → Bool) {xs ys : List A} → Reordered xs ys → some_is p xs ≡ some_is p ys
some_is-Reordered p none_left = refl
some_is-Reordered p (next x r) = ground (arith, some_is-Reordered p r)
some_is-Reordered p (swapped x y xs) = ground arith
some_is-Reordered p (again r s) = some_is-Reordered p r ∙ some_is-Reordered p s

module _ {A : Type 0} (key : A → ℕ) where
  abbrev pub IsSorted : List A → Type 0
  IsSorted [] = Unit
  IsSorted (x ∷ xs) = All (λ y. key x ≤ key y) xs × IsSorted xs

  -- What one query may return of some rows.
  pub record IsOrderOf (rows ordered : List A) : Type 0 where
    pub same : Reordered rows ordered
    pub sorted : IsSorted ordered

  abbrev pub insert : A → List A → List A
  insert a [] = a ∷ []
  insert a (x ∷ xs) = let rest = insert a xs in if leb (key a) (key x) then a ∷ x ∷ xs else x ∷ rest

  -- The rows by their keys.
  abbrev pub sort : List A → List A
  sort [] = []
  sort (x ∷ xs) = insert x (sort xs)

  -- One key.
  abbrev pub is_tied : A → A → Bool
  is_tied a b = key a == key b

  insert-least : (x : A) (xs : List A) → All (λ y. key x ≤ key y) xs → insert x xs ≡ x ∷ xs
  insert-least x [] h = refl
  insert-least x (y ∷ ys) (p, h) = ground (arith, p)

  sort-IsSorted : (xs : List A) → IsSorted xs → sort xs ≡ xs
  sort-IsSorted [] h = refl
  sort-IsSorted (x ∷ xs) (p, h) = ap (insert x) (sort-IsSorted xs h) ∙ insert-least x xs p

  insert-insert :
      (a b : A) (xs : List A)
      → is_tied a b ≡ false
      → insert a (insert b xs) ≡ insert b (insert a xs)
  insert-insert a b [] h = ground (arith, h)
  insert-insert a b (x ∷ xs) h = ground (arith, h, insert-insert a b xs h)

  length-insert : (a : A) (xs : List A) → length (insert a xs) ≡ suc (length xs)
  length-insert a [] = refl
  length-insert a (x ∷ xs) = ground (arith, length-insert a xs)

  pub length-sort : (xs : List A) → length (sort xs) ≡ length xs
  length-sort [] = refl
  length-sort (x ∷ xs) = length-insert x (sort xs) ∙ ap suc (length-sort xs)

  Unique-Reordered : {xs ys : List A} → Reordered xs ys → Unique is_tied xs → Unique is_tied ys
  Unique-Reordered none_left u = u
  Unique-Reordered (next x r) (k, u) =
      (sym (some_is-Reordered (λ y. is_tied y x) r) ∙ k, Unique-Reordered r u)
  Unique-Reordered (swapped x y xs) (k, (l, u)) = (ground (arith, k, l), (ground (arith, k), u))
  Unique-Reordered (again r s) u = Unique-Reordered s (Unique-Reordered r u)

  sort-Reordered : {xs ys : List A} → Reordered xs ys → Unique is_tied xs → sort xs ≡ sort ys
  sort-Reordered none_left u = refl
  sort-Reordered (next x r) (k, u) = ap (insert x) (sort-Reordered r u)
  sort-Reordered (swapped x y xs) (k, (l, u)) = insert-insert x y (sort xs) (ground (arith, k))
  sort-Reordered (again r s) u = sort-Reordered r u ∙ sort-Reordered s (Unique-Reordered r u)

  -- Where no two rows have one key, the order is determined.
  pub ordered_lem :
      (rows ordered : List A) → Unique is_tied rows → IsOrderOf rows ordered → ordered ≡ sort rows
  ordered_lem rows ordered u o =
      sym (sort-IsSorted ordered o.sorted) ∙ sym (sort-Reordered o.same u)
