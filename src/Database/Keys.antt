-- ===== src/Database/Keys.antt =====
-- Tables with a unique key, and the one row that an id names.
use employee_compliance_saas.Common.{
  ◌≡◌, refl, ◌∙◌, Bool, true, false, ◌&&◌, none, some, List, [], ◌∷◌, ◌++◌, map, head?, arith, keep,
  some_is, ◌⊎◌, inl, inr, Bool-cases,
}

module _ {A : Type 0} (same : A → A → Bool) where
  -- No row has the key of an earlier one.
  abbrev pub Unique : List A → Type 0
  Unique [] = Unit
  Unique (x ∷ xs) = (some_is (λ y. same y x) xs ≡ false) × Unique xs

  some_is-append :
      (p : A → Bool) (xs : List A) (y : A)
      → some_is p xs ≡ false
      → p y ≡ false
      → some_is p (xs ++ y ∷ []) ≡ false
  some_is-append p [] y h k = ground arith
  some_is-append p (x ∷ xs) y h k = ground (arith, some_is-append p xs y)

  pub Unique-append :
      (xs : List A) (y : A) → some_is (same y) xs ≡ false → Unique xs → Unique (xs ++ y ∷ [])
  Unique-append [] y h u = (refl, tt)
  Unique-append (x ∷ xs) y h (k, u) =
      (some_is-append (λ z. same z x) xs y k (ground arith), Unique-append xs y (ground arith) u)

  some_is-map :
      (f : A → A) (x : A) (xs : List A)
      → ((y z : A) → same (f y) (f z) ≡ same y z)
      → some_is (λ y. same y (f x)) (map f xs) ≡ some_is (λ y. same y x) xs
  some_is-map f x [] h = refl
  some_is-map f x (y ∷ xs) h = ground (arith, h y x, some_is-map f x xs h)

  pub Unique-map :
      (f : A → A) (xs : List A)
      → ((y z : A) → same (f y) (f z) ≡ same y z)
      → Unique xs
      → Unique (map f xs)
  Unique-map f [] h u = tt
  Unique-map f (x ∷ xs) h (k, u) = (some_is-map f x xs h ∙ k, Unique-map f xs h u)

  keep-none :
      (p : A → Bool) (x : A) (xs : List A)
      → ((y : A) → p y ≡ true → same y x ≡ true)
      → some_is (λ y. same y x) xs ≡ false
      → keep p xs ≡ []
  keep-none p x [] h k = refl
  keep-none p x (y ∷ xs) h k = ground (arith, h y, keep-none p x xs h)

  -- A test that only rows with one key pass keeps at most one row.
  pub keep-one :
      (p : A → Bool) (xs : List A)
      → ((x y : A) → p x ≡ true → p y ≡ true → same y x ≡ true)
      → Unique xs
      → (keep p xs ≡ []) ⊎ ((x : A) × (keep p xs ≡ x ∷ []) × (p x ≡ true))
  keep-one p [] h u = inl refl
  keep-one p (x ∷ xs) h (k, u) = elim (Bool-cases (p x)) [
    | inl e ↦ inr (x, rw (e, keep-none p x xs (λ y py. h x y e py) k), e)
    | inr e ↦ rw e (keep-one p xs h u)
  ]

module _ {A : Type 0} where
  pub keep-keep : (p q : A → Bool) (xs : List A) → keep (λ x. p x && q x) xs ≡ keep q (keep p xs)
  keep-keep p q [] = refl
  keep-keep p q (x ∷ xs) = ground (arith, keep-keep p q xs)

  pub keep-congr : (p q : A → Bool) (xs : List A) → ((x : A) → p x ≡ q x) → keep p xs ≡ keep q xs
  keep-congr p q [] h = refl
  keep-congr p q (x ∷ xs) h = ground (arith, h x, keep-congr p q xs h)

  pub keep-map :
      (p : A → Bool) (f : A → A) (xs : List A)
      → ((x : A) → p (f x) ≡ p x)
      → keep p (map f xs) ≡ map f (keep p xs)
  keep-map p f [] h = refl
  keep-map p f (x ∷ xs) h = ground (arith, h x, keep-map p f xs h)

  -- The rows that a guarded UPDATE matches are those of the guard among the rows that were read.
  pub keep-guarded :
      (visible same_id same_version alive : A → Bool) (xs : List A)
      → keep (λ x. visible x && ((same_id x && same_version x) && alive x)) xs
        ≡ keep same_version (keep (λ x. visible x && (same_id x && alive x)) xs)
  keep-guarded visible same_id same_version alive xs =
      keep-congr _ (λ x. (visible x && (same_id x && alive x)) && same_version x) xs
        (λ x. ground arith)
      ∙ keep-keep (λ x. visible x && (same_id x && alive x)) same_version xs

  pub head-cons :
      (rows : List A) {row : A} → head? rows ≡ some row → (rest : List A) × (rows ≡ row ∷ rest)
  head-cons [] h = cc
  head-cons (x ∷ rest) h = (rest, ground arith)

  pub head-nil : (rows : List A) → head? rows ≡ none → rows ≡ []
  head-nil [] h = refl
  head-nil (x ∷ rows) h = cc
