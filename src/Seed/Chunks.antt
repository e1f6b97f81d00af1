-- ===== src/Seed/Chunks.antt =====
-- Rows cut into the chunks of several statements, and what some statements insert together.
use mathlib.Core.List.{append_assoc}
use employee_compliance_saas.Common.{
  ℕ, zero, suc, ◌+◌, ◌≤◌, ◌<◌, ◌≡◌, refl, sym, ap, ◌∙◌, List, [], ◌∷◌, ◌++◌, arith, map, All,
  length, take, drop, length-take-le,
}
use employee_compliance_saas.Seed.{
  EmployeeValues, DocumentValues, Statement, insert_employees, insert_documents, batch_size, chunks,
}

module _ {A : Type 0} where
  abbrev pub concat : List (List A) → List A
  concat [] = []
  concat (xs ∷ xss) = xs ++ concat xss

  -- A chunk fits one statement.
  abbrev pub IsChunk : List A → Type 0
  IsChunk xs = (1 ≤ length xs) × (length xs ≤ batch_size)

  take-drop : (n : ℕ) (xs : List A) → take n xs ++ drop n xs ≡ xs
  take-drop zero xs = refl
  take-drop (suc n) [] = refl
  take-drop (suc n) (x ∷ xs) = ap (λ ys. x ∷ ys) (take-drop n xs)

  length-drop-le : (n : ℕ) (xs : List A) → length (drop n xs) ≤ length xs
  length-drop-le zero xs = omega arith
  length-drop-le (suc n) [] = omega arith
  length-drop-le (suc n) (x ∷ xs) = omega (arith, length-drop-le n xs)

  -- Enough fuel: every row is in a chunk, in order.
  pub chunks_lem :
      (fuel : ℕ) (xs : List A)
      → length xs < fuel
      → (concat (chunks fuel xs) ≡ xs) × All IsChunk (chunks fuel xs)
  unfolding chunks
  chunks_lem zero xs h = absurd (omega (arith, h))
  chunks_lem (suc fuel) [] h = (refl, tt)
  chunks_lem (suc fuel) (x ∷ xs) h =
      let (all, sized) = chunks_lem fuel (drop 499 xs) (omega (arith, h, length-drop-le 499 xs)) in
      (
        ap (λ rest. take 500 (x ∷ xs) ++ rest) all ∙ take-drop 500 (x ∷ xs),
        ((omega arith, length-take-le 500 (x ∷ xs)), sized),
      )

  pub length-snoc : (xs : List A) (x : A) → length (xs ++ x ∷ []) ≡ length xs + 1
  length-snoc [] x = refl
  length-snoc (y ∷ xs) x = omega (arith, length-snoc xs x)

-- The employees that some statements insert, in their order.
abbrev pub employees_in : List Statement → List EmployeeValues
employees_in [] = []
employees_in (insert_employees rows ∷ rest) = rows ++ employees_in rest
employees_in (insert_documents rows ∷ rest) = employees_in rest

-- A statement has 1 to 500 rows.
abbrev pub IsSized : Statement → Type 0
IsSized (insert_employees rows) = IsChunk rows
IsSized (insert_documents rows) = IsChunk rows

pub employees_in-append :
    (xs ys : List Statement) → employees_in (xs ++ ys) ≡ employees_in xs ++ employees_in ys
employees_in-append [] ys = refl
employees_in-append (insert_employees rows ∷ xs) ys =
    ap (λ rest. rows ++ rest) (employees_in-append xs ys)
    ∙ sym (append_assoc rows (employees_in xs) (employees_in ys))
employees_in-append (insert_documents rows ∷ xs) ys = employees_in-append xs ys

pub employees_in-employees :
    (chunks : List (List EmployeeValues))
    → employees_in (map insert_employees chunks) ≡ concat chunks
employees_in-employees [] = refl
employees_in-employees (rows ∷ rest) = ap (λ more. rows ++ more) (employees_in-employees rest)

pub employees_in-documents :
    (chunks : List (List DocumentValues)) → employees_in (map insert_documents chunks) ≡ []
employees_in-documents [] = refl
employees_in-documents (rows ∷ rest) = employees_in-documents rest

pub employees-IsSized :
    (chunks : List (List EmployeeValues))
    → All IsChunk chunks
    → All IsSized (map insert_employees chunks)
employees-IsSized [] h = tt
employees-IsSized (rows ∷ rest) (p, h) = (p, employees-IsSized rest h)

pub documents-IsSized :
    (chunks : List (List DocumentValues))
    → All IsChunk chunks
    → All IsSized (map insert_documents chunks)
documents-IsSized [] h = tt
documents-IsSized (rows ∷ rest) (p, h) = (p, documents-IsSized rest h)
