-- ===== src/Migrations/Names.antt =====
-- Lists of file names.
use employee_compliance_saas.Common.{
  ◌≡◌, refl, ap, ◌∙◌, inl, inr, String, Bool, false, not, List, [], ◌∷◌, ◌++◌, arith, keep, str_eq,
  eq_iff, Bool-cases,
}
use employee_compliance_saas.Migrations.{Migration, is_in, filenames}
use employee_compliance_saas.Migrations.Reruns.{str_refl, some_is-append}

-- No file name twice, as in a directory.
abbrev pub AreDistinct : List String → Type 0
AreDistinct [] = Unit
AreDistinct (x ∷ xs) = (is_in xs x ≡ false) × AreDistinct xs

absent-keep :
    (p : String → Bool) (xs : List String) (x : String)
    → is_in xs x ≡ false
    → is_in (keep p xs) x ≡ false
absent-keep p [] x h = refl
absent-keep p (y ∷ ys) x h = ground (arith, h, absent-keep p ys x)

pub AreDistinct-keep :
    (p : String → Bool) (xs : List String) → AreDistinct xs → AreDistinct (keep p xs)
AreDistinct-keep p [] h = tt
AreDistinct-keep p (x ∷ xs) (new, h) = elim (Bool-cases (p x)) [
  | inl e ↦ rw e (absent-keep p xs x new, AreDistinct-keep p xs h)
  | inr e ↦ rw e (AreDistinct-keep p xs h)
]

keep_without :
    (x : String) (xs ys : List String)
    → is_in ys x ≡ false
    → keep (λ y. not (is_in (x ∷ xs) y)) ys ≡ keep (λ y. not (is_in xs y)) ys
keep_without x xs [] h = refl
keep_without x xs (y ∷ ys) h = ground (arith, h, eq_iff x y, eq_iff y x, keep_without x xs ys)

pub keep_tail :
    (done tail : List String)
    → AreDistinct (done ++ tail)
    → keep (λ y. not (is_in done y)) (done ++ tail) ≡ tail
keep_tail [] [] h = refl
keep_tail [] (y ∷ ys) (_, h) = rw (keep_tail [] ys h)
keep_tail (x ∷ xs) tail (new, h) =
    rw (str_refl x) (keep_without x xs (xs ++ tail) new ∙ keep_tail xs tail h)

pub keep-keep :
    (names done files : List String)
    → keep (λ file. not (is_in ((names ++ done) ++ []) file)) files
      ≡ keep (λ file. not (is_in done file)) (keep (λ file. not (is_in (names ++ []) file)) files)
keep-keep names done [] = refl
keep-keep names done (file ∷ files) = ground (
  arith,
  some_is-append (λ other. str_eq other file) (names ++ done) [],
  some_is-append (λ other. str_eq other file) names done,
  some_is-append (λ other. str_eq other file) names [],
  keep-keep names done files,
)

-- The rows of files that were applied.
abbrev pub applied_rows : List String → List Migration
applied_rows [] = []
applied_rows (file ∷ files) = record { filename = file; backfilled = false } ∷ applied_rows files

pub filenames-append :
    (rows : List Migration) (files : List String)
    → filenames (rows ++ applied_rows files) ≡ filenames rows ++ files
filenames-append [] [] = refl
filenames-append [] (file ∷ files) = ap (λ fs. file ∷ fs) (filenames-append [] files)
filenames-append (row ∷ rows) files = ap (λ fs. row.filename ∷ fs) (filenames-append rows files)

pub append_row :
    (rows : List Migration) (file : String) (files : List String)
    → (rows ++ record { filename = file; backfilled = false } ∷ []) ++ applied_rows files
      ≡ rows ++ applied_rows (file ∷ files)
append_row [] file files = refl
append_row (row ∷ rows) file files = ap (λ rs. row ∷ rs) (append_row rows file files)
