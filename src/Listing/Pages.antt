-- ===== src/Listing/Pages.antt =====
-- The pages of a list, put together.
use employee_compliance_saas.Common.{
  ℕ, zero, suc, ◌+◌, ◌-◌, ◌*◌, ◌≤◌, ◌≡◌, refl, ap, sym, ◌∙◌, ◌&&◌, some, List, [], ◌∷◌, ◌++◌, arith,
  ◌==◌, Option, none, Bool, true, false, String, if◌then◌else◌, is_none, str_eq, keep, take, drop,
  length, or_default,
}
use employee_compliance_saas.Common.Exec.{Result, ok, err}
use employee_compliance_saas.Database.Schema.{
  EmployeeStatus, same_employee_status, Uuid, Instant, EmployeeRow, DocumentRow, Db,
}
use employee_compliance_saas.Database.Session.{Postgres}
use employee_compliance_saas.Common.Text.{is_empty}
use employee_compliance_saas.Database.Keys.{Unique, keep-congr}
use employee_compliance_saas.Listing.Order.{IsOrderOf, is_tied, sort, length-sort, ordered_lem}
use employee_compliance_saas.Listing.{
  has_text, has_status, has_words, searched_text, FindAllResult, EmployeeSearchParams, is_match,
  find_employees, DocumentSearchParams, is_document_match, find_documents,
}

pred_suc : (n : ℕ) → suc n - 1 ≡ n
pred_suc n = omega arith

module _ {A : Type 0} where
  take_same : {a b : ℕ} (xs : List A) → a ≡ b → take a xs ≡ take b xs
  take_same xs e = ap (λ n. take n xs) e

  take-nil : (n : ℕ) → take {A = A} n [] ≡ []
  take-nil zero = refl
  take-nil (suc n) = refl

  take-plus : (a b : ℕ) (xs : List A) → take (a + b) xs ≡ take a xs ++ take b (drop a xs)
  take-plus zero b xs = take_same {a = 0 + b} {b = b} xs (omega arith)
  take-plus (suc a) b [] = take-nil (suc a + b) ∙ sym (take-nil b)
  take-plus (suc a) b (x ∷ xs) =
      take_same {a = suc a + b} {b = suc (a + b)} (x ∷ xs) (omega arith)
      ∙ ap (λ ys. x ∷ ys) (take-plus a b xs)

  take-all : (n : ℕ) (xs : List A) → length xs ≤ n → take n xs ≡ xs
  take-all zero [] h = refl
  take-all zero (x ∷ xs) h = absurd (omega (arith, h))
  take-all (suc n) [] h = refl
  take-all (suc n) (x ∷ xs) h = ap (λ ys. x ∷ ys) (take-all n xs (omega (arith, h)))

  -- The pages 1 to n, one after the other.
  abbrev pub first_pages : (ℕ → List A) → ℕ → List A
  first_pages page zero = []
  first_pages page (suc n) = first_pages page n ++ page (suc n)

  first_pages_lem :
      (limit : ℕ) (xs : List A) (n : ℕ)
      → first_pages (λ k. take limit (drop ((k - 1) * limit) xs)) n ≡ take (n * limit) xs
  first_pages_lem limit xs zero = take_same {a = 0} {b = 0 * limit} xs (omega arith)
  first_pages_lem limit xs (suc n) =
      ap (λ ys. ys ++ take limit (drop ((suc n - 1) * limit) xs)) (first_pages_lem limit xs n)
      ∙ ap (λ m. take (n * limit) xs ++ take limit (drop (m * limit) xs)) (pred_suc n)
      ∙ sym (take-plus (n * limit) limit xs)
      ∙ take_same {a = n * limit + limit} {b = suc n * limit} xs (omega arith)

-- The rows of an answer.
abbrev pub rows_of : {Row : Type 0} → Result (FindAllResult Row) → List Row
rows_of (ok found) = found.rows
rows_of (err _) = []

first_pages-congr :
    {A : Type 0} (f g : ℕ → List A)
    → ((k : ℕ) → f k ≡ g k)
    → (n : ℕ) → first_pages f n ≡ first_pages g n
first_pages-congr f g h zero = refl
first_pages-congr f g h (suc n) = λ i. first_pages-congr f g h n i ++ h (suc n) i

-- Pages of as many rows as there are limits, each out of the same sorted rows.
module _ {A : Type 0} (key : A → ℕ) (rows : List A) (orders : ℕ → List A → List A)
    (distinct : Unique (is_tied key) rows) (ordered : (k : ℕ) → IsOrderOf key rows (orders k rows))
    (limit : ℕ) where
  pages_cover :
      (n : ℕ)
      → length rows ≤ n * limit
      → first_pages (λ k. take limit (drop ((k - 1) * limit) (orders k rows))) n ≡ sort key rows
  pages_cover n h =
      first_pages-congr (λ k. take limit (drop ((k - 1) * limit) (orders k rows)))
        (λ k. take limit (drop ((k - 1) * limit) (sort key rows)))
        (λ k.
          ap (λ xs. take limit (drop ((k - 1) * limit) xs))
            (ordered_lem key rows (orders k rows) distinct (ordered k)))
        n
      ∙ first_pages_lem limit (sort key rows) n
      ∙ take-all (n * limit) (sort key rows) (omega (arith, length-sort key rows, h))

-- A filter that is left out, or is the empty text, lets every row through.
abbrev pub asked : Option String → Option String
asked none = none
asked (some s) = if is_empty s then none else some s

abbrev pub fits : Option String → Option String → Bool
fits none column = true
fits (some wanted) none = false
fits (some wanted) (some value) = str_eq value wanted

fits-asked : (filter column : Option String) → has_text filter column ≡ fits (asked filter) column
fits-asked none column = refl
fits-asked (some s) none = ground arith
fits-asked (some s) (some value) = ground arith

abbrev pub mentions : Postgres → Option String → EmployeeRow → Bool
mentions pg none e = true
mentions pg (some q) e = pg.text_match (searched_text e) q

mentions-asked :
    (pg : Postgres) (q : Option String) (e : EmployeeRow)
    → has_words pg q e ≡ mentions pg (asked q) e
mentions-asked pg none e = refl
mentions-asked pg (some q) e = ground arith

abbrev pub is_status : Option EmployeeStatus → EmployeeStatus → Bool
is_status none status = true
is_status (some wanted) status = same_employee_status status wanted

status_lem :
    (wanted : Option EmployeeStatus) (s : EmployeeStatus) → has_status wanted s ≡ is_status wanted s
status_lem none s = refl
status_lem (some wanted) s = refl

-- The tenant's live employees that a search asks for.
abbrev pub is_found : Postgres → Uuid → EmployeeSearchParams → EmployeeRow → Bool
is_found pg t params e =
    (e.tenant_id == t && is_none e.deleted_at)
    && ((fits (asked params.department) e.department && fits (asked params.branch) e.branch)
        && (is_status params.status e.status && mentions pg (asked params.q) e))

module _ (pg : Postgres) (orders : ℕ → List EmployeeRow → List EmployeeRow) (t : Uuid)
    (params : EmployeeSearchParams) (now : Instant) (db : Db) where
  abbrev pub employee_page : ℕ → List EmployeeRow
  employee_page k =
      rows_of (find_employees pg (orders k) t (record params { page = some k }) now db).0

  abbrev pub found_employees : List EmployeeRow
  found_employees = keep (is_found pg t params) db.employees

  matches_lem : keep (λ e. e.tenant_id == t && is_match pg params e) db.employees ≡ found_employees
  matches_lem =
      keep-congr (λ e. e.tenant_id == t && is_match pg params e) (is_found pg t params) db.employees
        (λ e. ground (
          arith,
          fits-asked params.department e.department,
          fits-asked params.branch e.branch,
          status_lem params.status e.status,
          mentions-asked pg params.q e,
        ))

  -- Put one after the other, the pages of an employee search, up to a page number that is large enough
  -- for the matching rows, are all of the tenant's live employees that the search asks for, by the
  -- times of their creation, each once. The conditions: no two of them were created at one time, and
  -- each query, which may be ordered in its own way, returns them in the order of ORDER BY created_at.
  pub employee_pages_cover :
      (n : ℕ)
      → Unique (is_tied (λ (e : EmployeeRow). e.created_at)) found_employees
      → ((k : ℕ)
          → IsOrderOf
              (λ (e : EmployeeRow). e.created_at)
              found_employees
              (orders k found_employees))
      → length found_employees ≤ n * or_default params.limit 20
      → first_pages employee_page n ≡ sort (λ (e : EmployeeRow). e.created_at) found_employees
  unfolding find_employees
  employee_pages_cover n distinct ordered h =
      first_pages-congr employee_page
        (λ k.
          take (or_default params.limit 20)
            (drop ((k - 1) * or_default params.limit 20) (orders k found_employees)))
        (λ k.
          ap
            (λ rows.
              take (or_default params.limit 20)
                (drop ((k - 1) * or_default params.limit 20) (orders k rows)))
            matches_lem)
        n
      ∙ pages_cover (λ (e : EmployeeRow). e.created_at) found_employees orders distinct ordered
          (or_default params.limit 20) n h

module _ (orders : ℕ → List DocumentRow → List DocumentRow) (t : Uuid)
    (params : DocumentSearchParams) (now : Instant) (db : Db) where
  abbrev document_page : ℕ → List DocumentRow
  document_page k = rows_of (find_documents (orders k) t (record params { page = some k }) now db).0

  abbrev document_matches : List DocumentRow
  document_matches = keep (λ d. d.tenant_id == t && is_document_match params d) db.documents

  -- The same of the pages of a document search.
  document_pages_cover :
      (n : ℕ)
      → Unique (is_tied (λ (d : DocumentRow). d.created_at)) document_matches
      → ((k : ℕ)
          → IsOrderOf
              (λ (d : DocumentRow). d.created_at)
              document_matches
              (orders k document_matches))
      → length document_matches ≤ n * or_default params.limit 20
      → first_pages document_page n ≡ sort (λ (d : DocumentRow). d.created_at) document_matches
  unfolding find_documents
  document_pages_cover n distinct ordered h =
      pages_cover (λ (d : DocumentRow). d.created_at) document_matches orders distinct ordered
        (or_default params.limit 20) n h
