-- ===== src/Listing.antt =====
-- The paged lists: `findAll` and `findOne` of apps/api/src/employees/employees.service.ts, `findAll` and
-- `findAllForEmployee` of apps/api/src/documents/documents.service.ts, and `getExpiringDocuments` of
-- apps/api/src/dashboard/dashboard.service.ts. The sort of ORDER BY, which Postgres leaves open among
-- equal keys, is a parameter.
pub mod Order
pub mod Pages
use Prim.Native.String
use employee_compliance_saas.Common.{
  ℕ, ◌+◌, ◌-◌, ◌*◌, String, Bool, true, false, not, ◌&&◌, ◌||◌, Option, none, some, List, [], ◌∷◌,
  ◌==◌, leb, if◌then◌else◌, is_none, or_default, str_eq, take, drop, length,
}
use employee_compliance_saas.Common.Exec.{not_found, Exec, pure, ◌>>=◌, ◌>>◌}
use employee_compliance_saas.Common.Text.{is_empty}
use employee_compliance_saas.Calendar.{to_utc_date_string}
use employee_compliance_saas.Database.Schema.{
  Uuid, Instant, EmployeeStatus, same_employee_status, EmployeeRow, DocumentType, same_type,
  ExpiryStatus, same_status, DocumentRow, Db,
}
use employee_compliance_saas.Database.Session.{
  Postgres, Session, transaction, set_tenant_context, first_or, select_employees, select_documents,
}
use employee_compliance_saas.Employees.{is_live}

pub record FindAllResult (Row : Type 0) : Type 0 where
  pub rows : List Row
  pub total : ℕ

-- LIMIT and OFFSET, and the count of the same WHERE clause.
abbrev pub page_of :
    {Row : Type 0} → Option ℕ → Option ℕ → (List Row → List Row) → List Row → FindAllResult Row
page_of page limit order matches = record {
  rows =
      take (or_default limit 20)
        (drop ((or_default page 1 - 1) * or_default limit 20) (order matches));
  total = length matches;
}

pub record EmployeeSearchParams : Type 0 where
  pub q : Option String
  pub department : Option String
  pub branch : Option String
  pub status : Option EmployeeStatus
  pub page : Option ℕ
  pub limit : Option ℕ

-- `if (wanted) conditions.push(eq(column, wanted))`
abbrev pub has_text : Option String → Option String → Bool
has_text none column = true
has_text (some wanted) none = is_empty wanted
has_text (some wanted) (some value) = is_empty wanted || str_eq value wanted

abbrev pub has_status : Option EmployeeStatus → EmployeeStatus → Bool
has_status none status = true
has_status (some wanted) status = same_employee_status status wanted

-- The words, a blank after each, and the last one.
abbrev words : List String → String → String
words [] last = last
words (word ∷ rest) last = String.◌++◌ word (String.◌++◌ " " (words rest last))

abbrev pub searched_text : EmployeeRow → String
searched_text e =
    words (e.employee_code ∷ or_default e.first_name "" ∷ or_default e.last_name "" ∷ [])
      (or_default e.department "")

abbrev pub has_words : Postgres → Option String → EmployeeRow → Bool
has_words pg none e = true
has_words pg (some q) e = is_empty q || pg.text_match (searched_text e) q

abbrev pub is_match : Postgres → EmployeeSearchParams → EmployeeRow → Bool
is_match pg params e =
    is_none e.deleted_at
    && has_text params.department e.department
    && has_text params.branch e.branch
    && has_status params.status e.status
    && has_words pg params.q e

find_employees_in :
    Postgres
    → (List EmployeeRow → List EmployeeRow)
    → EmployeeSearchParams
    → Exec Session (FindAllResult EmployeeRow)
find_employees_in pg order params = do
  matches ← select_employees (is_match pg params)
  pure (page_of params.page params.limit order matches)

unfoldable pub find_employees :
    Postgres
    → (List EmployeeRow → List EmployeeRow)
    → Uuid
    → EmployeeSearchParams
    → Instant
    → Exec Db (FindAllResult EmployeeRow)
unfolding find_employees_in
find_employees pg order tenant params now =
    transaction now (set_tenant_context tenant >> find_employees_in pg order params)

find_employee_in : Uuid → Exec Session EmployeeRow
find_employee_in id = do
  rows ← select_employees (is_live id)
  first_or (not_found "Employee not found") rows

unfoldable pub find_employee : Uuid → Uuid → Instant → Exec Db EmployeeRow
unfolding find_employee_in
find_employee tenant id now = transaction now (set_tenant_context tenant >> find_employee_in id)

pub record DocumentSearchParams : Type 0 where
  pub doc_type : Option DocumentType
  pub expiry_status : Option ExpiryStatus
  pub page : Option ℕ
  pub limit : Option ℕ

abbrev pub has_type : Option DocumentType → DocumentType → Bool
has_type none type = true
has_type (some wanted) type = same_type type wanted

abbrev pub has_expiry_status : Option ExpiryStatus → ExpiryStatus → Bool
has_expiry_status none status = true
has_expiry_status (some wanted) status = same_status status wanted

abbrev pub is_document_match : DocumentSearchParams → DocumentRow → Bool
is_document_match params d =
    is_none d.deleted_at
    && has_type params.doc_type d.doc_type
    && has_expiry_status params.expiry_status d.expiry_status

find_documents_in :
    (List DocumentRow → List DocumentRow)
    → DocumentSearchParams
    → Exec Session (FindAllResult DocumentRow)
find_documents_in order params = do
  matches ← select_documents (is_document_match params)
  pure (page_of params.page params.limit order matches)

unfoldable pub find_documents :
    (List DocumentRow → List DocumentRow)
    → Uuid
    → DocumentSearchParams
    → Instant
    → Exec Db (FindAllResult DocumentRow)
unfolding find_documents_in
find_documents order tenant params now =
    transaction now (set_tenant_context tenant >> find_documents_in order params)

abbrev is_employee : Uuid → Option Uuid → Bool
is_employee id none = false
is_employee id (some other) = other == id

unfoldable pub find_documents_of_employee : Uuid → Uuid → Instant → Exec Db (List DocumentRow)
find_documents_of_employee tenant employee now = transaction now (
    set_tenant_context tenant
    >> select_documents (λ d. is_employee employee d.employee_id && is_none d.deleted_at))
