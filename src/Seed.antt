-- ===== src/Seed.antt =====
-- The generator of test data: tools/seed/generate.ts, with the settings of tools/seed/config.ts. What
-- faker, randomUUID and Math.random return is a parameter; the statements that the generator sends are
-- a list.
pub mod Statuses
pub mod Chunks
pub mod Batches
pub mod Shares
use Prim.Native.String
use employee_compliance_saas.Common.{
  ℕ, zero, suc, ◌+◌, ◌-◌, ◌*◌, ◌/◌, String, Bool, true, false, Option, none, some, List, [], ◌∷◌,
  ◌++◌, map, if◌then◌else◌, ltb, take, drop,
}
use employee_compliance_saas.Common.Int.{ℤ, pos, sub_ℕ, ◌-ℤ◌}
use employee_compliance_saas.Common.Text.{decimal}
use employee_compliance_saas.Calendar.{ms_per_day, to_utc_date_string}
use employee_compliance_saas.Database.Schema.{
  Uuid, Instant, DocumentType, passport, residence, badge, ExpiryStatus,
}

pub data ExpiryBucket : Type 0 where
  expired critical expiring_soon valid : ExpiryBucket

pub record Dated : Type 0 where
  pub expiry_instant : Instant
  pub expiry_status : ExpiryStatus

abbrev pub today_utc : Instant → Instant
today_utc now = now / ms_per_day * ms_per_day

-- `rand_int n` is what one call of randInt(n) returns, and `now` is NOW. Instants start at 1970.
unfoldable pub expiry_bucket_to_dates : (ℕ → ℕ) → Instant → ExpiryBucket → Dated
expiry_bucket_to_dates rand_int now expired = record {
  expiry_instant = today_utc now - (1 + rand_int 400) * ms_per_day;
  expiry_status = ExpiryStatus.expired;
}
expiry_bucket_to_dates rand_int now critical = record {
  expiry_instant = today_utc now + (1 + rand_int 30) * ms_per_day;
  expiry_status = ExpiryStatus.expiring_soon;
}
expiry_bucket_to_dates rand_int now expiring_soon = record {
  expiry_instant = today_utc now + (31 + rand_int 60) * ms_per_day;
  expiry_status = ExpiryStatus.expiring_soon;
}
expiry_bucket_to_dates rand_int now valid = record {
  expiry_instant = today_utc now + (91 + rand_int 820) * ms_per_day;
  expiry_status = ExpiryStatus.valid;
}

-- The date of the column.
abbrev pub expiry_date : Dated → List ℕ
expiry_date d = to_utc_date_string d.expiry_instant

-- TENANTS: the numbers of employees.
abbrev pub employee_counts : List ℕ
employee_counts = 50000 ∷ 25000 ∷ 15000 ∷ 7000 ∷ 3000 ∷ []

abbrev pub sum : List ℕ → ℕ
sum [] = 0
sum (n ∷ ns) = n + sum ns

-- `Math.round((total * count) / weightSum)`
abbrev pub share : ℕ → ℕ → ℕ → ℕ
share total weight_sum count = (2 * (total * count) + weight_sum) / (2 * weight_sum)

-- The drift of the rounding goes to the first tenant.
abbrev pub absorb : ℕ → List ℕ → List ℤ
absorb total [] = []
absorb total (first ∷ rest) = sub_ℕ (first + total) (first + sum rest) ∷ map pos rest

unfoldable pub distribute : ℕ → List ℤ
distribute total = absorb total (map (share total (sum employee_counts)) employee_counts)

-- What the generators of one tenant's rows return, by the number of the employee or the document.
pub record Draws : Type 0 where
  pub employee_id : ℕ → Uuid
  pub first_name : ℕ → String
  pub last_name : ℕ → String
  pub department : ℕ → String
  pub job_type : ℕ → String
  pub has_document : ℕ → DocumentType → Bool
  pub document_id : ℕ → Uuid
  pub bucket : ℕ → ExpiryBucket
  pub rand_int : ℕ → ℕ → ℕ
  pub uuid_text : Uuid → String

-- The values of one row of an INSERT.
pub record EmployeeValues : Type 0 where
  pub id : Uuid
  pub tenant_id : Uuid
  pub employee_code : String
  pub full_name : String
  pub first_name : String
  pub last_name : String
  pub email : String
  pub department : String
  pub job_title : String

pub record DocumentValues : Type 0 where
  pub id : Uuid
  pub tenant_id : Uuid
  pub employee_id : Uuid
  pub doc_type : DocumentType
  pub doc_number : String
  pub expiry_date : List ℕ
  pub expiry_status : ExpiryStatus

pub data Statement : Type 0 where
  insert_employees : List EmployeeValues → Statement
  insert_documents : List DocumentValues → Statement

abbrev pub batch_size : ℕ
batch_size = 500

-- `batchInsert`, on fuel: the chunks of the rows.
unfoldable pub chunks : {A : Type 0} → ℕ → List A → List (List A)
chunks zero rows = []
chunks (suc fuel) [] = []
chunks (suc fuel) (row ∷ rows) =
    take batch_size (row ∷ rows) ∷ chunks fuel (drop batch_size (row ∷ rows))

infixr 60 ◌&◌
abbrev ◌&◌ : String → String → String
a & b = String.◌++◌ a b

abbrev upper_type : DocumentType → String
upper_type passport = "PASSPORT"
upper_type residence = "RESIDENCE"
upper_type badge = "BADGE"

-- DOC_KEYS, by what the column holds.
abbrev pub doc_types : List DocumentType
doc_types = passport ∷ residence ∷ badge ∷ []

-- The rows of a batch, with the last number of a document.
pub record Batch : Type 0 where
  pub employees : List EmployeeValues
  pub documents : List DocumentValues
  pub doc_seq : ℕ

abbrev pub statements_of : Batch → List Statement
statements_of b =
    map insert_employees (chunks (batch_size + 1) b.employees)
    ++ map insert_documents (chunks (3 * batch_size + 1) b.documents)

abbrev pub lesser : ℕ → ℕ → ℕ
lesser a b = if ltb b a then b else a

abbrev pub put_before : List Statement → Option (List Statement × ℕ) → Option (List Statement × ℕ)
put_before first none = none
put_before first (some (rest, done)) = some (first ++ rest, done)

-- `ti` is the index of the tenant.
module _ (draws : Draws) (now : Instant) (tenant ti : ℕ) where
  abbrev pub employee_values : ℕ → EmployeeValues
  employee_values emp_seq = record {
    id = draws.employee_id emp_seq;
    tenant_id = tenant;
    employee_code = "SEED-" & decimal (ti + 1) & "-" & decimal emp_seq;
    full_name = draws.first_name emp_seq & " " & draws.last_name emp_seq;
    first_name = draws.first_name emp_seq;
    last_name = draws.last_name emp_seq;
    email = "seed-" & draws.uuid_text (draws.employee_id emp_seq) & "@test.invalid";
    department = draws.department emp_seq;
    job_title = draws.job_type emp_seq;
  }

  abbrev pub document_values : ℕ → ℕ → DocumentType → DocumentValues
  document_values emp_seq doc_seq type =
      let dates = expiry_bucket_to_dates (draws.rand_int doc_seq) now (draws.bucket doc_seq) in
      record {
        id = draws.document_id doc_seq;
        tenant_id = tenant;
        employee_id = draws.employee_id emp_seq;
        doc_type = type;
        doc_number = "SEED-" & upper_type type & "-" & decimal (ti + 1) & "-" & decimal doc_seq;
        expiry_date = expiry_date dates;
        expiry_status = dates.expiry_status;
      }

  abbrev pub with_documents : ℕ → List DocumentType → Batch → Batch
  with_documents emp_seq [] b = b
  with_documents emp_seq (type ∷ types) b =
      let next = b.doc_seq + 1 in
      with_documents emp_seq types (
        if draws.has_document emp_seq type
        then (record b {
          documents = b.documents ++ document_values emp_seq next type ∷ [];
          doc_seq = next;
        })
        else b)

  -- The loop over the `n` employees of a batch.
  abbrev pub fill : ℕ → ℕ → Batch → Batch
  fill zero emp_seq b = b
  fill (suc n) emp_seq b =
      let next = emp_seq + 1 in
      fill n next (
        with_documents next doc_types
          (record b { employees = b.employees ++ employee_values next ∷ [] }))

  -- `while (done < target)`, on fuel: the statements, and `done` at the end.
  unfoldable pub seed_rows : ℕ → ℕ → ℕ → ℕ → ℕ → Option (List Statement × ℕ)
  seed_rows zero target emp_seq doc_seq done = none
  seed_rows (suc fuel) target emp_seq doc_seq done =
      let n = lesser batch_size (target - done) in
      let b = fill n emp_seq (record { employees = []; documents = []; doc_seq = doc_seq }) in
      let rest = seed_rows fuel target (emp_seq + n) b.doc_seq (done + n) in
      if ltb done target then put_before (statements_of b) rest else some ([], done)
