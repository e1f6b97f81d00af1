-- ===== src/Imports/Upload/Counts.antt =====
-- The figures of an import add up.
use employee_compliance_saas.Common.{
  ℕ, suc, ◌+◌, ◌≡◌, refl, ap, sym, ◌∙◌, String, Option, none, some, List, [], ◌∷◌, arith, length,
  keep, ◌++◌, ◌⊎◌, inl, inr, ◌==◌, ◌&&◌, some_is, false, true, str_eq, eq_iff,
}
use employee_compliance_saas.Common.Exec.{Exception, Result, ok, err}
use employee_compliance_saas.Database.Schema.{Uuid, Instant, ImportBatchRow, Db}
use employee_compliance_saas.Audit.{AuditContext}
use employee_compliance_saas.Imports.Rows.{RowRecord}
use employee_compliance_saas.Imports.Service.{
  Outside, ImportRowError, ImportResult, parse_workbook, tally, import_row, import_rows, same_hash,
  find_existing_batch, insert_new_batch, complete_batch, set_completed, new_batch,
}
use employee_compliance_saas.Database.Session.{same_batch}
use employee_compliance_saas.Imports.Service.Frame.{batches-import_rows}
use employee_compliance_saas.Imports.Service.Batch.{insert_new_batch_ok, complete_new_batch}
use employee_compliance_saas.Imports.Upload.{
  Uploads, import_into, completion_job, import_sheet, import_employees,
}

tally-length :
    (out : Outside) (tenant : Uuid) (now : Instant) (context : AuditContext)
    (outcome : Option ImportRowError) (counts : ℕ × List ImportRowError) (n : ℕ)
    → counts.0 + length counts.1 ≡ n
    → (tally out tenant now context outcome counts).0
        + length (tally out tenant now context outcome counts).1
      ≡ suc n
tally-length out tenant now context none (processed, errors) n h = omega (arith, h)
tally-length out tenant now context (some e) (processed, errors) n h = omega (arith, h)

import_rows-length :
    (out : Outside) (tenant : Uuid) (now : Instant) (context : AuditContext)
    (rows : List (ℕ × RowRecord)) (db : Db)
    → let (counts, after) = import_rows out tenant now context rows db in
      counts.0 + length counts.1 ≡ length rows
unfolding import_rows
import_rows-length out tenant now context [] db = omega arith
import_rows-length out tenant now context (r ∷ rs) db =
    let (outcome, after) = import_row out tenant now context r db in
    let (counts, done) = import_rows out tenant now context rs after in
    tally-length out tenant now context outcome counts (length rs)
      (import_rows-length out tenant now context rs after)

Result-cases :
    {A : Type 0} (r : Result A) → ((a : A) × (r ≡ ok a)) ⊎ ((e : Exception) × (r ≡ err e))
Result-cases (ok a) = inl (a, refl)
Result-cases (err e) = inr (e, refl)

not_both : {A : Type 0} (r : Result A) (a : A) (x : Exception) → r ≡ ok a → r ≡ err x → ⊥
not_both (ok b) a x h k = cc
not_both (err y) a x h k = cc

left_of : {A : Type 0} (p : Result A × Db) (r : Result A) → p.0 ≡ r → p ≡ (r, p.1)
left_of p r e = ap (λ q. (q, p.1)) e

module _ (out : Outside) (t : Uuid) (now : Instant) (context : AuditContext) (actor file : String)
    (u : Uploads) where
  abbrev pub known : Db → List ImportBatchRow
  known db =
      keep (λ x. x.tenant_id == t && same_hash out t now context (out.sha256 file) x)
        db.import_batches

  -- What a successful import of a new file comes to: the batch that was inserted with the number of rows,
  -- completed with the number of rows without an error and the number of errors, is returned with the
  -- errors, and is the one that the file's hash finds afterwards.
  pub record Imported (result : ImportResult) (after : Uploads) : Type 0 where
    pub rows : List (ℕ × RowRecord)
    pub parsed : parse_workbook out (out.load file) ≡ ok rows
    pub total : result.batch.total_rows ≡ length rows
    pub sum : result.batch.processed_rows + result.batch.error_rows ≡ length rows
    pub errors : result.batch.error_rows ≡ length result.errors
    pub recorded : known after.db ≡ result.batch ∷ []

  abbrev counted : List (ℕ × RowRecord) → Db → (ℕ × List ImportRowError) × Db
  counted rows db = import_rows out t now context rows db

  abbrev completion : List (ℕ × RowRecord) → ImportBatchRow → Db → Result (List ImportBatchRow) × Db
  completion rows b db =
      complete_batch out t now context b (length rows) (counted rows db).0.0
        (length (counted rows db).0.1) (counted rows db).1

  abbrev final_batch : List (ℕ × RowRecord) → ImportBatchRow → Db → ImportBatchRow
  final_batch rows b db =
      set_completed out t now context (counted rows db).0.0 (length (counted rows db).0.1) b

  abbrev returned_result : List (ℕ × RowRecord) → ImportBatchRow → Db → ImportResult
  returned_result rows b db = record {
    batch = final_batch rows b db;
    errors = (counted rows db).0.1;
  }

  abbrev returned_world : List (ℕ × RowRecord) → ImportBatchRow → Db → Uploads
  returned_world rows b db = record {
    db = (completion rows b db).1;
    queue = u.queue ++ completion_job out t now context actor b (length rows) ∷ [];
  }

  import_into_run :
      (rows : List (ℕ × RowRecord)) (b : ImportBatchRow) (db : Db)
      → (completion rows b db).0 ≡ ok (final_batch rows b db ∷ [])
      → import_into out t now context actor rows b (record u { db = db })
        ≡ (ok (returned_result rows b db), returned_world rows b db)
  unfolding import_into
  import_into_run rows b db e =
      rw (left_of (completion rows b db) (ok (final_batch rows b db ∷ [])) e)

  -- What `Imported` asks, of the result that is returned.
  concluded :
      (rows : List (ℕ × RowRecord)) (b : ImportBatchRow) (db : Db)
      → parse_workbook out (out.load file) ≡ ok rows
      → known (completion rows b db).1 ≡ final_batch rows b db ∷ []
      → b.total_rows ≡ length rows
      → (result : ImportResult) → returned_result rows b db ≡ result
      → Imported result (returned_world rows b db)
  concluded rows b db parsed recorded total result got = rw (← got) (record {
    rows = rows;
    parsed = parsed;
    total = total;
    sum = import_rows-length out t now context rows db;
    errors = refl;
    recorded = recorded;
  })

  import_into_lem :
      (rows : List (ℕ × RowRecord)) (b : ImportBatchRow) (db : Db) (result : ImportResult)
      → parse_workbook out (out.load file) ≡ ok rows
      → known u.db ≡ []
      → new_batch out t now context
          (out.pg.gen_random_uuid u.db.draws)
          (length rows)
          (out.sha256 file)
          actor
        ≡ b
      → some_is (same_batch b) u.db.import_batches ≡ false
      → db.import_batches ≡ u.db.import_batches ++ b ∷ []
      → (import_into out t now context actor rows b (record u { db = db })).0 ≡ ok result
      → Imported result (import_into out t now context actor rows b (record u { db = db })).1
  import_into_lem rows b db result parsed new made fresh added h =
      let own : b.tenant_id ≡ t = ap (λ (x : ImportBatchRow). x.tenant_id) (sym made) in
      let hashed : str_eq b.file_hash (out.sha256 file) ≡ true =
        rw (← made) ((eq_iff (out.sha256 file) (out.sha256 file)).1 refl) in
      let (e, recorded) =
        complete_new_batch out t now context b (out.sha256 file) (length rows) (counted rows db).0.0
          (length (counted rows db).0.1) u.db.import_batches (counted rows db).1 own hashed fresh
          new (batches-import_rows out t now context rows db ∙ added) in
      let run = import_into_run rows b db e in
      let total : b.total_rows ≡ length rows =
        ap (λ (x : ImportBatchRow). x.total_rows) (sym made) in
      rw run (concluded rows b db parsed recorded total result (cc))

  import_new_lem :
      (rows : List (ℕ × RowRecord)) (result : ImportResult)
      → parse_workbook out (out.load file) ≡ ok rows
      → known u.db ≡ []
      → (import_sheet out t now context actor (out.sha256 file) (ok rows) u).0 ≡ ok result
      → Imported result (import_sheet out t now context actor (out.sha256 file) (ok rows) u).1
  unfolding import_sheet
  import_new_lem rows result parsed new h =
      elim (Result-cases
        (insert_new_batch out t now context (length rows) (out.sha256 file) actor u.db).0) [
          | inl (b, e) ↦
              let (made, fresh, added) =
                insert_new_batch_ok out t now context (length rows) (out.sha256 file) actor u.db b
                  e in
              let left =
                left_of
                  (insert_new_batch out t now context (length rows) (out.sha256 file) actor u.db)
                  (ok b) e in
              rw left (
                import_into_lem rows b
                  (insert_new_batch out t now context (length rows) (out.sha256 file) actor u.db).1
                  result parsed new made fresh added (rw left at h))
          | inr (x, e) ↦
              let left =
                left_of
                  (insert_new_batch out t now context (length rows) (out.sha256 file) actor u.db)
                  (err x) e in
              absurd (cc (rw left at h))
        ]

  import_refused :
      (x : Exception)
      → known u.db ≡ []
      → parse_workbook out (out.load file) ≡ err x
      → import_employees out t now context actor file u ≡ (err x, u)
  unfolding import_employees find_existing_batch import_sheet
  import_refused x new e = rw (new, e)

  -- An import that succeeds, of a file whose hash the tenant has no batch of, returns a batch whose total
  -- is the number of data rows of the sheet, whose processed and error rows add up to it, and whose error
  -- rows are the number of the returned errors; and that batch is then the only one of the tenant with the
  -- file's hash.
  pub import_employees-Imported :
      (result : ImportResult)
      → known u.db ≡ []
      → (import_employees out t now context actor file u).0 ≡ ok result
      → Imported result (import_employees out t now context actor file u).1
  unfolding import_employees find_existing_batch
  import_employees-Imported result new h =
      elim (Result-cases (parse_workbook out (out.load file))) [
        | inl (rows, e) ↦ rw (new, e) (import_new_lem rows result e new (rw (new, e) at h))
        | inr (x, e) ↦ absurd (
            not_both (import_employees out t now context actor file u).0 result x h
              (ap (λ (p : Result ImportResult × Uploads). p.0) (import_refused x new e)))
      ]
