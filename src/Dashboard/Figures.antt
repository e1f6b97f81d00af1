-- ===== src/Dashboard/Figures.antt =====
-- The figures by type and status: `getDocumentStats` of apps/api/src/dashboard/dashboard.service.ts.
use employee_compliance_saas.Common.{
  ℕ, ◌+◌, ◌≡◌, refl, ap, sym, ◌∙◌, Bool, ◌&&◌, List, [], ◌∷◌, ◌++◌, arith, ◌==◌, if◌then◌else◌,
  keep, length,
}
use employee_compliance_saas.Common.Exec.{ok, Exec, pure, ◌>>=◌, ◌>>◌}
use employee_compliance_saas.Database.Schema.{
  Uuid, Instant, DocumentType, passport, residence, badge, same_type, ExpiryStatus, valid,
  expiring_soon, renewal_in_progress, exception, expired, blocked, same_status, DocumentRow, Db,
}
use employee_compliance_saas.Database.Session.{
  Session, transaction, set_tenant_context, select_documents,
}
use employee_compliance_saas.Dashboard.{
  is_live, all_expiry_statuses, live, selected, count_of, DashboardSummary, get_summary,
  get_summary_lem,
}

pub record DocumentStatsRow : Type 0 where
  pub doc_type : DocumentType
  pub expiry_status : ExpiryStatus
  pub count : ℕ

abbrev pub is_in_cell : DocumentType → ExpiryStatus → DocumentRow → Bool
is_in_cell type status d = same_type d.doc_type type && same_status d.expiry_status status

abbrev pub cell_count : DocumentType → ExpiryStatus → List DocumentRow → ℕ
cell_count type status ds = length (keep (is_in_cell type status) ds)

abbrev pub cell : DocumentType → ExpiryStatus → ℕ → List DocumentStatsRow
cell type status n =
    if n == 0 then [] else record { doc_type = type; expiry_status = status; count = n } ∷ []

abbrev pub cells : DocumentType → List ExpiryStatus → List DocumentRow → List DocumentStatsRow
cells type [] ds = []
cells type (status ∷ rest) ds = cell type status (cell_count type status ds) ++ cells type rest ds

abbrev pub document_types : List DocumentType
document_types = passport ∷ residence ∷ badge ∷ []

abbrev pub rows_of_types : List DocumentType → List DocumentRow → List DocumentStatsRow
rows_of_types [] ds = []
rows_of_types (type ∷ rest) ds = cells type all_expiry_statuses ds ++ rows_of_types rest ds

-- `GROUP BY doc_type, expiry_status`: one row for each pair that occurs. Postgres leaves the order open.
abbrev pub group_by_type_and_status : List DocumentRow → List DocumentStatsRow
group_by_type_and_status ds = rows_of_types document_types ds

stats_in : Uuid → Exec Session (List DocumentStatsRow)
stats_in tenant = do rows ← select_documents (is_live tenant); pure (group_by_type_and_status rows)

unfoldable pub get_document_stats : Uuid → Instant → Exec Db (List DocumentStatsRow)
unfolding stats_in
get_document_stats tenant now = transaction now (set_tenant_context tenant >> stats_in tenant)

abbrev pub is_for : DocumentType → ExpiryStatus → DocumentStatsRow → Bool
is_for type status r = same_type r.doc_type type && same_status r.expiry_status status

-- The rows of an answer for a pair, weighed by their counts.
abbrev pub weight : (ℕ → ℕ) → DocumentType → ExpiryStatus → List DocumentStatsRow → ℕ
weight w type status [] = 0
weight w type status (r ∷ rs) =
    (if is_for type status r then w r.count else 0) + weight w type status rs

-- The number of rows for a pair, and the sum of their counts.
abbrev pub rows_for : DocumentType → ExpiryStatus → List DocumentStatsRow → ℕ
rows_for type status rs = weight (λ count. 1) type status rs

abbrev pub figure : DocumentType → ExpiryStatus → List DocumentStatsRow → ℕ
figure type status rs = weight (λ count. count) type status rs

module _ (w : ℕ → ℕ) (T : DocumentType) (S : ExpiryStatus) where
  weight-append :
      (xs ys : List DocumentStatsRow) → weight w T S (xs ++ ys) ≡ weight w T S xs + weight w T S ys
  weight-append [] ys = omega arith
  weight-append (x ∷ xs) ys = omega (arith, weight-append xs ys)

  abbrev weighed : ℕ → ℕ
  weighed n = if n == 0 then 0 else w n

  weight-cell :
      (type : DocumentType) (status : ExpiryStatus) (n : ℕ)
      → weight w T S (cell type status n)
        ≡ (if same_type type T && same_status status S then weighed n else 0)
  weight-cell type status n = ground arith

  -- What the cells of one type add.
  abbrev column : DocumentType → List ExpiryStatus → List DocumentRow → ℕ
  column type [] ds = 0
  column type (status ∷ rest) ds =
      (if same_type type T && same_status status S then weighed (cell_count type status ds) else 0)
      + column type rest ds

  weight-cells :
      (type : DocumentType) (statuses : List ExpiryStatus) (ds : List DocumentRow)
      → weight w T S (cells type statuses ds) ≡ column type statuses ds
  weight-cells type [] ds = refl
  weight-cells type (status ∷ rest) ds = omega (
    arith,
    weight-append (cell type status (cell_count type status ds)) (cells type rest ds),
    weight-cell type status (cell_count type status ds),
    weight-cells type rest ds,
  )

column_all :
    (w : ℕ → ℕ) (T : DocumentType) (S : ExpiryStatus) (type : DocumentType) (ds : List DocumentRow)
    → column w T S type all_expiry_statuses ds
      ≡ (if same_type type T then weighed w T S (cell_count type S ds) else 0)
column_all w T valid type ds = ground arith
column_all w T expiring_soon type ds = ground arith
column_all w T renewal_in_progress type ds = ground arith
column_all w T exception type ds = ground arith
column_all w T expired type ds = ground arith
column_all w T blocked type ds = ground arith

-- What the rows of some types add.
abbrev columns : (ℕ → ℕ) → DocumentType → ExpiryStatus → List DocumentType → List DocumentRow → ℕ
columns w T S [] ds = 0
columns w T S (type ∷ rest) ds =
    (if same_type type T then weighed w T S (cell_count type S ds) else 0) + columns w T S rest ds

weight-rows :
    (w : ℕ → ℕ) (T : DocumentType) (S : ExpiryStatus) (types : List DocumentType)
    (ds : List DocumentRow)
    → weight w T S (rows_of_types types ds) ≡ columns w T S types ds
weight-rows w T S [] ds = refl
weight-rows w T S (type ∷ rest) ds = omega (
  arith,
  weight-append w T S (cells type all_expiry_statuses ds) (rows_of_types rest ds),
  weight-cells w T S type all_expiry_statuses ds,
  column_all w T S type ds,
  weight-rows w T S rest ds,
)

columns_all :
    (w : ℕ → ℕ) (T : DocumentType) (S : ExpiryStatus) (ds : List DocumentRow)
    → columns w T S document_types ds ≡ weighed w T S (cell_count T S ds)
columns_all w passport S ds = omega arith
columns_all w residence S ds = omega arith
columns_all w badge S ds = omega arith

weight_lem :
    (w : ℕ → ℕ) (T : DocumentType) (S : ExpiryStatus) (ds : List DocumentRow)
    → weight w T S (group_by_type_and_status ds) ≡ weighed w T S (cell_count T S ds)
weight_lem w T S ds = weight-rows w T S document_types ds ∙ columns_all w T S ds

one_more_of :
    (type : DocumentType) (status : ExpiryStatus) (d : DocumentRow) (ds : List DocumentRow)
    → cell_count passport status ds + (cell_count residence status ds + cell_count badge status ds)
      ≡ count_of status ds
    → cell_count passport status (record d { doc_type = type } ∷ ds)
        + (cell_count residence status (record d { doc_type = type } ∷ ds)
            + cell_count badge status (record d { doc_type = type } ∷ ds))
      ≡ count_of status (d ∷ ds)
one_more_of passport status d ds h = ground (arith, h)
one_more_of residence status d ds h = ground (arith, h)
one_more_of badge status d ds h = ground (arith, h)

-- Each document is of one of the three types.
count_by_type :
    (status : ExpiryStatus) (ds : List DocumentRow)
    → cell_count passport status ds + (cell_count residence status ds + cell_count badge status ds)
      ≡ count_of status ds
count_by_type status [] = refl
count_by_type status (d ∷ ds) = one_more_of d.doc_type status d ds (count_by_type status ds)

figure_lem :
    (type : DocumentType) (status : ExpiryStatus) (ds : List DocumentRow)
    → figure type status (group_by_type_and_status ds) ≡ cell_count type status ds
figure_lem type status ds = ground (arith, weight_lem (λ count. count) type status ds)

-- The statistics and the summary of one moment agree, and both leave out archived documents and those
-- of other tenants: for each type and status the statistics hold exactly one row with the number of
-- the tenant's documents of that type and status that are not archived, if there are any, and no row
-- otherwise; and for each status, the counts of the three types add up to the figure of the summary.
-- Reading them writes nothing.
pub get_document_stats_lem :
    (t : Uuid) (now : Instant) (db : Db)
    → (rows : List DocumentStatsRow) × (summary : DashboardSummary) × (get_document_stats t now db
        ≡ (ok rows, db))
      × (get_summary t now db ≡ (ok summary, db))
      × ((type : DocumentType) (status : ExpiryStatus)
          → (rows_for type status rows ≡ (if cell_count type status (live t db) == 0 then 0 else 1))
            × (figure type status rows ≡ cell_count type status (live t db)))
      × ((status : ExpiryStatus)
          → figure passport status rows + (figure residence status rows + figure badge status rows)
            ≡ summary.by_status status)
unfolding get_document_stats
get_document_stats_lem t now db =
    let (summary, read, total, by_status) = get_summary_lem t now db in
    (
      group_by_type_and_status (live t db),
      summary,
      ap (λ rows. (ok (group_by_type_and_status rows), db)) (selected t db),
      read,
      λ type status.
          (weight_lem (λ count. 1) type status (live t db), figure_lem type status (live t db)),
      λ status.
          three (figure_lem passport status (live t db)) (figure_lem residence status (live t db))
            (figure_lem badge status (live t db))
          ∙ count_by_type status (live t db)
          ∙ sym (by_status status),
    )
  where
    three : {a b c x y z : ℕ} → a ≡ x → b ≡ y → c ≡ z → a + (b + c) ≡ x + (y + z)
    three e f g = λ i. e i + (f i + g i)
