-- ===== src/Dashboard.antt =====
-- The compliance summary: `getSummary` of apps/api/src/dashboard/dashboard.service.ts.
pub mod Expiring
pub mod Texts
pub mod Window
pub mod Figures
use employee_compliance_saas.Common.{
  ℕ, ◌+◌, suc, ◌≡◌, refl, ap, ◌∙◌, Bool, true, not, ◌&&◌, ◌⊎◌, some_is, List, [], ◌∷◌, ◌++◌, arith,
  ◌==◌, if◌then◌else◌, is_none, length, keep, Bool-cases, inl, inr,
}
use employee_compliance_saas.Common.Exec.{ok, Exec, pure, ◌>>=◌, ◌>>◌}
use employee_compliance_saas.Database.Schema.{
  Uuid, Instant, ExpiryStatus, valid, expiring_soon, renewal_in_progress, exception, expired,
  blocked, same_status, DocumentRow, Db,
}
use employee_compliance_saas.Database.Keys.{keep-congr}
use employee_compliance_saas.Database.Session.{
  Session, transaction, set_tenant_context, select_documents,
}

abbrev pub is_live : Uuid → DocumentRow → Bool
is_live tenant d = d.tenant_id == tenant && is_none d.deleted_at

abbrev pub count_of : ExpiryStatus → List DocumentRow → ℕ
count_of status ds = length (keep (λ d. same_status d.expiry_status status) ds)

-- `Object.values(ExpiryStatus)`
abbrev pub all_expiry_statuses : List ExpiryStatus
all_expiry_statuses =
    valid ∷ expiring_soon ∷ renewal_in_progress ∷ exception ∷ expired ∷ blocked ∷ []

abbrev pub group : ExpiryStatus → ℕ → List (ExpiryStatus × ℕ)
group status n = if n == 0 then [] else (status, n) ∷ []

abbrev pub groups : List ExpiryStatus → List DocumentRow → List (ExpiryStatus × ℕ)
groups [] ds = []
groups (status ∷ rest) ds = group status (count_of status ds) ++ groups rest ds

-- `GROUP BY expiry_status`: one row for each status that occurs.
abbrev pub group_by_status : List DocumentRow → List (ExpiryStatus × ℕ)
group_by_status ds = groups all_expiry_statuses ds

pub record DashboardSummary : Type 0 where
  pub total_documents : ℕ
  pub by_status : ExpiryStatus → ℕ

-- `byStatus[row.expiryStatus] = row.count; totalDocuments += row.count`
abbrev add_row : DashboardSummary → ExpiryStatus × ℕ → DashboardSummary
add_row summary (status, n) = record {
  total_documents = summary.total_documents + n;
  by_status = λ other. if same_status other status then n else summary.by_status other;
}

abbrev pub add_rows : DashboardSummary → List (ExpiryStatus × ℕ) → DashboardSummary
add_rows summary [] = summary
add_rows summary (row ∷ rows) = add_rows (add_row summary row) rows

abbrev pub empty_summary : DashboardSummary
empty_summary = record { total_documents = 0; by_status = λ status. 0 }

summary_in : Uuid → Exec Session DashboardSummary
summary_in tenant = do
  rows ← select_documents (is_live tenant)
  pure (add_rows empty_summary (group_by_status rows))

unfoldable pub get_summary : Uuid → Instant → Exec Db DashboardSummary
unfolding summary_in
get_summary tenant now = transaction now (set_tenant_context tenant >> summary_in tenant)

-- A document of the tenant that is not archived.
abbrev pub is_kept : Uuid → DocumentRow → Bool
is_kept t d = d.tenant_id == t && is_none d.deleted_at

-- The tenant's live documents.
abbrev pub live : Uuid → Db → List DocumentRow
live t db = keep (is_kept t) db.documents

-- They are what the queries select.
pub selected :
    (t : Uuid) (db : Db) → keep (λ d. d.tenant_id == t && is_live t d) db.documents ≡ live t db
selected t db =
    keep-congr (λ d. d.tenant_id == t && is_live t d) (is_kept t) db.documents (λ d. ground arith)

-- The counts that the groups of some statuses add to a summary.
abbrev total_of : List ExpiryStatus → List DocumentRow → ℕ
total_of [] ds = 0
total_of (status ∷ rest) ds = count_of status ds + total_of rest ds

add_rows-append :
    (summary : DashboardSummary) (xs ys : List (ExpiryStatus × ℕ))
    → add_rows summary (xs ++ ys) ≡ add_rows (add_rows summary xs) ys
add_rows-append summary [] ys = refl
add_rows-append summary (x ∷ xs) ys = add_rows-append (add_row summary x) xs ys

add_group-total :
    (summary : DashboardSummary) (status : ExpiryStatus) (n : ℕ)
    → (add_rows summary (group status n)).total_documents ≡ summary.total_documents + n
add_group-total summary status n = ground arith

add_groups-total :
    (summary : DashboardSummary) (statuses : List ExpiryStatus) (ds : List DocumentRow)
    → (add_rows summary (groups statuses ds)).total_documents
      ≡ summary.total_documents + total_of statuses ds
add_groups-total summary [] ds = omega arith
add_groups-total summary (status ∷ rest) ds =
    rw
      (
        add_rows-append summary (group status (count_of status ds)) (groups rest ds),
        add_groups-total (add_rows summary (group status (count_of status ds))) rest ds,
        add_group-total summary status (count_of status ds),
      )
      (omega arith)

one_more :
    (status : ExpiryStatus) (d : DocumentRow) (ds : List DocumentRow)
    → total_of all_expiry_statuses ds ≡ length ds
    → total_of all_expiry_statuses (record d { expiry_status = status } ∷ ds) ≡ suc (length ds)
one_more valid d ds h = omega (arith, h)
one_more expiring_soon d ds h = omega (arith, h)
one_more renewal_in_progress d ds h = omega (arith, h)
one_more exception d ds h = omega (arith, h)
one_more expired d ds h = omega (arith, h)
one_more blocked d ds h = omega (arith, h)

total_of-all : (ds : List DocumentRow) → total_of all_expiry_statuses ds ≡ length ds
total_of-all [] = refl
total_of-all (d ∷ ds) = one_more d.expiry_status d ds (total_of-all ds)

same_status-eq :
    (a b : ExpiryStatus)
    → same_status a b ≡ true
    → (ds : List DocumentRow) → count_of b ds ≡ count_of a ds
same_status-eq a b h [] = refl
same_status-eq a b h (d ∷ ds) = ground (arith, h, same_status-eq a b h ds)

add_group-by_status :
    (summary : DashboardSummary) (status other : ExpiryStatus) (n : ℕ)
    → (add_rows summary (group status n)).by_status other
      ≡ (if same_status other status && not (n == 0) then n else summary.by_status other)
add_group-by_status summary status other n = ground arith

add_groups-by_status :
    (summary : DashboardSummary) (statuses : List ExpiryStatus) (ds : List DocumentRow)
    (other : ExpiryStatus)
    → (summary.by_status other ≡ 0) ⊎ (summary.by_status other ≡ count_of other ds)
    → (add_rows summary (groups statuses ds)).by_status other ≡ (
        if some_is (same_status other) statuses then count_of other ds else summary.by_status other)
add_groups-by_status summary [] ds other h = refl
add_groups-by_status summary (status ∷ rest) ds other h =
    rw (add_rows-append summary (group status (count_of status ds)) (groups rest ds)) (
      let added = add_group-by_status summary status other (count_of status ds) in
      elim (Bool-cases (same_status other status)) [
        | inl e ↦ ground (
          arith,
          h,
          e,
          added,
          same_status-eq other status e ds,
          add_groups-by_status (add_rows summary (group status (count_of status ds))) rest ds other
              (ground (arith, h, e, added, same_status-eq other status e ds)),
        )
        | inr e ↦ ground (
          arith,
          h,
          e,
          added,
          add_groups-by_status (add_rows summary (group status (count_of status ds))) rest ds other
              (ground (arith, h, e, added)),
        )
      ])

is_listed : (status : ExpiryStatus) → some_is (same_status status) all_expiry_statuses ≡ true
is_listed valid = refl
is_listed expiring_soon = refl
is_listed renewal_in_progress = refl
is_listed exception = refl
is_listed expired = refl
is_listed blocked = refl

-- The summary counts each of the tenant's live documents once: its total is their number, its figure
-- for each of the six statuses is the number of those with that status, 0 included, and reading it
-- writes nothing.
pub get_summary_lem :
    (t : Uuid) (now : Instant) (db : Db)
    → (summary : DashboardSummary) × (get_summary t now db ≡ (ok summary, db))
      × (summary.total_documents ≡ length (live t db))
      × ((status : ExpiryStatus) → summary.by_status status ≡ count_of status (live t db))
unfolding get_summary
get_summary_lem t now db = (
  add_rows empty_summary (group_by_status (live t db)),
  ap (λ rows. (ok (add_rows empty_summary (group_by_status rows)), db)) (selected t db),
  omega (
    arith,
    add_groups-total empty_summary all_expiry_statuses (live t db),
    total_of-all (live t db),
  ),
  λ status.
      add_groups-by_status empty_summary all_expiry_statuses (live t db) status (inl refl)
      ∙ rw (is_listed status),
)
