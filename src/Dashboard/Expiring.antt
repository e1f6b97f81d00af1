-- ===== src/Dashboard/Expiring.antt =====
-- The documents that expire soon: `getExpiringDocuments` of apps/api/src/dashboard/dashboard.service.ts.
-- `addDays` of date-fns, which goes by the local calendar, is a parameter, as is the sort of ORDER BY.
use mathlib.Core.Option
use employee_compliance_saas.Common.{
  ℕ, Bool, true, false, ◌&&◌, ◌||◌, Option, none, some, List, [], ◌∷◌, ◌==◌, ltb, is_none,
  or_default,
}
use employee_compliance_saas.Common.Exec.{Exec, pure, ◌>>=◌, ◌>>◌}
use employee_compliance_saas.Common.Text.{codes}
use employee_compliance_saas.Calendar.{to_utc_date_string}
use employee_compliance_saas.Database.Schema.{
  Uuid, Instant, DocumentType, same_type, DocumentRow, Db,
}
use employee_compliance_saas.Database.Session.{
  Session, transaction, set_tenant_context, select_documents,
}
use employee_compliance_saas.Listing.{FindAllResult, page_of}

pub record ExpiringDocumentsParams : Type 0 where
  pub within_days : Option ℕ
  pub doc_type : Option DocumentType
  pub page : Option ℕ
  pub limit : Option ℕ

-- The order of two dates, which is that of their `YYYY-MM-DD` texts.
abbrev pub date_le : List ℕ → List ℕ → Bool
date_le [] later = true
date_le (c ∷ cs) [] = false
date_le (c ∷ cs) (d ∷ ds) = ltb c d || (c == d && date_le cs ds)

abbrev pub is_between : List ℕ → List ℕ → Option (List ℕ) → Bool
is_between first last none = false
is_between first last (some date) = date_le first date && date_le date last

abbrev pub date_of : DocumentRow → Option (List ℕ)
date_of d = Option.map codes d.expiry_date

abbrev pub is_wanted_type : Option DocumentType → DocumentType → Bool
is_wanted_type none type = true
is_wanted_type (some wanted) type = same_type type wanted

-- The conditions, with the first and the last day of the window.
abbrev pub is_expiring : Uuid → List ℕ → List ℕ → Option DocumentType → DocumentRow → Bool
is_expiring tenant today window_end wanted d =
    ((d.tenant_id == tenant && is_none d.deleted_at) && is_between today window_end (date_of d))
    && is_wanted_type wanted d.doc_type

module _ (add_days : Instant → ℕ → Instant) (order : List DocumentRow → List DocumentRow)
    (tenant : Uuid) (clock clock' : Instant) (params : ExpiringDocumentsParams) where
  abbrev pub is_in_window : DocumentRow → Bool
  is_in_window =
      is_expiring tenant (to_utc_date_string clock)
        (to_utc_date_string (add_days clock' (or_default params.within_days 30))) params.doc_type

  expiring_in : Exec Session (FindAllResult DocumentRow)
  expiring_in = do
    matches ← select_documents is_in_window
    pure (page_of params.page params.limit order matches)

  -- `clock` and `clock'` are what the two `new Date()` return, before the transaction.
  unfoldable pub get_expiring_documents : Instant → Exec Db (FindAllResult DocumentRow)
  unfolding expiring_in
  get_expiring_documents now = transaction now (set_tenant_context tenant >> expiring_in)
