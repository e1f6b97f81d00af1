-- ===== src/Dashboard/Window.antt =====
-- The window of `getExpiringDocuments`: texts compared with texts, against the calendar days until a
-- date.
use employee_compliance_saas.Common.{
  ℕ, ◌+◌, ◌/◌, ◌≤◌, ◌≡◌, refl, ap, Bool, false, ◌&&◌, Option, none, some, List, [], ◌∷◌, leb, ◌==◌,
  is_none, or_default, keep, arith, String, All,
}
use mathlib.Core.Option
use employee_compliance_saas.Common.Exec.{ok}
use employee_compliance_saas.Common.Int.{ℤ, pos, sub_ℕ}
use employee_compliance_saas.Common.Text.{codes}
use employee_compliance_saas.Calendar.{
  civil_of_day, to_utc_date_string, ms_per_day, calendar_days_until, text,
}
use employee_compliance_saas.Calendar.Reading.{read_back}
use employee_compliance_saas.Database.Schema.{Uuid, Instant, DocumentType, DocumentRow, Db}
use employee_compliance_saas.Listing.{page_of}
use employee_compliance_saas.Dashboard.Expiring.{
  ExpiringDocumentsParams, is_between, is_wanted_type, is_in_window, get_expiring_documents,
}
use employee_compliance_saas.Dashboard.Texts.{printed_days}

-- `calendarDaysUntil` is from 0 to `most`.
abbrev pub is_due_within : ℕ → Option ℤ → Bool
is_due_within most (some (pos days)) = leb days most
is_due_within most _ = false

-- The calendar days from an instant until a date, where there is one.
abbrev pub days_until : Option String → Instant → Option ℤ
days_until none now = none
days_until (some s) now = calendar_days_until (text s) now

-- A date as the program prints one, up to the year 9999.
abbrev pub IsPrinted : Option String → Type 0
IsPrinted none = Unit
IsPrinted (some s) =
    (instant : Instant) × (codes s ≡ to_utc_date_string instant)
    × ((civil_of_day (instant / ms_per_day)).year ≤ 9999)

-- The last day of the window is `most` days after the first one, and its year is at most 9999.
pub record IsWindow (most : ℕ) (first last : Instant) : Type 0 where
  pub days : last / ms_per_day ≡ first / ms_per_day + most
  pub first_year : (civil_of_day (first / ms_per_day)).year ≤ 9999
  pub last_year : (civil_of_day (last / ms_per_day)).year ≤ 9999

between_days :
    (x a most : ℕ) → (leb a x && leb x (a + most)) ≡ is_due_within most (some (sub_ℕ x a))
between_days x a most = ground arith

is_between_lem :
    (most : ℕ) (first last : Instant) (date : Option String)
    → IsWindow most first last
    → IsPrinted date
    → is_between (to_utc_date_string first) (to_utc_date_string last) (Option.map codes date)
      ≡ is_due_within most (days_until date first)
is_between_lem most first last none w h = refl
is_between_lem most first last (some s) w (instant, printed, year) =
    let x = instant / ms_per_day in
    let a = first / ms_per_day in
    rw
      (
        printed,
        printed_days first instant w.first_year year,
        printed_days instant last year w.last_year,
        w.days,
        read_back s instant first printed year,
      )
      (between_days x a most)

-- A live document of the tenant that expires within the window, and has the wanted type.
abbrev pub is_due : Uuid → ℕ → Option DocumentType → Instant → DocumentRow → Bool
is_due t most wanted clock d =
    ((d.tenant_id == t && is_none d.deleted_at)
      && is_due_within most (days_until d.expiry_date clock))
    && is_wanted_type wanted d.doc_type

keep-same :
    (p q : DocumentRow → Bool) (P : DocumentRow → Type 0) (ds : List DocumentRow)
    → ((d : DocumentRow) → P d → p d ≡ q d)
    → All P ds
    → keep p ds ≡ keep q ds
keep-same p q P [] h k = refl
keep-same p q P (d ∷ ds) h (pd, k) = ground (arith, h d pd, keep-same p q P ds h k)

module _ (add_days : Instant → ℕ → Instant) (order : List DocumentRow → List DocumentRow) (t : Uuid)
    (clock clock' : Instant) (params : ExpiringDocumentsParams) where
  abbrev pub window : ℕ
  window = or_default params.within_days 30

  in_window :
      (d : DocumentRow)
      → IsWindow window clock (add_days clock' window)
      → IsPrinted d.expiry_date
      → (d.tenant_id == t && is_in_window add_days order t clock clock' params d)
        ≡ is_due t window params.doc_type clock d
  in_window d w h =
      ground (arith, is_between_lem window clock (add_days clock' window) d.expiry_date w h)

  -- The list of expiring documents is a page of exactly the tenant's live documents of the wanted
  -- type for which `calendarDaysUntil` gives from 0 to `withinDays` (30 if it is not given), and it
  -- writes nothing. The conditions: `addDays` has added that many UTC days to today's, the dates in the
  -- table are printed as the program prints them, from 1970 on, and no year is over 9999.
  pub expiring_documents_lem :
      (now : Instant) (db : Db)
      → IsWindow window clock (add_days clock' window)
      → All (λ d. IsPrinted d.expiry_date) db.documents
      → get_expiring_documents add_days order t clock clock' params now db ≡ (
        ok (
            page_of params.page params.limit order
              (keep (is_due t window params.doc_type clock) db.documents)),
        db,
      )
  unfolding get_expiring_documents
  expiring_documents_lem now db w h =
      ap (λ rows. (ok (page_of params.page params.limit order rows), db))
        (keep-same (λ d. d.tenant_id == t && is_in_window add_days order t clock clock' params d)
          (is_due t window params.doc_type clock) (λ d. IsPrinted d.expiry_date) db.documents
          (λ d k. in_window d w k) h)
