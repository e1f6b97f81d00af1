-- ===== src/Examples/Upkeep.antt =====
-- The theorems on dates, figures, the exported sheet and the migrations, at concrete data.
use employee_compliance_saas.Common.{
  none, ◌*◌, keep, true, ◌<◌, ◌/◌, ℕ, ◌+◌, ◌≡◌, refl, ◌≤◌, false, String, Bool, some, List, [], ◌∷◌,
  if◌then◌else◌, ◌==◌, str_eq, arith,
}
use employee_compliance_saas.Common.Exec.{Result, ok, err, plain_error}
use employee_compliance_saas.Common.Int.{pos}
use employee_compliance_saas.Common.Text.{codes, trim}
use employee_compliance_saas.Calendar.{
  ms_per_day, text, calendar_days_until, to_utc_date_string, civil_of_day,
}
use employee_compliance_saas.Calendar.Reading.{read_back}
use employee_compliance_saas.Database.Schema.{
  DocumentType, passport, residence, badge, ExpiryStatus,
}
use employee_compliance_saas.Dashboard.{live, DashboardSummary, get_summary}
use employee_compliance_saas.Dashboard.Figures.{
  DocumentStatsRow, get_document_stats, rows_for, figure, cell_count, get_document_stats_lem,
}
use employee_compliance_saas.Listing.{page_of}
use employee_compliance_saas.Dashboard.Expiring.{ExpiringDocumentsParams, get_expiring_documents}
use employee_compliance_saas.Dashboard.Window.{IsWindow, IsPrinted, is_due, expiring_documents_lem}
use employee_compliance_saas.Imports.Service.{Outside, first_sheet, parse_workbook}
use employee_compliance_saas.Exports.{WrittenSheet, exported_sheet, export_employees}
use employee_compliance_saas.Exports.Reimport.{
  IsReadable, read_sheet, parsed_file, file_of, dtos, reimport_lem,
}
use employee_compliance_saas.Migrations.{Cluster, migrate, plan_migrations, apply_files}
use employee_compliance_saas.Migrations.Reruns.{rerun}
use employee_compliance_saas.Migrations.Resume.{Interrupted, interrupted}
use employee_compliance_saas.Documents.{default_policy}
use employee_compliance_saas.Expiry.{calculate_status}
use employee_compliance_saas.Seed.{critical, expiry_bucket_to_dates, expiry_date, Draws, seed_rows}
use employee_compliance_saas.Seed.Statuses.{seed_status}
use employee_compliance_saas.Seed.Batches.{Seeded, seed_rows_lem}
use employee_compliance_saas.Examples.{ann, db, noon}
use employee_compliance_saas.Examples.Uploading.{out}

printed : codes "2026-10-01" ≡ to_utc_date_string 1790856000000
unfolding to_utc_date_string civil_of_day
printed = refl

printed_year : (civil_of_day 20727).year ≤ 9999
unfolding civil_of_day
printed_year = omega arith

read_back_example : calendar_days_until (text "2026-10-01") noon ≡ some (pos 30)
read_back_example = read_back "2026-10-01" 1790856000000 noon printed printed_year

abbrev add_days : ℕ → ℕ → ℕ
add_days instant n = instant + n * 86400000

abbrev all_types : ExpiringDocumentsParams
all_types = record { within_days = none; doc_type = none; page = none; limit = none }

thirty_days : IsWindow 30 noon (add_days noon 30)
unfolding civil_of_day
thirty_days = record { days = refl; first_year = omega arith; last_year = omega arith }

badge-IsPrinted : IsPrinted (some "2026-10-01")
badge-IsPrinted = (1790856000000, printed, printed_year)

expiring_documents_lem_example :
    get_expiring_documents add_days (λ rows. rows) 1 noon noon all_types noon db
    ≡ (ok (page_of none none (λ rows. rows) (keep (is_due 1 30 none noon) db.documents)), db)
expiring_documents_lem_example =
    expiring_documents_lem add_days (λ rows. rows) 1 noon noon all_types noon db thirty_days
      (badge-IsPrinted, (badge-IsPrinted, tt))

get_document_stats_lem_example :
    (rows : List DocumentStatsRow) × (summary : DashboardSummary) × (get_document_stats 1 noon db
      ≡ (ok rows, db))
    × (get_summary 1 noon db ≡ (ok summary, db))
    × ((type : DocumentType) (status : ExpiryStatus)
        → (rows_for type status rows ≡ (if cell_count type status (live 1 db) == 0 then 0 else 1))
          × (figure type status rows ≡ cell_count type status (live 1 db)))
    × ((status : ExpiryStatus)
        → figure passport status rows + (figure residence status rows + figure badge status rows)
          ≡ summary.by_status status)
get_document_stats_lem_example = get_document_stats_lem 1 noon db

abbrev write_buffer : WrittenSheet → String
write_buffer sheet = "staff.xlsx"

abbrev reader : Outside
reader = record out { load = λ file. first_sheet (read_sheet (exported_sheet (ann ∷ []))) }

ann-IsReadable : IsReadable reader.is_email ann
unfolding trim
ann-IsReadable = record {
  employee_code = (refl, refl, refl);
  first_name = (refl, refl, refl);
  last_name = (refl, refl, refl);
  email = (refl, refl, refl);
  department = tt;
  job_title = tt;
  branch = tt;
  responsible_officer_id = tt;
}

reimport_lem_example :
    ((export_employees write_buffer 1 noon db).1 ≡ db)
    × (parsed_file reader (
          parse_workbook reader
            (reader.load (file_of reader (export_employees write_buffer 1 noon db).0)))
        ≡ ok (dtos reader 2 (ann ∷ [])))
reimport_lem_example =
    reimport_lem reader write_buffer 1 noon db refl (ann-IsReadable, tt) (omega arith) (omega arith)

-- A schema is the number of the files applied to it.
abbrev good_sql : String → ℕ → Result ℕ
good_sql file n = ok (n + 1)

abbrev bad_sql : String → ℕ → Result ℕ
bad_sql file n = if str_eq file "002.sql" then err (plain_error "syntax error") else ok (n + 1)

abbrev has_marker : ℕ → Bool
has_marker n = false

abbrev files : List String
files = "001.sql" ∷ "002.sql" ∷ "003.sql" ∷ []

abbrev fresh : Cluster ℕ
fresh = record { schema = 0; migrations = [] }

abbrev migrated : Cluster ℕ
migrated = record {
  schema = 3;
  migrations =
      record { filename = "001.sql"; backfilled = false }
      ∷ record { filename = "002.sql"; backfilled = false }
      ∷ record { filename = "003.sql"; backfilled = false }
      ∷ [];
}

first_run : migrate good_sql has_marker files fresh ≡ (ok tt, migrated)
unfolding migrate plan_migrations apply_files
first_run = refl

rerun_example : migrate good_sql has_marker files migrated ≡ (ok tt, migrated)
rerun_example = rerun good_sql has_marker files fresh migrated first_run

abbrev half_migrated : Cluster ℕ
half_migrated = record {
  schema = 1;
  migrations = record { filename = "001.sql"; backfilled = false } ∷ [];
}

failed_run :
    migrate bad_sql has_marker files fresh ≡ (err (plain_error "syntax error"), half_migrated)
unfolding migrate plan_migrations apply_files
failed_run = refl

interrupted_example :
    Interrupted bad_sql has_marker files fresh half_migrated (plain_error "syntax error")
interrupted_example =
    interrupted bad_sql has_marker files fresh half_migrated (plain_error "syntax error")
      (refl, (refl, (refl, tt))) failed_run

abbrev draws : Draws
draws = record {
  employee_id = λ n. 5000 + n;
  first_name = λ n. "Ann";
  last_name = λ n. "Lee";
  department = λ n. "Tools";
  job_type = λ n. "Agent";
  has_document = λ n type. true;
  document_id = λ n. 9000 + n;
  bucket = λ n. critical;
  rand_int = λ n most. 0;
  uuid_text = λ id. "u";
}

seed_rows_lem_example : Seeded draws noon 1 0 0 1200 1200 (seed_rows draws noon 1 0 1201 1200 0 0 0)
seed_rows_lem_example = seed_rows_lem draws noon 1 0 1201 1200 (omega arith)

abbrev lowest : ℕ → ℕ
lowest n = 0

lowest_below : (n : ℕ) → 1 ≤ n → lowest n < n
lowest_below n h = omega (arith, h)

-- One day from noon.
seeded_date : codes "2026-09-02" ≡ expiry_date (expiry_bucket_to_dates lowest noon critical)
unfolding expiry_bucket_to_dates to_utc_date_string civil_of_day
seeded_date = refl

seeded_year :
    (civil_of_day ((expiry_bucket_to_dates lowest noon critical).expiry_instant / ms_per_day)).year
    ≤ 9999
unfolding expiry_bucket_to_dates civil_of_day
seeded_year = omega arith

seed_status_example :
    calculate_status (some "2026-09-02") default_policy ExpiryStatus.valid 1788300000000
    ≡ (expiry_bucket_to_dates lowest noon critical).expiry_status
seed_status_example =
    seed_status lowest lowest_below noon (omega arith) critical "2026-09-02" 1788300000000
      ExpiryStatus.valid seeded_date seeded_year refl refl
