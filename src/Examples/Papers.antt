-- ===== src/Examples/Papers.antt =====
-- The theorems on the Expiry Engine, the document service and the dashboard, at concrete data.
use employee_compliance_saas.Common.{◌≡◌, refl, some, if◌then◌else◌, length, All}
use employee_compliance_saas.Common.Exec.{ok, err, bad_request}
use employee_compliance_saas.Common.Int.{pos}
use employee_compliance_saas.Database.Schema.{ExpiryStatus}
use employee_compliance_saas.Expiry.{status_of_days}
use employee_compliance_saas.Expiry.Thresholds.{
  sequential_status, status_of_days-eq-sequential_status,
}
use employee_compliance_saas.Documents.{default_policy}
use employee_compliance_saas.Documents.Soundness.{IsSound, documents-IsSound}
use employee_compliance_saas.Documents.Update.{live_document, is_reasoned}
use employee_compliance_saas.Documents.Outcomes.{
  update_result, updated_document, update_document_outcome,
}
use employee_compliance_saas.Dashboard.{
  DashboardSummary, get_summary, get_summary_lem, live, count_of,
}
use employee_compliance_saas.Examples.{pg, db, noon, context, new_document_dto, renew_dto}
use employee_compliance_saas.Documents

status_of_days-eq-sequential_status_example :
    status_of_days default_policy (some (pos 30)) ≡ sequential_status default_policy 30
status_of_days-eq-sequential_status_example = status_of_days-eq-sequential_status default_policy 30

db-IsSound : All IsSound db.documents
db-IsSound =
    (record { reason = refl; started = refl }, (record { reason = refl; started = refl }, tt))

documents-IsSound_example :
    All IsSound (Documents.create pg 1 noon 20 new_document_dto context db).1.documents
    × All IsSound (Documents.update pg 1 noon 20 renew_dto context db).1.documents
    × All IsSound (Documents.archive pg 1 noon 20 context db).1.documents
documents-IsSound_example =
    documents-IsSound pg 1 noon context db db-IsSound 20 new_document_dto renew_dto
      (refl, (refl, tt))

update_document_outcome_example :
    ((Documents.update pg 1 noon 20 renew_dto context db).0 ≡ (
      if is_reasoned renew_dto
      then update_result pg 1 noon 20 renew_dto context db (live_document 1 20 db)
      else err (bad_request "exceptionReason is required when expiryStatus is EXCEPTION")))
    × (live_document 1 20 (Documents.update pg 1 noon 20 renew_dto context db).1
        ≡ updated_document pg 1 noon 20 renew_dto context db (live_document 1 20 db))
update_document_outcome_example =
    update_document_outcome pg 1 noon 20 renew_dto context db (refl, (refl, tt))

get_summary_lem_example :
    (summary : DashboardSummary) × (get_summary 1 noon db ≡ (ok summary, db))
    × (summary.total_documents ≡ length (live 1 db))
    × ((status : ExpiryStatus) → summary.by_status status ≡ count_of status (live 1 db))
get_summary_lem_example = get_summary_lem 1 noon db
