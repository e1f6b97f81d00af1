-- ===== src/Api/Reads.antt =====
-- The handlers that only read.
use employee_compliance_saas.Common.{◌≡◌, refl, ap, ◌∙◌, Option, none, some, List, [], ◌∷◌}
use employee_compliance_saas.Common.Exec.{Exception, Result, ok, err, Exec}
use employee_compliance_saas.Common.Exec.Keeps.{Keeps, keeps_rules}
use employee_compliance_saas.Database.Schema.{Uuid, Instant, Db, ImportBatchRow}
use employee_compliance_saas.Database.Session.{
  Session, transaction, finish, set_tenant_context, first_or,
}
use employee_compliance_saas.Access.{Request}
use employee_compliance_saas.Listing.{
  find_employee, find_employees, find_documents, find_documents_of_employee,
}
use employee_compliance_saas.Dashboard.{get_summary}
use employee_compliance_saas.Dashboard.Figures.{get_document_stats}
use employee_compliance_saas.Dashboard.Expiring.{get_expiring_documents}
use employee_compliance_saas.Notifications.{get_or_default, get_stats}
use employee_compliance_saas.Imports.Service.{find_batch}
use employee_compliance_saas.Exports.{export_employees}
use employee_compliance_saas.Imports.Upload.{Uploads, in_db}
use employee_compliance_saas.Api.Wire.{Value}
use employee_compliance_saas.Api.Controllers.{
  Server, attempt, get_employee, list_employees, list_documents, documents_of_employee,
  dashboard_summary, dashboard_document_stats, dashboard_expiring, get_policy, notification_stats,
  batch_or_throw, get_import_batch, download_employees,
}

-- The session has the database `db`.
pub record Reads (db : Db) (s : Session) : Type 0 where
  pub same : s.db ≡ db

-- The state is `u`.
pub record Stays (u now : Uploads) : Type 0 where
  pub same : now ≡ u

module _ {db : Db} where
  set_tenant_context-Reads : (t : Uuid) → Keeps (Reads db) (set_tenant_context t)
  set_tenant_context-Reads t = record { at = λ s h. record { same = h.same } }

  first_or-Reads : {A : Type 0} (e : Exception) (rows : List A) → Keeps (Reads db) (first_or e rows)
  first_or-Reads e [] = record { at = λ s h. h }
  first_or-Reads e (row ∷ rows) = record { at = λ s h. h }

finish-same :
    {A : Type 0} (db : Db) (r : Result A) (s : Session) → Reads db s → (finish db (r, s)).1 ≡ db
finish-same db (ok a) s h = h.same
finish-same db (err e) s h = refl

transaction-same :
    {A : Type 0} (now : Instant) (body : Exec Session A) (db : Db)
    → Keeps (Reads db) body
    → (transaction now body db).1 ≡ db
transaction-same now body db k =
    let s : Session = record { db = db; current_tenant = none; now = now } in
    let (r, after) = body s in finish-same db r after (k.at s (record { same = refl }))

module _ {u : Uploads} where
  in_db-Stays :
      {A : Type 0} (call : Exec Db A)
      → ((db : Db) → (call db).1 ≡ db)
      → Keeps (Stays u) (in_db call)
  in_db-Stays call same = record {
    at = λ v h. record { same = ap (λ db. record v { db = db }) (same v.db) ∙ h.same };
  }

  transaction-Stays :
      {A : Type 0} (now : Instant) (body : Exec Session A)
      → ((db : Db) → Keeps (Reads db) body)
      → Keeps (Stays u) (in_db (transaction now body))
  transaction-Stays now body k =
      in_db-Stays (transaction now body) (λ db. transaction-same now body db (k db))

  attempt-Stays : {A : Type 0} (r : Result A) → Keeps (Stays u) (attempt r)
  attempt-Stays (ok a) = record { at = λ v h. h }
  attempt-Stays (err e) = record { at = λ v h. h }

ruleset read_rules =
    (keeps_rules, set_tenant_context-Reads, first_or-Reads, attempt-Stays, transaction-Stays)

module _ (server : Server) (t : Uuid) (req : Request) {u : Uploads} where
  pub get_employee-Stays : (params : Value) → Keeps (Stays u) (get_employee server t req params)
  unfolding get_employee find_employee
  get_employee-Stays params = search read_rules depth 12

  pub list_employees-Stays : (query : Value) → Keeps (Stays u) (list_employees server t req query)
  unfolding list_employees find_employees
  list_employees-Stays query = search read_rules depth 12

  pub list_documents-Stays : (query : Value) → Keeps (Stays u) (list_documents server t req query)
  unfolding list_documents find_documents
  list_documents-Stays query = search read_rules depth 12

  pub documents_of_employee-Stays :
      (params : Value) → Keeps (Stays u) (documents_of_employee server t req params)
  unfolding documents_of_employee find_documents_of_employee
  documents_of_employee-Stays params = search read_rules depth 12

  pub dashboard_summary-Stays : Keeps (Stays u) (dashboard_summary server t req)
  unfolding dashboard_summary get_summary
  dashboard_summary-Stays = search read_rules depth 12

  pub dashboard_document_stats-Stays : Keeps (Stays u) (dashboard_document_stats server t req)
  unfolding dashboard_document_stats get_document_stats
  dashboard_document_stats-Stays = search read_rules depth 12

  pub dashboard_expiring-Stays :
      (query : Value) → Keeps (Stays u) (dashboard_expiring server t req query)
  unfolding dashboard_expiring get_expiring_documents
  dashboard_expiring-Stays query = search read_rules depth 12

  pub get_policy-Stays : Keeps (Stays u) (get_policy server t req)
  unfolding get_policy get_or_default
  get_policy-Stays = search read_rules depth 12

  pub notification_stats-Stays :
      (query : Value) → Keeps (Stays u) (notification_stats server t req query)
  unfolding notification_stats get_stats
  notification_stats-Stays query = search read_rules depth 12

  batch_or_throw-Stays :
      (found : Option ImportBatchRow) → Keeps (Stays u) (batch_or_throw server t req found)
  batch_or_throw-Stays none = record { at = λ v h. h }
  batch_or_throw-Stays (some row) = record { at = λ v h. h }

  pub get_import_batch-Stays :
      (params : Value) → Keeps (Stays u) (get_import_batch server t req params)
  unfolding get_import_batch find_batch
  get_import_batch-Stays params = search (read_rules, batch_or_throw-Stays) depth 12

  pub download_employees-Stays : Keeps (Stays u) (download_employees server t req)
  unfolding download_employees export_employees
  download_employees-Stays = search read_rules depth 12

-- The state after a call that keeps it.
pub kept :
    {A : Type 0} (u : Uploads) (call : Exec Uploads A) → Keeps (Stays u) call → (call u).1 ≡ u
kept u call k = (k.at u (record { same = refl })).same
