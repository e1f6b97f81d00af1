-- ===== src/Api/Controllers.antt =====
-- The controllers of apps/api/src: each handler parses what the request carries, and hands it to a
-- service in the name of the tenant that the guards have put into the request.
use employee_compliance_saas.Common.{
  ℕ, String, Bool, ◌&&◌, Option, none, some, List, if◌then◌else◌, str_eq,
}
use employee_compliance_saas.Common.Exec.{
  bad_request, not_found, Result, ok, err, Exec, pure, throw, ◌>>=◌,
}
use employee_compliance_saas.Common.Text.{lower_ends_with}
use employee_compliance_saas.Database.Schema.{
  Uuid, Instant, EmployeeRow, DocumentRow, ImportBatchRow, NotificationPolicyRow,
}
use employee_compliance_saas.Access.{Request, sub_of, text_of, build_audit_context}
use employee_compliance_saas.Notifications.{
  NotificationPolicy, NotificationLogStats, get_or_default, update_policy, get_stats,
}
use employee_compliance_saas.Dashboard.{DashboardSummary, get_summary}
use employee_compliance_saas.Dashboard.Figures.{DocumentStatsRow, get_document_stats}
use employee_compliance_saas.Dashboard.Expiring.{get_expiring_documents}
use employee_compliance_saas.Listing.{
  FindAllResult, find_employees, find_employee, find_documents, find_documents_of_employee,
}
use employee_compliance_saas.Imports.Service.{Outside, ImportResult, find_batch}
use employee_compliance_saas.Imports.Upload.{Uploads, in_db, import_employees}
use employee_compliance_saas.Exports.{WrittenSheet, export_employees}
use employee_compliance_saas.Api.Wire.{Value, Zod, Parsed, parsed_or_throw}
use employee_compliance_saas.Api.Schemas.{
  create_employee_schema, update_employee_schema, search_schema, id_param_schema, list_schema,
  update_document_schema, create_document_schema, expiring_schema,
  update_notification_policy_schema, stats_query_schema,
}
use employee_compliance_saas.Employees
use employee_compliance_saas.Documents

-- A file of a multipart body, of at most 5 MB.
pub record UploadedFile : Type 0 where
  pub original_name : String
  pub mimetype : String
  pub content : String

-- What the controllers use and do not define, the clocks included.
pub record Server : Type 0 where
  pub out : Outside
  pub zod : Zod
  pub order_employees : List EmployeeRow → List EmployeeRow
  pub order_documents : List DocumentRow → List DocumentRow
  pub add_days : Instant → ℕ → Instant
  pub write_buffer : WrittenSheet → String
  pub clock : Instant
  pub second_clock : Instant
  pub now : Instant

-- The body of an answer under `data`, and what stands beside it.
pub data Answer : Type 0 where
  employee : EmployeeRow → Answer
  archived : Uuid × Option Instant → Answer
  employees : FindAllResult EmployeeRow → ℕ → ℕ → Uuid → Answer
  document : DocumentRow → Answer
  documents : FindAllResult DocumentRow → ℕ → ℕ → Answer
  all_documents : List DocumentRow → Answer
  summary : DashboardSummary → Answer
  document_stats : List DocumentStatsRow → Answer
  policy : NotificationPolicy → Answer
  policy_row : NotificationPolicyRow → Answer
  stats : NotificationLogStats → Answer
  import_result : ImportResult → Answer
  batch : ImportBatchRow → Answer
  workbook : String → Answer

abbrev pub attempt : {A : Type 0} → Result A → Exec Uploads A
attempt (ok a) = pure a
attempt (err e) = throw e

abbrev pub xlsx_mime_type : String
xlsx_mime_type = "application/vnd.openxmlformats-officedocument.spreadsheetml.sheet"

abbrev pub is_xlsx : UploadedFile → Bool
is_xlsx file = lower_ends_with ".xlsx" file.original_name && str_eq file.mimetype xlsx_mime_type

module _ (server : Server) where
  abbrev pub parsed : {A : Type 0} → Parsed A → Exec Uploads A
  parsed result = attempt (parsed_or_throw server.zod result)

  -- The handlers of one request, whose `tenantId` is the tenant.
  module _ (tenant : Uuid) (req : Request) where
    -- employees.controller.ts

    unfoldable pub create_employee : Value → Exec Uploads Answer
    create_employee body = do
      dto ← parsed (create_employee_schema server.zod body)
      context ← attempt (build_audit_context req)
      row ← in_db (Employees.create server.out.pg tenant server.now dto context)
      pure (employee row)

    unfoldable pub list_employees : Value → Exec Uploads Answer
    list_employees query = do
      search ← parsed (search_schema server.zod query)
      found ← in_db (
          find_employees server.out.pg server.order_employees tenant
            (record {
              q = search.filters.q;
              department = search.filters.department;
              branch = search.filters.branch;
              status = search.filters.status;
              page = some search.page;
              limit = some search.limit;
            })
            server.now)
      pure (employees found search.page search.limit tenant)

    unfoldable pub get_employee : Value → Exec Uploads Answer
    get_employee params = do
      id ← parsed (id_param_schema server.zod "id" params)
      row ← in_db (find_employee tenant id server.now)
      pure (employee row)

    unfoldable pub update_employee : Value → Value → Exec Uploads Answer
    update_employee params body = do
      id ← parsed (id_param_schema server.zod "id" params)
      dto ← parsed (update_employee_schema server.zod body)
      context ← attempt (build_audit_context req)
      row ← in_db (Employees.update server.out.pg tenant server.now id dto context)
      pure (employee row)

    unfoldable pub archive_employee : Value → Exec Uploads Answer
    archive_employee params = do
      id ← parsed (id_param_schema server.zod "id" params)
      context ← attempt (build_audit_context req)
      result ← in_db (Employees.archive server.out.pg tenant server.now id context)
      pure (archived result)

    -- documents.controller.ts and employee-documents.controller.ts

    unfoldable pub list_documents : Value → Exec Uploads Answer
    list_documents query = do
      search ← parsed (list_schema server.zod query)
      found ← in_db (
          find_documents server.order_documents tenant
            (record {
              doc_type = search.filters.doc_type;
              expiry_status = search.filters.expiry_status;
              page = some search.page;
              limit = some search.limit;
            })
            server.now)
      pure (documents found search.page search.limit)

    unfoldable pub update_document : Value → Value → Exec Uploads Answer
    update_document params body = do
      id ← parsed (id_param_schema server.zod "id" params)
      dto ← parsed (update_document_schema server.zod body)
      context ← attempt (build_audit_context req)
      row ← in_db (Documents.update server.out.pg tenant server.now id dto context)
      pure (document row)

    unfoldable pub archive_document : Value → Exec Uploads Answer
    archive_document params = do
      id ← parsed (id_param_schema server.zod "id" params)
      context ← attempt (build_audit_context req)
      result ← in_db (Documents.archive server.out.pg tenant server.now id context)
      pure (archived result)

    unfoldable pub create_document : Value → Value → Exec Uploads Answer
    create_document params body = do
      id ← parsed (id_param_schema server.zod "employeeId" params)
      dto ← parsed (create_document_schema server.zod body)
      context ← attempt (build_audit_context req)
      row ← in_db (Documents.create server.out.pg tenant server.now id dto context)
      pure (document row)

    unfoldable pub documents_of_employee : Value → Exec Uploads Answer
    documents_of_employee params = do
      id ← parsed (id_param_schema server.zod "employeeId" params)
      rows ← in_db (find_documents_of_employee tenant id server.now)
      pure (all_documents rows)

    -- dashboard.controller.ts

    unfoldable pub dashboard_summary : Exec Uploads Answer
    dashboard_summary = do result ← in_db (get_summary tenant server.now); pure (summary result)

    unfoldable pub dashboard_document_stats : Exec Uploads Answer
    dashboard_document_stats = do
      rows ← in_db (get_document_stats tenant server.now)
      pure (document_stats rows)

    unfoldable pub dashboard_expiring : Value → Exec Uploads Answer
    dashboard_expiring query = do
      search ← parsed (expiring_schema server.zod query)
      found ← in_db (
          get_expiring_documents server.add_days server.order_documents tenant server.clock
            server.clock
            (record {
              within_days = some search.filters.within_days;
              doc_type = search.filters.doc_type;
              page = some search.page;
              limit = some search.limit;
            })
            server.now)
      pure (documents found search.page search.limit)

    -- notification-policies.controller.ts and notification-log.controller.ts

    unfoldable pub get_policy : Exec Uploads Answer
    get_policy = do result ← in_db (get_or_default tenant server.now); pure (policy result)

    unfoldable pub change_policy : Value → Exec Uploads Answer
    change_policy body = do
      dto ← parsed (update_notification_policy_schema server.zod body)
      context ← attempt (build_audit_context req)
      row ← in_db (update_policy server.out.pg tenant server.clock dto context server.now)
      pure (policy_row row)

    unfoldable pub notification_stats : Value → Exec Uploads Answer
    notification_stats query = do
      hours ← parsed (stats_query_schema server.zod query)
      result ← in_db (get_stats tenant hours server.clock)
      pure (stats result)

    -- import-export.controller.ts

    abbrev pub import_file : UploadedFile → Exec Uploads Answer
    import_file file = do
      context ← attempt (build_audit_context req)
      result ←
          import_employees server.out tenant server.now context (text_of (sub_of req.auth))
            file.content
      pure (import_result result)

    unfoldable pub upload_employees : Option UploadedFile → Exec Uploads Answer
    upload_employees none =
        throw (bad_request "No file uploaded (expected multipart field \"file\")")
    upload_employees (some file) =
        if is_xlsx file
        then import_file file
        else throw (bad_request "Only .xlsx files are accepted")

    abbrev pub batch_or_throw : Option ImportBatchRow → Exec Uploads Answer
    batch_or_throw none = throw (not_found "Import batch not found")
    batch_or_throw (some row) = pure (batch row)

    unfoldable pub get_import_batch : Value → Exec Uploads Answer
    get_import_batch params = do
      id ← parsed (id_param_schema server.zod "id" params)
      found ← in_db (find_batch tenant id server.now)
      batch_or_throw found

    unfoldable pub download_employees : Exec Uploads Answer
    download_employees = do
      file ← in_db (export_employees server.write_buffer tenant server.now)
      pure (workbook file)
