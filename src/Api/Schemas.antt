-- ===== src/Api/Schemas.antt =====
-- The zod schemas of the controllers of apps/api/src.
use employee_compliance_saas.Common.{ℕ, String, Option, none, some, List, [], ◌∷◌}
use employee_compliance_saas.Database.Schema.{
  Uuid, EmployeeStatus, DocumentType, passport, residence, badge, ExpiryStatus, valid,
  expiring_soon, expired, blocked,
}
use employee_compliance_saas.Employees.{CreateEmployeeDto, UpdateEmployeeDto}
use employee_compliance_saas.Documents.{CreateDocumentDto, UpdateDocumentDto, ManualStatus}
use employee_compliance_saas.Notifications.{UpdateNotificationPolicyDto}
use employee_compliance_saas.Api.Wire.{
  Value, Zod, Parsed, good, ◌<*>◌, Check, field, object_of, text_between, text_that, uuid_text,
  one_of, coerced, number_between, flag, optional, defaulting, array_between,
}

abbrev pub document_types : List (String × DocumentType)
document_types = ("passport", passport) ∷ ("residence", residence) ∷ ("badge", badge) ∷ []

abbrev pub expiry_statuses : List (String × ExpiryStatus)
expiry_statuses =
    ("VALID", valid)
    ∷ ("EXPIRING_SOON", expiring_soon)
    ∷ ("RENEWAL_IN_PROGRESS", ExpiryStatus.renewal_in_progress)
    ∷ ("EXCEPTION", ExpiryStatus.exception)
    ∷ ("EXPIRED", expired)
    ∷ ("BLOCKED", blocked)
    ∷ []

-- The two statuses of a search.
abbrev pub searched_statuses : List (String × EmployeeStatus)
searched_statuses = ("active", EmployeeStatus.active) ∷ ("suspended", EmployeeStatus.suspended) ∷ []

abbrev pub manual_statuses : List (String × ManualStatus)
manual_statuses =
    ("RENEWAL_IN_PROGRESS", ManualStatus.renewal_in_progress)
    ∷ ("EXCEPTION", ManualStatus.exception)
    ∷ []

-- The page of a list, and what it is filtered by.
pub record Paged (Filters : Type 0) : Type 0 where
  pub filters : Filters
  pub page : ℕ
  pub limit : ℕ

pub record EmployeeFilters : Type 0 where
  pub q : Option String
  pub department : Option String
  pub branch : Option String
  pub status : Option EmployeeStatus

pub record DocumentFilters : Type 0 where
  pub doc_type : Option DocumentType
  pub expiry_status : Option ExpiryStatus

pub record ExpiringFilters : Type 0 where
  pub within_days : ℕ
  pub doc_type : Option DocumentType

module _ (zod : Zod) where
  abbrev pub email : Check String
  email = text_that zod.is_email

  abbrev pub date_text : Check String
  date_text = text_that zod.is_date

  -- `z.string().max(128).optional()`
  abbrev pub short : Check (Option String)
  short = optional (text_between 0 128)

  abbrev pub page_number : Check ℕ
  page_number = defaulting 1 (coerced zod 1 none)

  abbrev pub page_limit : Check ℕ
  page_limit = defaulting 20 (coerced zod 1 (some 100))

  unfoldable pub create_employee_schema : Value → Parsed CreateEmployeeDto
  create_employee_schema = object_of (λ given.
      good (λ employee_code first_name last_name mail department job_title branch officer. record {
        employee_code = employee_code;
        first_name = first_name;
        last_name = last_name;
        email = mail;
        department = department;
        job_title = job_title;
        branch = branch;
        responsible_officer_id = officer;
      })
      <*> field "employeeCode" (text_between 1 64) given
      <*> field "firstName" (text_between 1 128) given
      <*> field "lastName" (text_between 1 128) given
      <*> field "email" (optional email) given
      <*> field "department" short given
      <*> field "jobTitle" short given
      <*> field "branch" short given
      <*> field "responsibleOfficerId" short given)

  unfoldable pub update_employee_schema : Value → Parsed UpdateEmployeeDto
  update_employee_schema = object_of (λ given.
      good (λ first_name last_name mail department job_title branch officer version. record {
        first_name = first_name;
        last_name = last_name;
        email = mail;
        department = department;
        job_title = job_title;
        branch = branch;
        responsible_officer_id = officer;
        version = version;
      })
      <*> field "firstName" (optional (text_between 1 128)) given
      <*> field "lastName" (optional (text_between 1 128)) given
      <*> field "email" (optional email) given
      <*> field "department" short given
      <*> field "jobTitle" short given
      <*> field "branch" short given
      <*> field "responsibleOfficerId" short given
      <*> field "version" (coerced zod 1 none) given)

  unfoldable pub search_schema : Value → Parsed (Paged EmployeeFilters)
  search_schema = object_of (λ given.
      good (λ q department branch status page limit. record {
        filters = record { q = q; department = department; branch = branch; status = status };
        page = page;
        limit = limit;
      })
      <*> field "q" (optional (text_between 0 256)) given
      <*> field "department" short given
      <*> field "branch" short given
      <*> field "status" (optional (one_of searched_statuses)) given
      <*> field "page" page_number given
      <*> field "limit" page_limit given)

  -- `z.object({ id: z.string().uuid() })`, with the name of the parameter.
  unfoldable pub id_param_schema : String → Value → Parsed Uuid
  id_param_schema name = object_of (λ given. good (λ id. id) <*> field name (uuid_text zod) given)

  unfoldable pub list_schema : Value → Parsed (Paged DocumentFilters)
  list_schema = object_of (λ given.
      good (λ doc_type status page limit. record {
        filters = record { doc_type = doc_type; expiry_status = status };
        page = page;
        limit = limit;
      })
      <*> field "docType" (optional (one_of document_types)) given
      <*> field "expiryStatus" (optional (one_of expiry_statuses)) given
      <*> field "page" page_number given
      <*> field "limit" page_limit given)

  unfoldable pub update_document_schema : Value → Parsed UpdateDocumentDto
  update_document_schema = object_of (λ given.
      good (λ doc_number issue expiry status reason version. record {
        doc_number = doc_number;
        issue_date = issue;
        expiry_date = expiry;
        expiry_status = status;
        exception_reason = reason;
        version = version;
      })
      <*> field "docNumber" (optional (text_between 1 128)) given
      <*> field "issueDate" (optional date_text) given
      <*> field "expiryDate" (optional date_text) given
      <*> field "expiryStatus" (optional (one_of manual_statuses)) given
      <*> field "exceptionReason" (optional (text_between 1 512)) given
      <*> field "version" (coerced zod 1 none) given)

  unfoldable pub create_document_schema : Value → Parsed CreateDocumentDto
  create_document_schema = object_of (λ given.
      good (λ doc_type doc_number issue expiry. record {
        doc_type = doc_type;
        doc_number = doc_number;
        issue_date = issue;
        expiry_date = expiry;
      })
      <*> field "docType" (one_of document_types) given
      <*> field "docNumber" (text_between 1 128) given
      <*> field "issueDate" (optional date_text) given
      <*> field "expiryDate" (optional date_text) given)

  unfoldable pub expiring_schema : Value → Parsed (Paged ExpiringFilters)
  expiring_schema = object_of (λ given.
      good (λ days doc_type page limit. record {
        filters = record { within_days = days; doc_type = doc_type };
        page = page;
        limit = limit;
      })
      <*> field "withinDays" (defaulting 30 (coerced zod 1 (some 365))) given
      <*> field "docType" (optional (one_of document_types)) given
      <*> field "page" page_number given
      <*> field "limit" page_limit given)

  unfoldable pub update_notification_policy_schema : Value → Parsed UpdateNotificationPolicyDto
  update_notification_policy_schema = object_of (λ given.
      good (λ days mail template enabled. record {
        reminder_days_before = days;
        email_from = mail;
        email_template_id = template;
        enabled = enabled;
      })
      <*> field "reminderDaysBefore" (optional (array_between 1 10 (number_between 1 3650))) given
      <*> field "emailFrom" (optional email) given
      <*> field "emailTemplateId" (optional (text_between 1 128)) given
      <*> field "enabled" (optional flag) given)

  unfoldable pub stats_query_schema : Value → Parsed ℕ
  stats_query_schema = object_of (λ given.
      good (λ hours. hours)
      <*> field "windowHours" (defaulting 24 (coerced zod 1 (some 720))) given)
