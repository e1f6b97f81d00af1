-- ===== src/Database/Record.antt =====
-- The rows as the jsonb states that the audit trail keeps, under the property names of the source.
use employee_compliance_saas.Common.{ℕ, String, Option, none, some, [], ◌∷◌}
use employee_compliance_saas.Database.Schema.{
  EmployeeStatus, EmployeeRow, ExpiryStatus, valid, expiring_soon, renewal_in_progress, exception,
  expired, blocked, DocumentType, passport, residence, badge, DocumentRow, Json, null, text, number,
  flag, numbers, State, NotificationPolicyRow,
}

abbrev text_or_null : Option String → Json
text_or_null none = null
text_or_null (some s) = text s

abbrev number_or_null : Option ℕ → Json
number_or_null none = null
number_or_null (some n) = number n

abbrev employee_status_text : EmployeeStatus → String
employee_status_text EmployeeStatus.active = "active"
employee_status_text EmployeeStatus.suspended = "suspended"
employee_status_text EmployeeStatus.archived = "archived"

abbrev pub expiry_status_text : ExpiryStatus → String
expiry_status_text valid = "VALID"
expiry_status_text expiring_soon = "EXPIRING_SOON"
expiry_status_text renewal_in_progress = "RENEWAL_IN_PROGRESS"
expiry_status_text exception = "EXCEPTION"
expiry_status_text expired = "EXPIRED"
expiry_status_text blocked = "BLOCKED"

abbrev document_type_text : DocumentType → String
document_type_text passport = "passport"
document_type_text residence = "residence"
document_type_text badge = "badge"

unfoldable pub employee_state : EmployeeRow → State
employee_state e =
    ("id", number e.id)
    ∷ ("tenantId", number e.tenant_id)
    ∷ ("employeeCode", text e.employee_code)
    ∷ ("fullName", text e.full_name)
    ∷ ("firstName", text_or_null e.first_name)
    ∷ ("lastName", text_or_null e.last_name)
    ∷ ("email", text_or_null e.email)
    ∷ ("department", text_or_null e.department)
    ∷ ("jobTitle", text_or_null e.job_title)
    ∷ ("branch", text_or_null e.branch)
    ∷ ("responsibleOfficerId", text_or_null e.responsible_officer_id)
    ∷ ("status", text (employee_status_text e.status))
    ∷ ("createdAt", number e.created_at)
    ∷ ("version", number e.version)
    ∷ ("deletedAt", number_or_null e.deleted_at)
    ∷ []

unfoldable pub document_state : DocumentRow → State
document_state d =
    ("id", number d.id)
    ∷ ("tenantId", number d.tenant_id)
    ∷ ("employeeId", number_or_null d.employee_id)
    ∷ ("docType", text (document_type_text d.doc_type))
    ∷ ("docNumber", text d.doc_number)
    ∷ ("issueDate", text_or_null d.issue_date)
    ∷ ("expiryDate", text_or_null d.expiry_date)
    ∷ ("status", text d.status)
    ∷ ("expiryStatus", text (expiry_status_text d.expiry_status))
    ∷ ("version", number d.version)
    ∷ ("renewalStartedAt", number_or_null d.renewal_started_at)
    ∷ ("exceptionReason", text_or_null d.exception_reason)
    ∷ ("createdAt", number d.created_at)
    ∷ ("deletedAt", number_or_null d.deleted_at)
    ∷ []

unfoldable pub expiry_status_state : ExpiryStatus → State
expiry_status_state status = ("expiryStatus", text (expiry_status_text status)) ∷ []

unfoldable pub notification_policy_state : NotificationPolicyRow → State
notification_policy_state p =
    ("id", number p.id)
    ∷ ("tenantId", number p.tenant_id)
    ∷ ("reminderDaysBefore", numbers p.reminder_days_before)
    ∷ ("emailFrom", text_or_null p.email_from)
    ∷ ("emailTemplateId", text_or_null p.email_template_id)
    ∷ ("enabled", flag p.enabled)
    ∷ ("updatedAt", number p.updated_at)
    ∷ []
