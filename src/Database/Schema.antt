-- ===== src/Database/Schema.antt =====
-- packages/database/src/schema.ts: the rows of the tables. A uuid is the 128-bit number that its
-- text stands for, and an instant the milliseconds since the epoch; a date column is the
-- `YYYY-MM-DD` text that the driver hands over.
use employee_compliance_saas.Common.{ℕ, String, Bool, Option, List, ◌==◌}

abbrev pub Uuid : Type 0
Uuid = ℕ

abbrev pub Instant : Type 0
Instant = ℕ

pub data TenantStatus : Type 0 where
  active inactive : TenantStatus

pub record TenantRow : Type 0 where
  pub id : Uuid
  pub name : String
  pub slug : String
  pub status : TenantStatus
  pub created_at : Instant

pub data EmployeeStatus : Type 0 where
  active suspended archived : EmployeeStatus

pub record EmployeeRow : Type 0 where
  pub id : Uuid
  pub tenant_id : Uuid
  pub employee_code : String
  pub full_name : String
  pub first_name : Option String
  pub last_name : Option String
  pub email : Option String
  pub department : Option String
  pub job_title : Option String
  pub branch : Option String
  pub responsible_officer_id : Option String
  pub status : EmployeeStatus
  pub created_at : Instant
  pub version : ℕ
  pub deleted_at : Option Instant

pub data ExpiryStatus : Type 0 where
  valid expiring_soon renewal_in_progress exception expired blocked : ExpiryStatus

pub data DocumentType : Type 0 where
  passport residence badge : DocumentType

pub record DocumentRow : Type 0 where
  pub id : Uuid
  pub tenant_id : Uuid
  pub employee_id : Option Uuid
  pub doc_type : DocumentType
  pub doc_number : String
  pub issue_date : Option String
  pub expiry_date : Option String
  pub status : String
  pub expiry_status : ExpiryStatus
  pub version : ℕ
  pub renewal_started_at : Option Instant
  pub exception_reason : Option String
  pub created_at : Instant
  pub deleted_at : Option Instant

-- The columns of `expiry_policies` that the Expiry Engine reads.
pub record ExpiryPolicy : Type 0 where
  pub warning_days_1 : ℕ
  pub warning_days_2 : ℕ
  pub warning_days_3 : ℕ
  pub critical_days : ℕ
  pub grace_period_days : ℕ
  pub auto_block : Bool

pub record ExpiryPolicyRow : Type 0 where
  pub id : Uuid
  pub tenant_id : Uuid
  pub doc_type : DocumentType
  pub policy : ExpiryPolicy

pub data AuditAction : Type 0 where
  employee_created employee_updated employee_archived employee_restored : AuditAction
  document_created document_updated document_archived expiry_status_changed : AuditAction
  expiry_policy_updated notification_policy_updated import_batch_completed : AuditAction

pub data AuditOutcome : Type 0 where
  success failed partial : AuditOutcome

-- The values that the program puts into a jsonb column.
pub data Json : Type 0 where
  null : Json
  text : String → Json
  number : ℕ → Json
  flag : Bool → Json
  numbers : List ℕ → Json

abbrev pub State : Type 0
State = List (String × Json)

pub record AuditEventRow : Type 0 where
  pub id : Uuid
  pub tenant_id : Uuid
  pub correlation_id : Uuid
  pub request_id : Option String
  pub actor_user_id : Option String
  pub actor_ip : Option String
  pub actor_user_agent : Option String
  pub action : AuditAction
  pub entity_type : String
  pub entity_id : Option Uuid
  pub before_state : Option State
  pub after_state : Option State
  pub outcome : AuditOutcome
  pub reason : Option String
  pub created_at : Instant

-- The two texts that are ever used as a key, `reminder:<document>:<days>` and `import:<batch>`.
pub data IdempotencyKey : Type 0 where
  reminder : Uuid → ℕ → IdempotencyKey
  import : Uuid → IdempotencyKey

pub record IdempotencyKeyRow : Type 0 where
  pub key : IdempotencyKey
  pub tenant_id : Uuid
  pub created_at : Instant

pub record NotificationPolicyRow : Type 0 where
  pub id : Uuid
  pub tenant_id : Uuid
  pub reminder_days_before : List ℕ
  pub email_from : Option String
  pub email_template_id : Option String
  pub enabled : Bool
  pub updated_at : Instant

pub data NotificationStatus : Type 0 where
  sent failed suppressed : NotificationStatus

pub record NotificationLogRow : Type 0 where
  pub id : Uuid
  pub tenant_id : Uuid
  pub document_id : Option Uuid
  pub days_before_expiry : ℕ
  pub sent_at : Instant
  pub status : NotificationStatus
  pub error_message : Option String

pub data BatchStatus : Type 0 where
  pending processing completed failed rolled_back : BatchStatus

pub record ImportBatchRow : Type 0 where
  pub import_batch_id : Uuid
  pub tenant_id : Uuid
  pub status : BatchStatus
  pub total_rows : ℕ
  pub processed_rows : ℕ
  pub error_rows : ℕ
  pub file_hash : String
  pub created_at : Instant
  pub completed_at : Option Instant
  pub created_by : Option String

-- `draws` counts the uuids that the database has generated.
pub record Db : Type 0 where
  pub tenants : List TenantRow
  pub employees : List EmployeeRow
  pub documents : List DocumentRow
  pub expiry_policies : List ExpiryPolicyRow
  pub audit_events : List AuditEventRow
  pub idempotency_keys : List IdempotencyKeyRow
  pub notification_policies : List NotificationPolicyRow
  pub notification_log : List NotificationLogRow
  pub import_batches : List ImportBatchRow
  pub draws : ℕ

-- Equality of the enumerations, by their place in the declaration.
abbrev pub status_index : ExpiryStatus → ℕ
status_index valid = 0
status_index expiring_soon = 1
status_index renewal_in_progress = 2
status_index exception = 3
status_index expired = 4
status_index blocked = 5

abbrev pub same_status : ExpiryStatus → ExpiryStatus → Bool
same_status a b = status_index a == status_index b

abbrev pub type_index : DocumentType → ℕ
type_index passport = 0
type_index residence = 1
type_index badge = 2

abbrev pub same_type : DocumentType → DocumentType → Bool
same_type a b = type_index a == type_index b

abbrev pub employee_status_index : EmployeeStatus → ℕ
employee_status_index active = 0
employee_status_index suspended = 1
employee_status_index archived = 2

abbrev pub same_employee_status : EmployeeStatus → EmployeeStatus → Bool
same_employee_status a b = employee_status_index a == employee_status_index b
