-- ===== src/Reminders/Dispatch.antt =====
-- apps/worker/src/workers/reminder.worker.ts: the dispatch of one reminder, over a world of the
-- database and the mails that have left. A rollback takes back no mail.
pub mod Isolation
pub mod Outcome
pub mod Delivery
use Prim.Native.String
use employee_compliance_saas.Common.{
  ℕ, ◌+◌, String, Bool, true, false, not, ◌&&◌, Option, none, some, List, [], ◌∷◌, ◌++◌, ◌==◌,
  if◌then◌else◌, is_none, some_is, or_else, or_default,
}
use employee_compliance_saas.Common.Exec.{
  Exception, plain_error, pg_error, Result, ok, err, Exec, pure, throw, gets, ◌>>=◌, ◌>>◌,
}
use employee_compliance_saas.Common.Text.{is_empty, take_text}
use employee_compliance_saas.Database.Schema.{
  Uuid, Instant, EmployeeRow, DocumentType, DocumentRow, IdempotencyKey, IdempotencyKeyRow,
  NotificationPolicyRow, NotificationStatus, sent, failed, suppressed, NotificationLogRow, Db,
}
use employee_compliance_saas.Database.Session.{
  Postgres, Session, set_tenant_context, fresh_uuid, now_of, select_documents, select_employees,
  select_keys, select_notification_policies, same_key, insert_key, insert_log,
}
use employee_compliance_saas.Reminders.{ReminderJob, tenant_is_active}

pub record ReminderEmailInput : Type 0 where
  pub to : String
  pub document_id : Uuid
  pub doc_type : DocumentType
  pub days_before_expiry : ℕ
  pub email_from : Option String
  pub email_template_id : Option String

-- What a dispatcher makes of a mail: `none` when it has left, or the message of what it throws.
abbrev pub Dispatcher : Type 0
Dispatcher = ReminderEmailInput → Option String

pub record World : Type 0 where
  pub db : Db
  pub outbox : List ReminderEmailInput

-- The handler inside its transaction.
pub record Work : Type 0 where
  pub session : Session
  pub outbox : List ReminderEmailInput

abbrev pub in_work : {A : Type 0} → Work → Result A × Session → Result A × Work
in_work w (r, s) = (r, record w { session = s })

abbrev pub lift : {A : Type 0} → Exec Session A → Exec Work A
lift m w = in_work w (m w.session)

-- After a statement has failed, Postgres refuses every later one in the transaction.
abbrev pub aborted : {A : Type 0} → Result A × Work → Result A × Work
aborted (ok a, w) = (ok a, w)
aborted (err e, w) = (err (pg_error "25P02"), w)

abbrev pub email_of : List EmployeeRow → Option String
email_of [] = none
email_of (e ∷ _) = e.email

-- The left join of a document with its employee: the employee's mail address.
abbrev pub joined_email : Option Uuid → Exec Session (Option String)
joined_email none = pure none
joined_email (some employee) = do
  rows ← select_employees (λ e. e.id == employee)
  pure (email_of rows)

abbrev pub from_of : List NotificationPolicyRow → Option String
from_of [] = none
from_of (p ∷ _) = p.email_from

abbrev pub template_of : List NotificationPolicyRow → Option String
template_of [] = none
template_of (p ∷ _) = p.email_template_id

module _ (pg : Postgres) (dispatch : Dispatcher) (job : ReminderJob) where
  unfoldable pub write_log :
      Option Uuid → NotificationStatus → Option String → Exec Session NotificationLogRow
  write_log document status message = do
    id ← fresh_uuid pg
    now ← now_of
    insert_log (record {
      id = id;
      tenant_id = job.tenant_id;
      document_id = document;
      days_before_expiry = job.days_before_expiry;
      sent_at = now;
      status = status;
      error_message = message;
    })

  unfoldable pub claim_key : Exec Session IdempotencyKeyRow
  claim_key = do
    now ← now_of
    insert_key (record { key = job.idempotency_key; tenant_id = job.tenant_id; created_at = now })

  -- A SUPPRESSED entry, and the key.
  unfoldable pub suppress : Option Uuid → String → Exec Session (Unit {0})
  suppress document message = do write_log document suppressed (some message); claim_key; pure tt

  -- A SENT entry, and the key.
  unfoldable pub record_sent : Exec Session (Unit {0})
  record_sent = do write_log (some job.document_id) sent none; claim_key; pure tt

  unfoldable pub record_failed : String → Exec Session (Unit {0})
  record_failed message = do
    write_log (some job.document_id) failed (some (take_text 500 message))
    pure tt

  -- The `try`: the mail leaves, then the two rows. If one of them is refused, the transaction is
  -- aborted, and with it the FAILED entry of the `catch`.
  abbrev pub deliver : ReminderEmailInput → Option String → Exec Work (Unit {0})
  deliver mail none w = aborted (lift record_sent (record w { outbox = w.outbox ++ mail ∷ [] }))
  deliver mail (some message) w = lift (record_failed message) w

  abbrev pub mail_to : String → DocumentRow → List NotificationPolicyRow → ReminderEmailInput
  mail_to address doc policies = record {
    to = address;
    document_id = job.document_id;
    doc_type = doc.doc_type;
    days_before_expiry = job.days_before_expiry;
    email_from = from_of policies;
    email_template_id = template_of policies;
  }

  unfoldable pub send_to : DocumentRow → String → Exec Work (Unit {0})
  send_to doc address = do
    policies ← lift (select_notification_policies (λ p. p.tenant_id == job.tenant_id))
    deliver (mail_to address doc policies) (dispatch (mail_to address doc policies))

  abbrev pub address_or_suppress : DocumentRow → Option String → Exec Work (Unit {0})
  address_or_suppress doc none = lift (suppress (some job.document_id) "no_email_on_file")
  address_or_suppress doc (some address) =
      if is_empty address
      then lift (suppress (some job.document_id) "no_email_on_file")
      else send_to doc address

  abbrev pub dispatch_rows : List DocumentRow → Exec Work (Unit {0})
  dispatch_rows [] = lift (suppress none "document_not_found")
  dispatch_rows (doc ∷ _) = do
    email ← lift (joined_email doc.employee_id)
    address_or_suppress doc email

  abbrev pub is_wanted : DocumentRow → Bool
  is_wanted d = (d.id == job.document_id && d.tenant_id == job.tenant_id) && is_none d.deleted_at

  unfoldable pub dispatch_unclaimed : Exec Work (Unit {0})
  dispatch_unclaimed = do rows ← lift (select_documents is_wanted); dispatch_rows rows

  abbrev pub unless_claimed : List IdempotencyKeyRow → Exec Work (Unit {0})
  unless_claimed [] = dispatch_unclaimed
  unless_claimed (_ ∷ _) = pure tt

  unfoldable pub dispatch_active : Exec Work (Unit {0})
  dispatch_active = do
    existing ← lift (select_keys (λ k. same_key k.key job.idempotency_key))
    unless_claimed existing

  unfoldable pub handle : Exec Work (Unit {0})
  handle = do
    lift (set_tenant_context job.tenant_id)
    active ← lift (tenant_is_active job.tenant_id)
    if active then dispatch_active else throw (plain_error "Tenant not active or not found")

abbrev pub finish_work : World → Result (Unit {0}) × Work → Result (Unit {0}) × World
finish_work before (ok a, w) = (ok a, record { db = w.session.db; outbox = w.outbox })
finish_work before (err e, w) = (err e, record { db = before.db; outbox = w.outbox })

-- One `send-reminder` job whose data has passed its schema.
unfoldable pub send_reminder : Postgres → Dispatcher → Instant → ReminderJob → Exec World (Unit {0})
send_reminder pg dispatch now job world = finish_work world (
    handle pg dispatch job (record {
      session = record { db = world.db; current_tenant = none; now = now };
      outbox = world.outbox;
    }))
