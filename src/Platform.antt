-- ===== src/Platform.antt =====
-- The platform as a whole: the calls of the services of apps/api/src that write, and the jobs of
-- apps/worker/src/workers, one after the other in any order, in the name of any tenant.
use employee_compliance_saas.Common.{
  ◌≡◌, ◌≢◌, refl, ◌∙◌, sym, ap, String, List, [], ◌∷◌, arith, ◌==◌, keep, All,
}
use employee_compliance_saas.Database.Schema.{Uuid, Instant, Db}
use employee_compliance_saas.Database.Table.{outside}
use employee_compliance_saas.Database.Isolation.{others}
use employee_compliance_saas.Audit.{AuditContext}
use employee_compliance_saas.Employees.{CreateEmployeeDto, UpdateEmployeeDto}
use employee_compliance_saas.Documents.{CreateDocumentDto, UpdateDocumentDto}
use employee_compliance_saas.Notifications.{UpdateNotificationPolicyDto, update_policy}
use employee_compliance_saas.Notifications.Isolation.{others-update_policy}
use employee_compliance_saas.Reminders.{ReminderJob}
use employee_compliance_saas.Reminders.Dispatch.{
  World, Dispatcher, ReminderEmailInput, send_reminder,
}
use employee_compliance_saas.Reminders.Dispatch.Isolation.{reminder_isolated}
use employee_compliance_saas.Imports.{ImportJob, process_import}
use employee_compliance_saas.Imports.Isolation.{others-process_import}
use employee_compliance_saas.Imports.Service.{Outside}
use employee_compliance_saas.Imports.Upload.{Uploads, import_employees}
use employee_compliance_saas.Imports.Upload.Isolation.{import_isolated}
use employee_compliance_saas.Employees
use employee_compliance_saas.Documents

-- The database, the mails that have left, and the queue of completion jobs.
pub record Platform : Type 0 where
  pub db : Db
  pub outbox : List ReminderEmailInput
  pub queue : List ImportJob

abbrev pub with_world : Platform → World → Platform
with_world s w = record s { db = w.db; outbox = w.outbox }

abbrev pub with_uploads : Platform → Uploads → Platform
with_uploads s u = record s { db = u.db; queue = u.queue }

-- A call of a service, in the name of the tenant of its audit context, or a job.
pub data Call : Type 0 where
  create_employee : Instant → AuditContext → CreateEmployeeDto → Call
  update_employee : Instant → AuditContext → Uuid → UpdateEmployeeDto → Call
  archive_employee : Instant → AuditContext → Uuid → Call
  create_document : Instant → AuditContext → Uuid → CreateDocumentDto → Call
  update_document : Instant → AuditContext → Uuid → UpdateDocumentDto → Call
  archive_document : Instant → AuditContext → Uuid → Call
  change_settings : Instant → Instant → AuditContext → UpdateNotificationPolicyDto → Call
  upload_employees : Instant → AuditContext → String → String → Call
  run_reminder : Instant → Dispatcher → ReminderJob → Call
  run_import : Instant → ImportJob → Call

abbrev pub tenant_of : Call → Uuid
tenant_of (create_employee now context dto) = context.tenant_id
tenant_of (update_employee now context id dto) = context.tenant_id
tenant_of (archive_employee now context id) = context.tenant_id
tenant_of (create_document now context employee dto) = context.tenant_id
tenant_of (update_document now context id dto) = context.tenant_id
tenant_of (archive_document now context id) = context.tenant_id
tenant_of (change_settings now clock context dto) = context.tenant_id
tenant_of (upload_employees now context actor file) = context.tenant_id
tenant_of (run_reminder now dispatch job) = job.tenant_id
tenant_of (run_import now job) = job.tenant_id

module _ (out : Outside) where
  unfoldable pub step : Call → Platform → Platform
  step (create_employee now context dto) s = record s {
    db = (Employees.create out.pg context.tenant_id now dto context s.db).1;
  }
  step (update_employee now context id dto) s = record s {
    db = (Employees.update out.pg context.tenant_id now id dto context s.db).1;
  }
  step (archive_employee now context id) s = record s {
    db = (Employees.archive out.pg context.tenant_id now id context s.db).1;
  }
  step (create_document now context employee dto) s = record s {
    db = (Documents.create out.pg context.tenant_id now employee dto context s.db).1;
  }
  step (update_document now context id dto) s = record s {
    db = (Documents.update out.pg context.tenant_id now id dto context s.db).1;
  }
  step (archive_document now context id) s = record s {
    db = (Documents.archive out.pg context.tenant_id now id context s.db).1;
  }
  step (change_settings now clock context dto) s = record s {
    db = (update_policy out.pg context.tenant_id clock dto context now s.db).1;
  }
  step (upload_employees now context actor file) s =
      with_uploads s
        (import_employees out context.tenant_id now context actor file
          (record { db = s.db; queue = s.queue })).1
  step (run_reminder now dispatch job) s =
      with_world s
        (send_reminder out.pg dispatch now job (record { db = s.db; outbox = s.outbox })).1
  step (run_import now job) s = record s { db = (process_import now job s.db).1 }

  -- The calls and jobs one after the other.
  unfoldable pub run : List Call → Platform → Platform
  run [] s = s
  run (call ∷ calls) s = run calls (step call s)

-- What a database holds of the tenant `t`.
abbrev pub holdings : Uuid → Db → Db
holdings t db = record {
  tenants = db.tenants;
  employees = keep (λ r. r.tenant_id == t) db.employees;
  documents = keep (λ r. r.tenant_id == t) db.documents;
  expiry_policies = keep (λ r. r.tenant_id == t) db.expiry_policies;
  audit_events = keep (λ r. r.tenant_id == t) db.audit_events;
  idempotency_keys = keep (λ r. r.tenant_id == t) db.idempotency_keys;
  notification_policies = keep (λ r. r.tenant_id == t) db.notification_policies;
  notification_log = keep (λ r. r.tenant_id == t) db.notification_log;
  import_batches = keep (λ r. r.tenant_id == t) db.import_batches;
  draws = 0;
}

step-others :
    (out : Outside) (call : Call) (s : Platform)
    → others (tenant_of call) (step out call s).db ≡ others (tenant_of call) s.db
unfolding step
step-others out (create_employee now context dto) s =
    Employees.Isolation.others-create out.pg context.tenant_id now context refl dto s.db
step-others out (update_employee now context id dto) s =
    Employees.Isolation.others-update out.pg context.tenant_id now context refl id dto s.db
step-others out (archive_employee now context id) s =
    Employees.Isolation.others-archive out.pg context.tenant_id now context refl id s.db
step-others out (create_document now context employee dto) s =
    Documents.Isolation.others-create out.pg context.tenant_id now context refl employee dto s.db
step-others out (update_document now context id dto) s =
    Documents.Isolation.others-update out.pg context.tenant_id now context refl id dto s.db
step-others out (archive_document now context id) s =
    Documents.Isolation.others-archive out.pg context.tenant_id now context refl id s.db
step-others out (change_settings now clock context dto) s =
    others-update_policy out.pg context.tenant_id clock dto context refl now s.db
step-others out (upload_employees now context actor file) s =
    import_isolated out context.tenant_id now context actor refl file
      (record { db = s.db; queue = s.queue })
step-others out (run_reminder now dispatch job) s =
    reminder_isolated out.pg dispatch now job (record { db = s.db; outbox = s.outbox })
step-others out (run_import now job) s = others-process_import job now s.db

keep-outside :
    {Row : Type 0} (tenant : Row → Uuid) (by t : Uuid) (rows : List Row)
    → by ≢ t
    → keep (λ r. tenant r == t) (outside tenant by rows) ≡ keep (λ r. tenant r == t) rows
keep-outside tenant by t [] h = refl
keep-outside tenant by t (x ∷ rows) h = ground (arith, keep-outside tenant by t rows h)

holdings-others : (by t : Uuid) (db : Db) → by ≢ t → holdings t (others by db) ≡ holdings t db
holdings-others by t db h = rw (
  keep-outside (λ r. r.tenant_id) by t db.employees h,
  keep-outside (λ r. r.tenant_id) by t db.documents h,
  keep-outside (λ r. r.tenant_id) by t db.expiry_policies h,
  keep-outside (λ r. r.tenant_id) by t db.audit_events h,
  keep-outside (λ r. r.tenant_id) by t db.idempotency_keys h,
  keep-outside (λ r. r.tenant_id) by t db.notification_policies h,
  keep-outside (λ r. r.tenant_id) by t db.notification_log h,
  keep-outside (λ r. r.tenant_id) by t db.import_batches h,
)

-- Whatever calls and jobs of other tenants run, in any number and order, and whether or not they
-- throw, every table holds the same rows of a tenant after them as before, and in the same order.
pub foreign_steps :
    (out : Outside) (t : Uuid) (calls : List Call) (s : Platform)
    → All (λ c. tenant_of c ≢ t) calls
    → holdings t (run out calls s).db ≡ holdings t s.db
unfolding run
foreign_steps out t [] s h = refl
foreign_steps out t (call ∷ calls) s (foreign, rest) =
    foreign_steps out t calls (step out call s) rest
    ∙ sym (holdings-others (tenant_of call) t (step out call s).db foreign)
    ∙ ap (holdings t) (step-others out call s)
    ∙ holdings-others (tenant_of call) t s.db foreign
