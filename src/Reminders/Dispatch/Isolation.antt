-- ===== src/Reminders/Dispatch/Isolation.antt =====
-- Tenant isolation of the handler of apps/worker/src/workers/reminder.worker.ts.
use employee_compliance_saas.Common.{
  ◌≡◌, refl, String, Option, none, some, List, [], ◌∷◌, ◌++◌, if◌then◌else◌,
}
use employee_compliance_saas.Common.Exec.{plain_error, Result, ok, err, Exec, throw, ◌>>=◌}
use employee_compliance_saas.Common.Exec.Keeps.{Keeps}
use employee_compliance_saas.Database.Schema.{
  Uuid, Instant, Db, DocumentRow, IdempotencyKeyRow, NotificationStatus,
}
use employee_compliance_saas.Database.Session.{Postgres, Session}
use employee_compliance_saas.Database.Isolation.{others, InTenant, tenant_rules}
use employee_compliance_saas.Reminders.{ReminderJob, tenant_is_active}
use employee_compliance_saas.Reminders.Dispatch.{
  World, Work, Dispatcher, ReminderEmailInput, lift, aborted, finish_work, joined_email, write_log,
  claim_key, suppress, record_sent, record_failed, deliver, send_to, address_or_suppress,
  dispatch_rows, dispatch_unclaimed, unless_claimed, dispatch_active, handle, send_reminder,
}

-- The session of the handler is the tenant's, and the other tenants' rows are those of `o`.
record WorkInTenant (t : Uuid) (o : Db) (w : Work) : Type 0 where
  inside : InTenant t o w.session

module _ {t : Uuid} {o : Db} where
  lift-WorkInTenant :
      {A : Type 0} (m : Exec Session A) → Keeps (InTenant t o) m → Keeps (WorkInTenant t o) (lift m)
  lift-WorkInTenant m k = record { at = λ w h. record { inside = k.at w.session h.inside } }

  aborted-WorkInTenant :
      {A : Type 0} (r : Result A) (w : Work)
      → WorkInTenant t o w
      → WorkInTenant t o (aborted (r, w)).1
  aborted-WorkInTenant (ok a) w h = h
  aborted-WorkInTenant (err e) w h = h

  joined_email-InTenant : (employee : Option Uuid) → Keeps (InTenant t o) (joined_email employee)
  joined_email-InTenant none = search tenant_rules depth 8
  joined_email-InTenant (some employee) = search tenant_rules depth 8

-- The handler after its first statement, which sets the tenant.
abbrev handle_in : Postgres → Dispatcher → ReminderJob → Exec Work (Unit {0})
handle_in pg dispatch job = do
  active ← lift (tenant_is_active job.tenant_id)
  if active
      then dispatch_active pg dispatch job
      else throw (plain_error "Tenant not active or not found")

module _ (pg : Postgres) (dispatch : Dispatcher) (job : ReminderJob) {o : Db} where
  write_log-InTenant :
      (document : Option Uuid) (status : NotificationStatus) (message : Option String)
      → Keeps (InTenant job.tenant_id o) (write_log pg dispatch job document status message)
  unfolding write_log
  write_log-InTenant document status message = search tenant_rules depth 12

  claim_key-InTenant : Keeps (InTenant job.tenant_id o) (claim_key pg dispatch job)
  unfolding claim_key
  claim_key-InTenant = search tenant_rules depth 12

  ruleset entry_rules = (tenant_rules, write_log-InTenant, claim_key-InTenant)

  suppress-InTenant :
      (document : Option Uuid) (message : String)
      → Keeps (InTenant job.tenant_id o) (suppress pg dispatch job document message)
  unfolding suppress
  suppress-InTenant document message = search entry_rules depth 12

  record_sent-InTenant : Keeps (InTenant job.tenant_id o) (record_sent pg dispatch job)
  unfolding record_sent
  record_sent-InTenant = search entry_rules depth 12

  record_failed-InTenant :
      (message : String) → Keeps (InTenant job.tenant_id o) (record_failed pg dispatch job message)
  unfolding record_failed
  record_failed-InTenant message = search entry_rules depth 12

  deliver-WorkInTenant :
      (mail : ReminderEmailInput) (outcome : Option String)
      → Keeps (WorkInTenant job.tenant_id o) (deliver pg dispatch job mail outcome)
  deliver-WorkInTenant mail none = record {
    at = λ w h.
        let (r, left) =
          lift (record_sent pg dispatch job) (record w { outbox = w.outbox ++ mail ∷ [] }) in
        aborted-WorkInTenant r left
          (record { inside = record_sent-InTenant.at w.session h.inside });
  }
  deliver-WorkInTenant mail (some message) =
      lift-WorkInTenant (record_failed pg dispatch job message) (record_failed-InTenant message)

  ruleset work_rules = (
    tenant_rules, lift-WorkInTenant, joined_email-InTenant, suppress-InTenant, deliver-WorkInTenant,
  )

  send_to-WorkInTenant :
      (doc : DocumentRow) (address : String)
      → Keeps (WorkInTenant job.tenant_id o) (send_to pg dispatch job doc address)
  unfolding send_to
  send_to-WorkInTenant doc address = search work_rules depth 12

  address_or_suppress-WorkInTenant :
      (doc : DocumentRow) (email : Option String)
      → Keeps (WorkInTenant job.tenant_id o) (address_or_suppress pg dispatch job doc email)
  address_or_suppress-WorkInTenant doc none = search work_rules depth 12
  address_or_suppress-WorkInTenant doc (some address) =
      search (work_rules, send_to-WorkInTenant) depth 12

  dispatch_rows-WorkInTenant :
      (rows : List DocumentRow)
      → Keeps (WorkInTenant job.tenant_id o) (dispatch_rows pg dispatch job rows)
  dispatch_rows-WorkInTenant [] = search work_rules depth 12
  dispatch_rows-WorkInTenant (doc ∷ rest) =
      search (work_rules, address_or_suppress-WorkInTenant) depth 12

  dispatch_unclaimed-WorkInTenant :
      Keeps (WorkInTenant job.tenant_id o) (dispatch_unclaimed pg dispatch job)
  unfolding dispatch_unclaimed
  dispatch_unclaimed-WorkInTenant = search (work_rules, dispatch_rows-WorkInTenant) depth 12

  unless_claimed-WorkInTenant :
      (keys : List IdempotencyKeyRow)
      → Keeps (WorkInTenant job.tenant_id o) (unless_claimed pg dispatch job keys)
  unless_claimed-WorkInTenant [] = dispatch_unclaimed-WorkInTenant
  unless_claimed-WorkInTenant (key ∷ rest) = search work_rules depth 12

  dispatch_active-WorkInTenant :
      Keeps (WorkInTenant job.tenant_id o) (dispatch_active pg dispatch job)
  unfolding dispatch_active
  dispatch_active-WorkInTenant = search (work_rules, unless_claimed-WorkInTenant) depth 12

  handle_in-WorkInTenant : Keeps (WorkInTenant job.tenant_id o) (handle_in pg dispatch job)
  handle_in-WorkInTenant = search (work_rules, dispatch_active-WorkInTenant) depth 12

finish_work-others :
    (t : Uuid) (world : World) (r : Result (Unit {0})) (w : Work)
    → WorkInTenant t (others t world.db) w
    → others t (finish_work world (r, w)).1.db ≡ others t world.db
finish_work-others t world (ok a) w h = h.inside.unchanged
finish_work-others t world (err e) w h = refl

-- A reminder job changes no row of another tenant in any table, whatever the dispatcher does with
-- the mail, and whether or not the job fails.
pub reminder_isolated :
    (pg : Postgres) (dispatch : Dispatcher) (now : Instant) (job : ReminderJob) (world : World)
    → others job.tenant_id (send_reminder pg dispatch now job world).1.db
      ≡ others job.tenant_id world.db
unfolding send_reminder handle
reminder_isolated pg dispatch now job world =
    let w : Work = record {
      session = record { db = world.db; current_tenant = some job.tenant_id; now = now };
      outbox = world.outbox;
    } in
    let (r, left) = handle_in pg dispatch job w in
    finish_work-others job.tenant_id world r left (
      (handle_in-WorkInTenant pg dispatch job).at w
        (record { inside = record { context = refl; unchanged = refl } }))
