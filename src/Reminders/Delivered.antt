-- ===== src/Reminders/Delivered.antt =====
-- The daily scan of a tenant and the worker together: what has become of the jobs that the scan adds,
-- once all of them have run.
use mathlib.Core.List.{append-nil, append_assoc}
use employee_compliance_saas.Common.{
  ℕ, ◌≡◌, refl, sym, ◌∙◌, true, false, none, List, [], ◌∷◌, ◌++◌, some_is, All,
}
use employee_compliance_saas.Common.Exec.{ok}
use employee_compliance_saas.Database.Schema.{Uuid, Instant, Db}
use employee_compliance_saas.Database.Session.{Postgres, same_key}
use employee_compliance_saas.Database.Keys.{Unique}
use employee_compliance_saas.Documents.Update.{same_document}
use employee_compliance_saas.Reminders.{ReminderJob, is_active_tenant, scan_tenant}
use employee_compliance_saas.Reminders.Cadence.{tenant_jobs, scan_tenant_lem}
use employee_compliance_saas.Reminders.Dispatch.{
  World, Dispatcher, ReminderEmailInput, send_reminder,
}
use employee_compliance_saas.Reminders.Dispatch.Outcome.{is_claimed}
use employee_compliance_saas.Reminders.Dispatch.Delivery.{
  mail_due, mails_due, IsFresh, IsOwn, run_jobs, Ran, send_reminder-Ran,
}
use employee_compliance_saas.Reminders.Due.{AreApart, AreActive, tenant_jobs-AreActive}

module _ (pg : Postgres) (dispatch : Dispatcher) (later : Instant)
    (takes : (mail : ReminderEmailInput) → dispatch mail ≡ none)
    (distinct : (m n : ℕ) → pg.gen_random_uuid m ≡ pg.gen_random_uuid n → m ≡ n) where
  record Delivered (jobs : List ReminderJob) (w w' : World) : Type 0 where
    outbox : w'.outbox ≡ w.outbox ++ mails_due pg dispatch later w jobs
    claimed : All (λ job. is_claimed job.tenant_id job.idempotency_key w'.db ≡ true) jobs
    still_claimed :
        (other : ReminderJob)
        → is_claimed other.tenant_id other.idempotency_key w.db ≡ true
        → is_claimed other.tenant_id other.idempotency_key w'.db ≡ true

  abbrev IsReady : Db → ReminderJob → Type 0
  IsReady db job =
      (some_is (is_active_tenant job.tenant_id) db.tenants ≡ true) × IsOwn pg dispatch later db job

  -- One job has run: the others are ready as before, and call for the same mails.
  module _ (job : ReminderJob) (w w' : World) (r : Ran pg dispatch later takes job w w') where
    others-IsReady :
        (jobs : List ReminderJob)
        → All (λ other. same_key job.idempotency_key other.idempotency_key ≡ false) jobs
        → All (IsReady w.db) jobs
        → All (IsReady w'.db) jobs
          × (mails_due pg dispatch later w' jobs ≡ mails_due pg dispatch later w jobs)
    others-IsReady [] h k = (tt, refl)
    others-IsReady (other ∷ jobs) (p, h) ((active, own), k) =
        let a = r.apart other p in
        let (ready, mails) = others-IsReady jobs h k in
        (((rw r.tenants active, a.own own), ready), rw (a.mail, mails) refl)

  run_jobs-Delivered :
      (jobs : List ReminderJob) (w : World)
      → AreApart jobs
      → All (IsReady w.db) jobs
      → IsFresh pg dispatch later w.db
      → Delivered jobs w (run_jobs pg dispatch later jobs w)
  run_jobs-Delivered [] w apart ready fresh = record {
    outbox = sym (append-nil w.outbox);
    claimed = tt;
    still_claimed = λ other h. h;
  }
  run_jobs-Delivered (job ∷ jobs) w (p, apart) ((active, own), ready) fresh =
      let w1 = (send_reminder pg dispatch later job w).1 in
      let r = send_reminder-Ran pg dispatch later takes job w distinct active own fresh in
      let (ready', mails) = others-IsReady job w w1 r jobs p ready in
      let rest = run_jobs-Delivered jobs w1 apart ready' r.fresh in
      record {
        outbox =
            rest.outbox
            ∙ rw (r.outbox, mails)
                (append_assoc w.outbox (mail_due pg dispatch later w job)
                  (mails_due pg dispatch later w jobs));
        claimed = (rest.still_claimed job r.now_claimed, rest.claimed);
        still_claimed = λ other h. rest.still_claimed other (r.still_claimed other h);
      }

  All-IsReady :
      (t : Uuid) (db : Db) (jobs : List ReminderJob)
      → AreActive t db jobs
      → All (IsOwn pg dispatch later db) jobs
      → All (IsReady db) jobs
  All-IsReady t db [] h k = tt
  All-IsReady t db (job ∷ jobs) (p, h) (q, k) = ((p, q), All-IsReady t db jobs h k)

  -- Every reminder that the scan of a tenant finds due is dealt with once the worker has run the jobs
  -- that the scan has added: the key of each is claimed; and the mails that have left meanwhile are
  -- exactly those of the jobs whose keys were not claimed, whose documents are live and whose
  -- employees have an address on file, each once and in the order of the jobs. The conditions: the
  -- dispatcher takes every mail, random uuids do not repeat, documents have unique ids, no other tenant
  -- has the key of a job.
  pub scan_delivered :
      (t : Uuid) (now : Instant) (w : World) (jobs : List ReminderJob)
      → (scan_tenant now t w.db).0 ≡ ok jobs
      → Unique same_document w.db.documents
      → IsFresh pg dispatch later w.db
      → All (IsOwn pg dispatch later w.db) jobs
      → ((run_jobs pg dispatch later jobs w).outbox
          ≡ w.outbox ++ mails_due pg dispatch later w jobs)
        × All
            (λ job.
              is_claimed job.tenant_id job.idempotency_key (run_jobs pg dispatch later jobs w).db
              ≡ true)
            jobs
  scan_delivered t now w jobs found unique fresh own =
      let same : tenant_jobs t now w.db ≡ jobs = cc (found, scan_tenant_lem t now w.db) in
      let (apart, active) = rw same at (tenant_jobs-AreActive t now w.db unique) in
      let d = run_jobs-Delivered jobs w apart (All-IsReady t w.db jobs active own) fresh in
      (d.outbox, d.claimed)
