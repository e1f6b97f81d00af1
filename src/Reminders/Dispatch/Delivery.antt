-- ===== src/Reminders/Dispatch/Delivery.antt =====
-- The reminders of a scan, once the worker has run the jobs of all of them.
use mathlib.Core.List.{append-nil}
use employee_compliance_saas.Common.{
  ℕ, ◌≤◌, ◌≡◌, refl, sym, ◌∙◌, Bool, true, false, ◌&&◌, ◌||◌, Option, none, some, List, [], ◌∷◌,
  ◌++◌, arith, ◌==◌, if◌then◌else◌, some_is, Bool-cases, inl, inr, ==_iff, String,
}
use employee_compliance_saas.Common.Text.{is_empty}
use employee_compliance_saas.Database.Schema.{
  Instant, DocumentRow, IdempotencyKeyRow, NotificationStatus, sent, suppressed, Db,
}
use employee_compliance_saas.Database.Session.{Postgres, same_key}
use employee_compliance_saas.Reminders.{ReminderJob, is_active_tenant}
use employee_compliance_saas.Reminders.Dispatch.{
  World, Dispatcher, ReminderEmailInput, mail_to, send_reminder,
}
use employee_compliance_saas.Reminders.Dispatch.Outcome.{
  is_claimed, same_key_refl, claimed, logged, attempted, addressed, address_of, attended, policies,
  wanted, reminder_outcome,
}

some_is-snoc {ℓ} :
    {A : Type ℓ} (p : A → Bool) (xs : List A) (y : A)
    → some_is p (xs ++ y ∷ []) ≡ (some_is p xs || p y)
some_is-snoc p [] y = ground arith
some_is-snoc p (x ∷ xs) y = ground (arith, some_is-snoc p xs y)

owned-append :
    (job : ReminderJob) (row : IdempotencyKeyRow) (ks : List IdempotencyKeyRow)
    → same_key row.key job.idempotency_key ≡ false
    → some_is (λ k. same_key k.key job.idempotency_key) ks
      ≡ some_is (λ k. k.tenant_id == job.tenant_id && same_key k.key job.idempotency_key) ks
    → some_is (λ k. same_key k.key job.idempotency_key) (ks ++ row ∷ [])
      ≡ some_is
          (λ k. k.tenant_id == job.tenant_id && same_key k.key job.idempotency_key)
          (ks ++ row ∷ [])
owned-append job row ks h own =
    some_is-snoc (λ k. same_key k.key job.idempotency_key) ks row
    ∙ rw h (ground (arith, own))
    ∙ sym (
        some_is-snoc (λ k. k.tenant_id == job.tenant_id && same_key k.key job.idempotency_key) ks
          row)

module _ (pg : Postgres) (dispatch : Dispatcher) (later : Instant) where
  -- The mail of a document: none if no address is on file.
  abbrev pub mail_at : ReminderJob → World → DocumentRow → Option String → List ReminderEmailInput
  mail_at job w doc none = []
  mail_at job w doc (some address) =
      if is_empty address
      then []
      else mail_to pg dispatch job address doc (policies pg dispatch later job w) ∷ []

  abbrev pub mail_of : ReminderJob → World → List DocumentRow → List ReminderEmailInput
  mail_of job w [] = []
  mail_of job w (doc ∷ _) =
      mail_at job w doc (address_of pg dispatch later job w doc doc.employee_id)

  -- The mail that a job calls for: that of the live document under its id, if its key is not claimed.
  abbrev pub mail_due : World → ReminderJob → List ReminderEmailInput
  mail_due w job =
      if is_claimed job.tenant_id job.idempotency_key w.db
      then []
      else mail_of job w (wanted pg dispatch later job w)

  abbrev pub mails_due : World → List ReminderJob → List ReminderEmailInput
  mails_due w [] = []
  mails_due w (job ∷ jobs) = mail_due w job ++ mails_due w jobs

  -- No number of a draw to come gives an id of the log.
  abbrev pub IsFresh : Db → Type 0
  IsFresh db =
      (n : ℕ)
      → db.draws ≤ n
      → some_is (λ l. l.id == pg.gen_random_uuid n) db.notification_log ≡ false

  -- No other tenant has the key of the job.
  abbrev pub IsOwn : Db → ReminderJob → Type 0
  IsOwn db job =
      some_is (λ k. same_key k.key job.idempotency_key) db.idempotency_keys
      ≡ is_claimed job.tenant_id job.idempotency_key db

  -- The worker takes the jobs one after the other.
  abbrev pub run_jobs : List ReminderJob → World → World
  run_jobs [] w = w
  run_jobs (job ∷ jobs) w = run_jobs jobs (send_reminder pg dispatch later job w).1

  module _ (takes : (mail : ReminderEmailInput) → dispatch mail ≡ none) (job : ReminderJob)
      (world : World) where
    abbrev after : List ReminderEmailInput → Option ℕ → NotificationStatus → Option String → World
    after mails document status message = record {
      db =
          claimed pg dispatch later job world
            (logged pg dispatch later job world document status message);
      outbox = world.outbox ++ mails;
    }

    -- One more entry, the key, and some mails.
    record Attended (mails : List ReminderEmailInput) (w : World) : Type 0 where
      document : Option ℕ
      status : NotificationStatus
      message : Option String
      is : w ≡ after mails document status message

    no_mail :
        (document : Option ℕ) (message : Option String)
        → Attended [] (record {
          db =
              claimed pg dispatch later job world
                (logged pg dispatch later job world document suppressed message);
          outbox = world.outbox;
        })
    no_mail document message = record {
      document = document;
      status = suppressed;
      message = message;
      is = rw (append-nil world.outbox) refl;
    }

    attempted-Attended :
        (mail : ReminderEmailInput) (outcome : Option String)
        → outcome ≡ none
        → Attended (mail ∷ []) (attempted pg dispatch later job world mail outcome)
    attempted-Attended mail none e = record {
      document = some job.document_id;
      status = sent;
      message = none;
      is = refl;
    }
    attempted-Attended mail (some message) e = cc

    addressed-Attended :
        (doc : DocumentRow) (email : Option String)
        → Attended (mail_at job world doc email) (addressed pg dispatch later job world doc email)
    addressed-Attended doc none = no_mail (some job.document_id) (some "no_email_on_file")
    addressed-Attended doc (some address) = elim (Bool-cases (is_empty address)) [
      | inl e ↦ rw e (no_mail (some job.document_id) (some "no_email_on_file"))
      | inr e ↦ rw e (attempted-Attended _ _ (takes _))
    ]

    attended-Attended :
        (rows : List DocumentRow)
        → Attended (mail_of job world rows) (attended pg dispatch later job world rows)
    attended-Attended [] = no_mail none (some "document_not_found")
    attended-Attended (doc ∷ rest) =
        addressed-Attended doc (address_of pg dispatch later job world doc doc.employee_id)

    -- What a job leaves as it was for another one.
    pub record Apart (w : World) (other : ReminderJob) : Type 0 where
      pub own : IsOwn world.db other → IsOwn w.db other
      pub mail : mail_due w other ≡ mail_due world other

    pub record Ran (w : World) : Type 0 where
      pub outbox : w.outbox ≡ world.outbox ++ mail_due world job
      pub fresh : IsFresh w.db
      pub tenants : w.db.tenants ≡ world.db.tenants
      pub now_claimed : is_claimed job.tenant_id job.idempotency_key w.db ≡ true
      pub still_claimed :
          (other : ReminderJob)
          → is_claimed other.tenant_id other.idempotency_key world.db ≡ true
          → is_claimed other.tenant_id other.idempotency_key w.db ≡ true
      pub apart :
          (other : ReminderJob)
          → same_key job.idempotency_key other.idempotency_key ≡ false
          → Apart w other

    kept-Ran :
        IsFresh world.db → is_claimed job.tenant_id job.idempotency_key world.db ≡ true → Ran world
    kept-Ran fresh c = record {
      outbox = rw (c, append-nil world.outbox) refl;
      fresh = fresh;
      tenants = refl;
      now_claimed = c;
      still_claimed = λ other h. h;
      apart = λ other h. record { own = λ own. own; mail = refl };
    }

    module _ (distinct : (m n : ℕ) → pg.gen_random_uuid m ≡ pg.gen_random_uuid n → m ≡ n)
        (fresh : IsFresh world.db)
        (c : is_claimed job.tenant_id job.idempotency_key world.db ≡ false) where
      after-IsFresh :
          (mails : List ReminderEmailInput) (document : Option ℕ) (status : NotificationStatus)
          (message : Option String)
          → IsFresh (after mails document status message).db
      after-IsFresh mails document status message n h =
          let new : (pg.gen_random_uuid world.db.draws == pg.gen_random_uuid n) ≡ false =
            elim (Bool-cases (pg.gen_random_uuid world.db.draws == pg.gen_random_uuid n)) [
              | inl e ↦
                  let same =
                    distinct world.db.draws n
                      ((==_iff (pg.gen_random_uuid world.db.draws) (pg.gen_random_uuid n)).0 e) in
                  absurd (omega (arith, h, same))
              | inr e ↦ e
            ] in
          rw (some_is-snoc, fresh n (omega (arith, h)), new) refl

      after-Ran :
          (document : Option ℕ) (status : NotificationStatus) (message : Option String)
          → Ran (
              after
                (mail_of job world (wanted pg dispatch later job world))
                document
                status
                message)
      after-Ran document status message = record {
        outbox = rw c refl;
        fresh =
            after-IsFresh (mail_of job world (wanted pg dispatch later job world)) document status
              message;
        tenants = refl;
        now_claimed =
            rw
              (
                some_is-snoc,
                (==_iff job.tenant_id job.tenant_id).1 refl,
                same_key_refl job.idempotency_key,
              )
              (ground arith);
        still_claimed = λ other h. rw (some_is-snoc, h) (ground arith);
        apart = λ other h. record {
          own = owned-append other _ world.db.idempotency_keys h;
          mail = rw (some_is-snoc, h) (ground arith);
        };
      }

      attended-Ran : Ran (attended pg dispatch later job world (wanted pg dispatch later job world))
      attended-Ran =
          let a = attended-Attended (wanted pg dispatch later job world) in
          rw a.is (after-Ran a.document a.status a.message)

    pub send_reminder-Ran :
        ((m n : ℕ) → pg.gen_random_uuid m ≡ pg.gen_random_uuid n → m ≡ n)
        → some_is (is_active_tenant job.tenant_id) world.db.tenants ≡ true
        → IsOwn world.db job
        → IsFresh world.db
        → Ran (send_reminder pg dispatch later job world).1
    send_reminder-Ran distinct active own fresh =
        rw (reminder_outcome pg dispatch later job world own (fresh world.db.draws (omega arith)))
          (elim (Bool-cases (is_claimed job.tenant_id job.idempotency_key world.db)) [
            | inl c ↦ rw (active, c) (kept-Ran fresh c)
            | inr c ↦ rw (active, c) (attended-Ran distinct fresh c)
          ])
