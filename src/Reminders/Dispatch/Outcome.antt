-- ===== src/Reminders/Dispatch/Outcome.antt =====
-- What becomes of one reminder job: the mail that leaves, the log entry, and the claim of the key.
use employee_compliance_saas.Common.{
  ◌+◌, ◌≡◌, refl, ap, ◌∙◌, String, Bool, true, false, ◌&&◌, Option, none, some, List, [], ◌∷◌, ◌++◌,
  arith, ◌==◌, if◌then◌else◌, is_none, some_is, keep, Bool-cases, inl, inr, ==_iff,
}
use employee_compliance_saas.Common.Exec.{plain_error, Result, ok, err, ◌>>=◌}
use employee_compliance_saas.Common.Text.{is_empty, take_text}
use employee_compliance_saas.Database.Schema.{
  Uuid, Instant, IdempotencyKey, IdempotencyKeyRow, TenantRow, NotificationPolicyRow, reminder,
  import, DocumentRow, NotificationStatus, sent, failed, suppressed, Db,
}
use employee_compliance_saas.Database.Table.{select}
use employee_compliance_saas.Database.Session.{Postgres, same_key, insert_log, insert_key}
use employee_compliance_saas.Reminders.{ReminderJob, is_active_tenant}
use employee_compliance_saas.Reminders.Dispatch.{
  World, Work, Dispatcher, finish_work, lift, joined_email, address_or_suppress, dispatch_rows,
  ReminderEmailInput, deliver, is_wanted, mail_to, email_of, write_log, claim_key, suppress,
  record_sent, record_failed, send_to, dispatch_unclaimed, dispatch_active, handle, send_reminder,
}

-- The tenant has the key.
abbrev pub is_claimed : Uuid → IdempotencyKey → Db → Bool
is_claimed t key db = some_is (λ k. k.tenant_id == t && same_key k.key key) db.idempotency_keys

pub keep-claimed :
    (t : Uuid) (key : IdempotencyKey) (ks : List IdempotencyKeyRow)
    → some_is (λ k. k.tenant_id == t && same_key k.key key) ks ≡ true
    → (k : IdempotencyKeyRow) × (rest : List IdempotencyKeyRow) × (keep
          (λ k. k.tenant_id == t && same_key k.key key)
          ks
        ≡ k ∷ rest)
keep-claimed t key [] h = cc
keep-claimed t key (k ∷ ks) h = elim (Bool-cases (k.tenant_id == t && same_key k.key key)) [
  | inl e ↦ (k, keep (λ k. k.tenant_id == t && same_key k.key key) ks, rw e)
  | inr e ↦ rw e (keep-claimed t key ks (ground arith))
]

pub keep-unclaimed :
    (t : Uuid) (key : IdempotencyKey) (ks : List IdempotencyKeyRow)
    → some_is (λ k. same_key k.key key) ks ≡ false
    → keep (λ k. k.tenant_id == t && same_key k.key key) ks ≡ []
keep-unclaimed t key [] h = refl
keep-unclaimed t key (k ∷ ks) h = ground (arith, keep-unclaimed t key ks)

-- A document that the tenant finds is in the table, whoever looks.
found-exists :
    (t id : Uuid) (ds : List DocumentRow) (doc : DocumentRow) (rest : List DocumentRow)
    → keep (λ d. d.tenant_id == t && ((d.id == id && d.tenant_id == t) && is_none d.deleted_at)) ds
      ≡ doc ∷ rest
    → some_is (λ d. d.id == id) ds ≡ true
found-exists t id [] doc rest h = cc
found-exists t id (d ∷ ds) doc rest h = elim (Bool-cases (d.id == id)) [
  | inl e ↦ rw e
  | inr e ↦ rw e (found-exists t id ds doc rest (ground (arith, h, e)))
]

active-exists :
    (t : Uuid) (ts : List TenantRow)
    → some_is (is_active_tenant t) ts ≡ true
    → some_is (λ x. x.id == t) ts ≡ true
active-exists t [] h = cc
active-exists t (x ∷ ts) h = elim (Bool-cases (x.id == t)) [
  | inl e ↦ rw e
  | inr e ↦ rw e (active-exists t ts (ground (arith, h, e)))
]

pub same_key_refl : (k : IdempotencyKey) → same_key k k ≡ true
same_key_refl (reminder d n) = ground arith
same_key_refl (import b) = ground arith

claimed-append :
    (t : Uuid) (k : IdempotencyKeyRow) (ks : List IdempotencyKeyRow)
    → k.tenant_id ≡ t
    → some_is (λ x. x.tenant_id == t && same_key x.key k.key) (ks ++ k ∷ []) ≡ true
claimed-append t k [] h = rw ((==_iff k.tenant_id t).1 h, same_key_refl k.key)
claimed-append t k (x ∷ ks) h = ground (arith, claimed-append t k ks h)

module _ (pg : Postgres) (dispatch : Dispatcher) (now : Instant) (job : ReminderJob)
    (world : World) where
  -- The database with one more log entry of the job.
  abbrev pub logged : Option Uuid → NotificationStatus → Option String → Db
  logged document status message = record world.db {
    notification_log =
        world.db.notification_log
        ++ record {
          id = pg.gen_random_uuid world.db.draws;
          tenant_id = job.tenant_id;
          document_id = document;
          days_before_expiry = job.days_before_expiry;
          sent_at = now;
          status = status;
          error_message = message;
        }
          ∷ [];
    draws = world.db.draws + 1;
  }

  abbrev pub key_row : IdempotencyKeyRow
  key_row = record { key = job.idempotency_key; tenant_id = job.tenant_id; created_at = now }

  abbrev pub claimed : Db → Db
  claimed db = record db { idempotency_keys = db.idempotency_keys ++ key_row ∷ [] }

  abbrev pub attempted : ReminderEmailInput → Option String → World
  attempted mail none = record {
    db = claimed (logged (some job.document_id) sent none);
    outbox = world.outbox ++ mail ∷ [];
  }
  attempted mail (some message) = record {
    db = logged (some job.document_id) failed (some (take_text 500 message));
    outbox = world.outbox;
  }

  abbrev pub unaddressed : World
  unaddressed = record {
    db = claimed (logged (some job.document_id) suppressed (some "no_email_on_file"));
    outbox = world.outbox;
  }

  abbrev pub policies : List NotificationPolicyRow
  policies =
      select (λ p. p.tenant_id) (some job.tenant_id) (λ p. p.tenant_id == job.tenant_id)
        world.db.notification_policies

  abbrev pub addressed : DocumentRow → Option String → World
  addressed doc none = unaddressed
  addressed doc (some address) =
      if is_empty address
      then unaddressed
      else attempted (mail_to pg dispatch job address doc policies)
          (dispatch (mail_to pg dispatch job address doc policies))

  abbrev pub address_of : DocumentRow → Option Uuid → Option String
  address_of doc none = none
  address_of doc (some employee) =
      email_of
        (select (λ e. e.tenant_id) (some job.tenant_id) (λ e. e.id == employee) world.db.employees)

  -- The world after an unclaimed job, from the live documents under its id.
  abbrev pub attended : List DocumentRow → World
  attended [] = record {
    db = claimed (logged none suppressed (some "document_not_found"));
    outbox = world.outbox;
  }
  attended (doc ∷ _) = addressed doc (address_of doc doc.employee_id)

  abbrev pub wanted : List DocumentRow
  wanted =
      select (λ d. d.tenant_id) (some job.tenant_id) (is_wanted pg dispatch job) world.db.documents

  -- The result and the world that one job should have.
  abbrev pub due_outcome : Result (Unit {0}) × World
  due_outcome =
      if some_is (is_active_tenant job.tenant_id) world.db.tenants
      then (
        ok tt,
        if is_claimed job.tenant_id job.idempotency_key world.db then world else attended wanted,
      )
      else (err (plain_error "Tenant not active or not found"), world)

  skipped_claimed :
      some_is (is_active_tenant job.tenant_id) world.db.tenants ≡ true
      → is_claimed job.tenant_id job.idempotency_key world.db ≡ true
      → send_reminder pg dispatch now job world ≡ (ok tt, world)
  unfolding send_reminder handle dispatch_active
  skipped_claimed h k =
      let (key, rest, e) =
        keep-claimed job.tenant_id job.idempotency_key world.db.idempotency_keys k in
      rw (h, e)

  skipped_inactive :
      some_is (is_active_tenant job.tenant_id) world.db.tenants ≡ false
      → send_reminder pg dispatch now job world
        ≡ (err (plain_error "Tenant not active or not found"), world)
  unfolding send_reminder handle
  skipped_inactive h = rw h

  abbrev start : Work
  start = record {
    session = record { db = world.db; current_tenant = some job.tenant_id; now = now };
    outbox = world.outbox;
  }

  module _
      (unclaimed : some_is (λ k. same_key k.key job.idempotency_key) world.db.idempotency_keys
        ≡ false)
      (fresh : some_is (λ l. l.id == pg.gen_random_uuid world.db.draws) world.db.notification_log
        ≡ false)
      (active : some_is (is_active_tenant job.tenant_id) world.db.tenants ≡ true) where
    deliver_lem :
        (mail : ReminderEmailInput) (outcome : Option String)
        → some_is (λ d. d.id == job.document_id) world.db.documents ≡ true
        → finish_work world (deliver pg dispatch job mail outcome start)
          ≡ (ok tt, attempted mail outcome)
    unfolding record_sent record_failed write_log claim_key insert_log insert_key
    deliver_lem mail none h = rw (
      (==_iff job.tenant_id job.tenant_id).1 refl,
      fresh,
      active-exists job.tenant_id world.db.tenants active,
      h,
      (==_iff job.tenant_id job.tenant_id).1 refl,
      unclaimed,
    )
    deliver_lem mail (some message) h = rw (
      (==_iff job.tenant_id job.tenant_id).1 refl,
      fresh,
      active-exists job.tenant_id world.db.tenants active,
      h,
    )

    suppress_lem :
        some_is (λ d. d.id == job.document_id) world.db.documents ≡ true
        → finish_work world
            (lift (suppress pg dispatch job (some job.document_id) "no_email_on_file") start)
          ≡ (ok tt, unaddressed)
    unfolding suppress write_log claim_key insert_log insert_key
    suppress_lem h = rw (
      (==_iff job.tenant_id job.tenant_id).1 refl,
      fresh,
      active-exists job.tenant_id world.db.tenants active,
      h,
      (==_iff job.tenant_id job.tenant_id).1 refl,
      unclaimed,
    )

    address_lem :
        (doc : DocumentRow) (email : Option String)
        → some_is (λ d. d.id == job.document_id) world.db.documents ≡ true
        → finish_work world (address_or_suppress pg dispatch job doc email start)
          ≡ (ok tt, addressed doc email)
    unfolding send_to
    address_lem doc none h = suppress_lem h
    address_lem doc (some address) h = elim (Bool-cases (is_empty address)) [
      | inl e ↦ rw e (suppress_lem h)
      | inr e ↦ rw e (
          deliver_lem (mail_to pg dispatch job address doc policies)
            (dispatch (mail_to pg dispatch job address doc policies)) h)
    ]

    joined_email_lem :
        (doc : DocumentRow) (employee : Option Uuid)
        → some_is (λ d. d.id == job.document_id) world.db.documents ≡ true
        → finish_work world
            ((lift (joined_email employee) >>= address_or_suppress pg dispatch job doc) start)
          ≡ (ok tt, addressed doc (address_of doc employee))
    joined_email_lem doc none h = address_lem doc none h
    joined_email_lem doc (some employee) h = address_lem doc (address_of doc (some employee)) h

    dispatch_rows_lem :
        (rows : List DocumentRow)
        → wanted ≡ rows
        → finish_work world (dispatch_rows pg dispatch job rows start) ≡ (ok tt, attended rows)
    unfolding suppress write_log claim_key insert_log insert_key
    dispatch_rows_lem [] e = rw (
      (==_iff job.tenant_id job.tenant_id).1 refl,
      fresh,
      active-exists job.tenant_id world.db.tenants active,
      (==_iff job.tenant_id job.tenant_id).1 refl,
      unclaimed,
    )
    dispatch_rows_lem (doc ∷ rest) e =
        joined_email_lem doc doc.employee_id
          (found-exists job.tenant_id job.document_id world.db.documents doc rest e)

    attended_job : send_reminder pg dispatch now job world ≡ (ok tt, attended wanted)
    unfolding send_reminder handle dispatch_active dispatch_unclaimed
    attended_job =
        rw
          (
            active,
            keep-unclaimed job.tenant_id job.idempotency_key world.db.idempotency_keys unclaimed,
          )
          (dispatch_rows_lem wanted refl)

  -- What a job does on every branch, if no other tenant has its key and the id that the log entry
  -- draws is fresh. An inactive tenant: the job fails and changes nothing. A claimed key: nothing
  -- happens. No live document: a SUPPRESSED entry without a document, and the key is claimed. No mail
  -- address on file: a SUPPRESSED entry, and the key is claimed. Otherwise one mail is handed to the
  -- dispatcher: if it leaves, a SENT entry, and the key is claimed; if the dispatcher throws, a FAILED
  -- entry with the first 500 characters of the message, no mail in the outbox, and no claim.
  pub reminder_outcome :
      some_is (λ k. same_key k.key job.idempotency_key) world.db.idempotency_keys
        ≡ is_claimed job.tenant_id job.idempotency_key world.db
      → some_is (λ l. l.id == pg.gen_random_uuid world.db.draws) world.db.notification_log ≡ false
      → send_reminder pg dispatch now job world ≡ due_outcome
  reminder_outcome hk hl =
      elim (Bool-cases (some_is (is_active_tenant job.tenant_id) world.db.tenants)) [
        | inr e ↦ rw e (skipped_inactive e)
        | inl e ↦ elim (Bool-cases (is_claimed job.tenant_id job.idempotency_key world.db)) [
          | inl c ↦ rw (e, c) (skipped_claimed e c)
          | inr c ↦ rw (e, c) (attended_job (hk ∙ c) hl e)
        ]
      ]

module _ (pg : Postgres) (dispatch : Dispatcher) (now : Instant) (job : ReminderJob) (world : World)
    (takes : (mail : ReminderEmailInput) → dispatch mail ≡ none) where
  -- The same tenants, and the key is claimed.
  abbrev IsSettled : World → Type 0
  IsSettled w =
      (w.db.tenants ≡ world.db.tenants) × (is_claimed job.tenant_id job.idempotency_key w.db ≡ true)

  reclaimed :
      is_claimed job.tenant_id job.idempotency_key (claimed pg dispatch now job world world.db)
      ≡ true
  reclaimed =
      claimed-append job.tenant_id (key_row pg dispatch now job world) world.db.idempotency_keys
        refl

  attempted-IsSettled :
      (mail : ReminderEmailInput) (outcome : Option String)
      → outcome ≡ none
      → IsSettled (attempted pg dispatch now job world mail outcome)
  attempted-IsSettled mail none e = (refl, reclaimed)
  attempted-IsSettled mail (some message) e = cc

  addressed-IsSettled :
      (doc : DocumentRow) (email : Option String)
      → IsSettled (addressed pg dispatch now job world doc email)
  addressed-IsSettled doc none = (refl, reclaimed)
  addressed-IsSettled doc (some address) = elim (Bool-cases (is_empty address)) [
    | inl e ↦ rw e (refl, reclaimed)
    | inr e ↦ rw e (
        attempted-IsSettled
          (mail_to pg dispatch job address doc (policies pg dispatch now job world))
          (dispatch (mail_to pg dispatch job address doc (policies pg dispatch now job world)))
          (takes _))
  ]

  attended-IsSettled :
      (rows : List DocumentRow) → IsSettled (attended pg dispatch now job world rows)
  attended-IsSettled [] = (refl, reclaimed)
  attended-IsSettled (doc ∷ rest) =
      addressed-IsSettled doc (address_of pg dispatch now job world doc doc.employee_id)

  settled_again :
      (later : Instant) (w : World)
      → some_is (is_active_tenant job.tenant_id) world.db.tenants ≡ true
      → IsSettled w
      → send_reminder pg dispatch later job w ≡ (ok tt, w)
  settled_again later w h (e, c) =
      skipped_claimed pg dispatch later job w (ap (some_is (is_active_tenant job.tenant_id)) e ∙ h)
        c

-- If the dispatcher takes every mail, no other tenant has the key of the job, and the id that the log
-- entry of the first run draws is fresh, then running the job a second time returns what the first run
-- returned, changes nothing, and sends nothing.
pub reminder_idempotent :
    (pg : Postgres) (dispatch : Dispatcher) (now later : Instant) (job : ReminderJob)
    (world : World)
    → ((mail : ReminderEmailInput) → dispatch mail ≡ none)
    → some_is (λ k. same_key k.key job.idempotency_key) world.db.idempotency_keys
      ≡ is_claimed job.tenant_id job.idempotency_key world.db
    → some_is (λ l. l.id == pg.gen_random_uuid world.db.draws) world.db.notification_log ≡ false
    → send_reminder pg dispatch later job (send_reminder pg dispatch now job world).1
      ≡ send_reminder pg dispatch now job world
reminder_idempotent pg dispatch now later job world takes hk hl =
    rw (reminder_outcome pg dispatch now job world hk hl)
      (elim (Bool-cases (some_is (is_active_tenant job.tenant_id) world.db.tenants)) [
        | inr e ↦ rw e (skipped_inactive pg dispatch later job world e)
        | inl e ↦ elim (Bool-cases (is_claimed job.tenant_id job.idempotency_key world.db)) [
          | inl c ↦ rw (e, c) (skipped_claimed pg dispatch later job world e c)
          | inr c ↦
              rw (e, c)
                (settled_again pg dispatch now job world takes later
                  (attended pg dispatch now job world (wanted pg dispatch now job world)) e
                  (attended-IsSettled pg dispatch now job world takes
                    (wanted pg dispatch now job world)))
        ]
      ])
