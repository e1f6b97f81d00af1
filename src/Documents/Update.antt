-- ===== src/Documents/Update.antt =====
-- What updating a document does, on every branch.
use employee_compliance_saas.Common.{
  ℕ, ◌≡◌, ◌≢◌, refl, ap, ◌∙◌, Bool, true, false, not, ◌&&◌, Option, none, some, List, [], ◌∷◌,
  head?, arith, ◌==◌, is_none, or_else, keep, inl, inr, Bool-cases, ==_iff,
}
use employee_compliance_saas.Common.Exec.{Result, ok, err, bad_request, not_found, conflict}
use employee_compliance_saas.Database.Schema.{
  Uuid, Instant, Db, DocumentRow, DocumentType, ExpiryStatus, ExpiryPolicy, same_status, same_type,
  document_updated,
}
use employee_compliance_saas.Database.Record.{document_state}
use employee_compliance_saas.Database.Table.{select, set_row, update}
use employee_compliance_saas.Database.Keys.{Unique, keep-one, keep-guarded, keep-map, head-nil}
use employee_compliance_saas.Database.Session.{Postgres, Session, update_documents, transaction}
use employee_compliance_saas.Audit.{AuditContext, Entry, log}
use employee_compliance_saas.Audit.Write.{frame, frame-log, log_ok}
use employee_compliance_saas.Expiry.{calculate_status}
use employee_compliance_saas.Documents.{
  UpdateDocumentDto, ManualStatus, to_status, policy_or_default, is_live_document, is_exception,
  is_falsy, set_document, override_reason, entry, next_status, log_status_change, update_in,
}
use employee_compliance_saas.Documents

-- The tenant's policy for a type of document, or the default.
abbrev pub policy_of : Uuid → DocumentType → Db → ExpiryPolicy
policy_of t type db = policy_or_default (
    select (λ r. r.tenant_id) (some t) (λ p. p.tenant_id == t && same_type p.doc_type type)
      db.expiry_policies)

-- The status that an update of a document gives it: the override, or else the engine's.
abbrev pub planned_status :
    Uuid → Instant → Db → DocumentRow → UpdateDocumentDto → Option ManualStatus → ExpiryStatus
planned_status t now db before dto (some manual) = to_status manual
planned_status t now db before dto none =
    calculate_status (or_else dto.expiry_date before.expiry_date) (policy_of t before.doc_type db)
      before.expiry_status now

-- The document that a tenant finds under an id.
abbrev pub live_document : Uuid → Uuid → Db → Option DocumentRow
live_document t id db =
    head? (select (λ r. r.tenant_id) (some t) (is_live_document id) db.documents)

module _ (pg : Postgres) (t : Uuid) (now : Instant) (id : Uuid) (dto : UpdateDocumentDto)
    (context : AuditContext) (db : Db) where
  abbrev pub start : Session
  start = record { db = db; current_tenant = some t; now = now }

  next_status-start :
      (before : DocumentRow) (m : Option ManualStatus)
      → next_status pg t before dto m start ≡ (ok (planned_status t now db before dto m), start)
  unfolding next_status
  next_status-start before none = refl
  next_status-start before (some manual) = refl

  log_status_change_ok :
      (before after : DocumentRow) (s : Session)
      → (log_status_change pg t context id before after s
          ≡ (ok tt, (log_status_change pg t context id before after s).1))
        × (frame (log_status_change pg t context id before after s).1 ≡ frame s)
  unfolding log_status_change
  log_status_change_ok before after s =
      elim (Bool-cases (same_status before.expiry_status after.expiry_status)) [
        | inl e ↦ rw e (refl, refl)
        | inr e ↦ rw e (log_ok pg _ s, frame-log pg _ s)
      ]

abbrev pub same_document : DocumentRow → DocumentRow → Bool
same_document a b = a.id == b.id

module _ (t id : Uuid) where
  abbrev pub found : DocumentRow → Bool
  found d = d.tenant_id == t && is_live_document id d

  -- With unique ids the row that is read is the only one.
  pub only_row :
      (rows : List DocumentRow) (before : DocumentRow)
      → Unique same_document rows
      → head? (keep found rows) ≡ some before
      → (keep found rows ≡ before ∷ []) × (found before ≡ true)
  only_row rows before u h = elim (keep-one same_document found rows (λ x y p q. ground arith) u) [
    | inl e ↦ absurd (cc)
    | inr (x, e, fx) ↦ ground (arith, e, fx)
  ]

  matched_rows :
      (v : ℕ) (rows : List DocumentRow)
      → keep
          (λ d. d.tenant_id == t && ((d.id == id && d.version == v) && is_none d.deleted_at))
          rows
        ≡ keep (λ d. d.version == v) (keep found rows)
  matched_rows v rows =
      keep-guarded (λ d. d.tenant_id == t) (λ d. d.id == id) (λ d. d.version == v)
        (λ d. is_none d.deleted_at) rows

-- `update` accepts what it is given: an exception comes with a reason.
abbrev pub is_reasoned : UpdateDocumentDto → Bool
is_reasoned dto = not (is_exception dto.expiry_status && is_falsy dto.exception_reason)

module _ (pg : Postgres) (t : Uuid) (now : Instant) (id : Uuid) (dto : UpdateDocumentDto)
    (context : AuditContext) (db : Db) where
  pub update_unreasoned :
      is_reasoned dto ≡ false
      → Documents.update pg t now id dto context db
        ≡ (err (bad_request "exceptionReason is required when expiryStatus is EXCEPTION"), db)
  unfolding Documents.update
  update_unreasoned h = ground arith

  -- An accepted update is the transaction.
  update_reasoned :
      is_reasoned dto ≡ true
      → Documents.update pg t now id dto context db
        ≡ transaction now
            (λ s. update_in pg t id dto context (record s { current_tenant = some t }))
            db
  unfolding Documents.update
  update_reasoned h =
      elim (Bool-cases (is_exception dto.expiry_status && is_falsy dto.exception_reason)) [
        | inl e ↦ absurd (ground arith)
        | inr e ↦ rw e
      ]

  pub update_missing :
      is_reasoned dto ≡ true
      → keep (found t id) db.documents ≡ []
      → Documents.update pg t now id dto context db ≡ (err (not_found "Document not found"), db)
  unfolding update_in
  update_missing h e = rw (update_reasoned h, e)

  abbrev pub after_update : DocumentRow → DocumentRow → DocumentRow
  after_update before =
      set_document before dto (planned_status t now db before dto dto.expiry_status) now

  pub update_stale :
      (before : DocumentRow)
      → is_reasoned dto ≡ true
      → keep (found t id) db.documents ≡ before ∷ []
      → (before.version == dto.version) ≡ false
      → Documents.update pg t now id dto context db
        ≡ (err (conflict "Document was modified by another request" "version_mismatch"), db)
  unfolding update_in update_documents
  update_stale before h e v = rw (
    update_reasoned h,
    e,
    next_status-start pg t now id dto context db before dto.expiry_status,
    matched_rows t id dto.version db.documents,
    e,
    v,
  )

  -- The sessions after the UPDATE, after the first event and after the second.
  abbrev pub updated : DocumentRow → Session
  updated before = record {
    db = record db {
      documents =
          update (λ r. r.tenant_id) (some t)
            (λ d. (d.id == id && d.version == dto.version) && is_none d.deleted_at)
            (after_update before) db.documents;
    };
    current_tenant = some t;
    now = now;
  }

  abbrev pub updated_entry : DocumentRow → Entry
  updated_entry before =
      entry context document_updated id (some (document_state before))
        (document_state (after_update before before)) (override_reason dto dto.expiry_status)

  abbrev pub logged : DocumentRow → Session
  logged before = (log pg (updated_entry before) (updated before)).1

  abbrev pub logged_change : DocumentRow → Session
  logged_change before =
      (log_status_change pg t context id before (after_update before before) (logged before)).1

  pub update_fresh :
      (before : DocumentRow)
      → is_reasoned dto ≡ true
      → keep (found t id) db.documents ≡ before ∷ []
      → (before.version == dto.version) ≡ true
      → Documents.update pg t now id dto context db
        ≡ (ok (after_update before before), (logged_change before).db)
  unfolding update_in update_documents
  update_fresh before h e v = rw (
    update_reasoned h,
    e,
    next_status-start pg t now id dto context db before dto.expiry_status,
    matched_rows t id dto.version db.documents,
    e,
    v,
    log_ok,
    (log_status_change_ok pg t now id dto context db before (after_update before before)
        (logged before)).0,
  )

  pub documents-logged :
      (before : DocumentRow) → (logged_change before).db.documents ≡ (updated before).db.documents
  documents-logged before =
      ap (λ (s : Session). s.db.documents)
        ((log_status_change_ok pg t now id dto context db before (after_update before before)
            (logged before)).1
          ∙ frame-log pg (updated_entry before) (updated before))

  found_after :
      (before : DocumentRow)
      → keep (found t id) db.documents ≡ before ∷ []
      → (before.version == dto.version) ≡ true
      → found t id before ≡ true
      → keep (found t id) (logged_change before).db.documents ≡ after_update before before ∷ []
  found_after before e v f = rw documents-logged (
      keep-map (found t id)
        (set_row (λ r. r.tenant_id) (some t)
          (λ d. (d.id == id && d.version == dto.version) && is_none d.deleted_at)
          (after_update before))
        db.documents (λ d. ground arith)
      ∙ rw e (ground (arith, f)))

  -- What an update that is accepted does to a document whose id is unique. Where the tenant finds
  -- none it throws the not-found exception, and where it finds one of another version than the
  -- caller's it throws the version conflict; both leave the database as it was. With the caller's
  -- version it returns that row with the changes merged, the planned status and the version one up,
  -- and that row is what the tenant finds afterwards. An exception without a reason is refused, with
  -- the database as it was.
  pub update_outcome :
      Unique same_document db.documents
      → (is_reasoned dto ≡ false
          → Documents.update pg t now id dto context db
            ≡ (err (bad_request "exceptionReason is required when expiryStatus is EXCEPTION"), db))
        × (is_reasoned dto ≡ true
            → live_document t id db ≡ none
            → Documents.update pg t now id dto context db
              ≡ (err (not_found "Document not found"), db))
        × ((before : DocumentRow)
            → is_reasoned dto ≡ true
            → live_document t id db ≡ some before
            → before.version ≢ dto.version
            → Documents.update pg t now id dto context db
              ≡ (err (conflict "Document was modified by another request" "version_mismatch"), db))
        × ((before : DocumentRow)
            → is_reasoned dto ≡ true
            → live_document t id db ≡ some before
            → before.version ≡ dto.version
            → ((Documents.update pg t now id dto context db).0 ≡ ok (after_update before before))
              × (live_document t id (Documents.update pg t now id dto context db).1
                  ≡ some (after_update before before)))
  update_outcome u = (
    update_unreasoned,
    λ h n. update_missing h (head-nil (keep (found t id) db.documents) n),
    λ before h n v.
        update_stale before h (only_row t id db.documents before u n).0 (differs before v),
    λ before h n v.
        let (e, f) = only_row t id db.documents before u n in
        let same : (before.version == dto.version) ≡ true = (==_iff _ _).1 v in
        let done = update_fresh before h e same in
        (
          ap (λ (r : Result DocumentRow × Db). r.0) done,
          ap (λ (r : Result DocumentRow × Db). live_document t id r.1) done
              ∙ ap head? (found_after before e same f),
        ),
  )
    where
      differs :
          (before : DocumentRow)
          → before.version ≢ dto.version
          → (before.version == dto.version) ≡ false
      differs before v = ground arith
