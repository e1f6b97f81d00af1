-- ===== src/Documents/Soundness.antt =====
-- What every stored document satisfies: an exception has a reason, a renewal in progress a start.
use employee_compliance_saas.Common.{
  ◌≡◌, refl, ap, String, Bool, true, false, ◌&&◌, Option, none, some, List, [], ◌∷◌, ◌++◌, arith,
  ◌==◌, if◌then◌else◌, is_none, or_else, keep, inl, inr, Bool-cases, Option-cases, All, All-append,
  All-map, All-keep,
}
use employee_compliance_saas.Common.Exec.{Exec, Exception, Result, ok, err, ◌>>◌}
use employee_compliance_saas.Common.Exec.Keeps.{Keeps, keeps_rules}
use employee_compliance_saas.Database.Schema.{
  Uuid, Instant, Db, DocumentRow, ExpiryStatus, ExpiryPolicy, same_status,
}
use employee_compliance_saas.Database.Table.{is_visible, set_row}
use employee_compliance_saas.Database.Keys.{Unique, head-nil}
use employee_compliance_saas.Database.Session.{
  Postgres, Session, finish, transaction, set_tenant_context, fresh_uuid, first_or, insert_unless,
  document_refusal, insert_document, update_documents,
}
use employee_compliance_saas.Audit.{AuditContext, Entry, log}
use employee_compliance_saas.Audit.Write.{frame-log}
use employee_compliance_saas.Expiry.{calculate_status, is_manual}
use employee_compliance_saas.Expiry.Thresholds.{calculate_status_manual}
use employee_compliance_saas.Documents.{
  CreateDocumentDto, UpdateDocumentDto, ManualStatus, to_status, is_exception, is_falsy, is_renewal,
  new_document, set_document, set_deleted, create_in, archive_in,
}
use employee_compliance_saas.Documents.Update.{
  live_document, same_document, is_reasoned, planned_status, policy_of, found, only_row,
  after_update, updated, update_unreasoned, update_missing, update_stale, update_fresh,
  documents-logged,
}
use employee_compliance_saas.Documents

-- An EXCEPTION has a reason that is not empty, and a RENEWAL_IN_PROGRESS a start.
pub record IsSound (d : DocumentRow) : Type 0 where
  pub reason :
      (same_status d.expiry_status ExpiryStatus.exception && is_falsy d.exception_reason) ≡ false
  pub started :
      (same_status d.expiry_status ExpiryStatus.renewal_in_progress && is_none d.renewal_started_at)
      ≡ false

not_manual :
    (s : ExpiryStatus)
    → is_manual s ≡ false
    → (same_status s ExpiryStatus.exception ≡ false)
      × (same_status s ExpiryStatus.renewal_in_progress ≡ false)
not_manual s h = ground arith

new_document-IsSound :
    (id : Uuid) (now : Instant) (t employee : Uuid) (dto : CreateDocumentDto) (e : Option String)
    (p : ExpiryPolicy) (today : Instant)
    → IsSound (new_document id now t employee dto (calculate_status e p ExpiryStatus.valid today))
new_document-IsSound id now t employee dto e p today =
    let (x, r) =
      not_manual (calculate_status e p ExpiryStatus.valid today)
        (calculate_status_manual e p ExpiryStatus.valid today).0 in
    record { reason = rw x refl; started = rw r refl }

-- The merged row of an accepted update is sound if the row that was read is.
after_update-IsSound :
    (t id : Uuid) (now : Instant) (dto : UpdateDocumentDto) (db : Db) (before d : DocumentRow)
    → is_reasoned dto ≡ true
    → IsSound before
    → IsSound (set_document before dto (planned_status t now db before dto dto.expiry_status) now d)
after_update-IsSound t id now dto db before d h b =
    let e = or_else dto.expiry_date before.expiry_date in
    let p = policy_of t before.doc_type db in
    let k = calculate_status_manual e p before.expiry_status now in
    record { reason = ground (arith, k, b.reason); started = ground (arith, k, b.started) }

record Sound (s : Session) : Type 0 where
  sound : All IsSound s.db.documents

insert_unless-Sound :
    (refusal : Option Exception) (after : Db) (row : DocumentRow) (s : Session)
    → Sound s
    → All IsSound after.documents
    → Sound (insert_unless refusal after row s).1
insert_unless-Sound none after row s h k = record { sound = k }
insert_unless-Sound (some x) after row s h k = h

insert_document-Sound : (row : DocumentRow) → IsSound row → Keeps Sound (insert_document row)
unfolding insert_document
insert_document-Sound row c = record {
  at = λ s h.
      insert_unless-Sound (document_refusal row s)
        (record s.db { documents = s.db.documents ++ row ∷ [] }) row s h
        (All-append IsSound s.db.documents (row ∷ []) h.sound (c, tt));
}

update_documents-Sound :
    (p : DocumentRow → Bool) (f : DocumentRow → DocumentRow)
    → ((d : DocumentRow) → IsSound d → IsSound (f d))
    → Keeps Sound (update_documents p f)
unfolding update_documents
update_documents-Sound p f k = record {
  at = λ s h. record {
    sound =
        All-map IsSound (set_row (λ r. r.tenant_id) s.current_tenant p f) s.db.documents
          (λ d. either (is_visible s.current_tenant d.tenant_id && p d) d) h.sound;
  };
}
  where
    either : (b : Bool) (d : DocumentRow) → IsSound d → IsSound (if b then f d else d)
    either true d h = k d h
    either false d h = h

set_deleted-IsSound : (now : Instant) (d : DocumentRow) → IsSound d → IsSound (set_deleted now d)
set_deleted-IsSound now d h = record { reason = h.reason; started = h.started }

fresh_uuid-Sound : (pg : Postgres) → Keeps Sound (fresh_uuid pg)
fresh_uuid-Sound pg = record { at = λ s h. record { sound = h.sound } }

log-Sound : (pg : Postgres) (e : Entry) → Keeps Sound (log pg e)
log-Sound pg e = record {
  at = λ s h. record {
    sound = rw (ap (λ (s : Session). s.db.documents) (frame-log pg e s)) h.sound;
  };
}

first_or-Sound : {A : Type 0} (e : Exception) (rows : List A) → Keeps Sound (first_or e rows)
first_or-Sound e [] = record { at = λ s h. h }
first_or-Sound e (row ∷ rows) = record { at = λ s h. h }

ruleset sound_rules = (
  keeps_rules, insert_document-Sound, new_document-IsSound, update_documents-Sound,
  set_deleted-IsSound, fresh_uuid-Sound, log-Sound, first_or-Sound,
)

transaction-Sound :
    {A : Type 0} (t : Uuid) (now : Instant) (body : Exec Session A) (db : Db)
    → Keeps Sound body
    → All IsSound db.documents
    → All IsSound (transaction now (set_tenant_context t >> body) db).1.documents
transaction-Sound t now body db k h =
    let (r, s') = body (record { db = db; current_tenant = some t; now = now }) in
    go r s' (k.at _ (record { sound = h }))
  where
    go :
        {A : Type 0} (r : Result A) (s : Session)
        → Sound s
        → All IsSound (finish db (r, s)).1.documents
    go (ok a) s k = k.sound
    go (err e) s k = h

module _ (pg : Postgres) (t : Uuid) (now : Instant) (context : AuditContext) (db : Db)
    (h : All IsSound db.documents) where
  create_in-Sound :
      (employee : Uuid) (dto : CreateDocumentDto)
      → Keeps Sound (create_in pg t employee dto context)
  unfolding create_in
  create_in-Sound employee dto = search sound_rules depth 14

  archive_in-Sound : (id : Uuid) → Keeps Sound (archive_in pg t id context)
  unfolding archive_in
  archive_in-Sound id = search sound_rules depth 14

  pub create-IsSound :
      (employee : Uuid) (dto : CreateDocumentDto)
      → All IsSound (Documents.create pg t now employee dto context db).1.documents
  unfolding Documents.create
  create-IsSound employee dto =
      transaction-Sound t now (create_in pg t employee dto context) db
        (create_in-Sound employee dto) h

  pub archive-IsSound :
      (id : Uuid) → All IsSound (Documents.archive pg t now id context db).1.documents
  unfolding Documents.archive
  archive-IsSound id =
      transaction-Sound t now (archive_in pg t id context) db (archive_in-Sound id) h

  update_accepted-IsSound :
      (id : Uuid) (dto : UpdateDocumentDto) (before : DocumentRow)
      → is_reasoned dto ≡ true
      → keep (found t id) db.documents ≡ before ∷ []
      → All IsSound (updated pg t now id dto context db before).db.documents
  update_accepted-IsSound id dto before r e =
      let b : IsSound before = (rw e at (All-keep IsSound (found t id) db.documents h)).0 in
      All-map IsSound
        (set_row (λ x. x.tenant_id) (some t)
          (λ d. (d.id == id && d.version == dto.version) && is_none d.deleted_at)
          (after_update pg t now id dto context db before))
        db.documents
        (λ d.
          either b
            (d.tenant_id == t && ((d.id == id && d.version == dto.version) && is_none d.deleted_at))
            d)
        h
    where
      either :
          IsSound before
          → (c : Bool) (d : DocumentRow) → IsSound d
          → IsSound (if c then after_update pg t now id dto context db before d else d)
      either b true d k = after_update-IsSound t id now dto db before d r b
      either b false d k = k

  pub update-IsSound :
      (id : Uuid) (dto : UpdateDocumentDto)
      → Unique same_document db.documents
      → All IsSound (Documents.update pg t now id dto context db).1.documents
  update-IsSound id dto u = elim (Bool-cases (is_reasoned dto)) [
    | inl r ↦ elim (Option-cases (live_document t id db)) [
      | inl n ↦
          rw
            (update_missing pg t now id dto context db r
              (head-nil (keep (found t id) db.documents) n))
            h
      | inr (before, n) ↦
          let (e, f) = only_row t id db.documents before u n in
          elim (Bool-cases (before.version == dto.version)) [
            | inl v ↦ rw (update_fresh pg t now id dto context db before r e v) (
                rw (documents-logged pg t now id dto context db before)
                  (update_accepted-IsSound id dto before r e))
            | inr v ↦ rw (update_stale pg t now id dto context db before r e v) h
          ]
    ]
    | inr r ↦ rw (update_unreasoned pg t now id dto context db r) h
  ]

  -- Where every document is sound and ids are unique, every document is sound after each of the three
  -- operations, whatever it is given and whether or not it throws: an EXCEPTION has a reason that is
  -- not empty, and a RENEWAL_IN_PROGRESS has a start.
  pub documents-IsSound :
      (id : Uuid) (new_dto : CreateDocumentDto) (dto : UpdateDocumentDto)
      → Unique same_document db.documents
      → All IsSound (Documents.create pg t now id new_dto context db).1.documents
        × All IsSound (Documents.update pg t now id dto context db).1.documents
        × All IsSound (Documents.archive pg t now id context db).1.documents
  documents-IsSound id new_dto dto u =
      (create-IsSound id new_dto, update-IsSound id dto u, archive-IsSound id)
