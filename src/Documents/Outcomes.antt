-- ===== src/Documents/Outcomes.antt =====
-- What an update of a document returns and leaves, on every branch.
use employee_compliance_saas.Common.{
  ◌≡◌, refl, false, ◌&&◌, Option, none, some, arith, ◌==◌, if◌then◌else◌, Bool-cases, Option-cases,
  inl, inr, ==_iff,
}
use native.Mathlib.Decide.{ℕ_discrete}
use employee_compliance_saas.Common.Exec.{Result, ok, err, not_found, conflict, bad_request}
use employee_compliance_saas.Database.Schema.{Uuid, Instant, Db, DocumentRow}
use employee_compliance_saas.Database.Keys.{Unique}
use employee_compliance_saas.Database.Session.{Postgres}
use employee_compliance_saas.Audit.{AuditContext}
use employee_compliance_saas.Documents.{UpdateDocumentDto}
use employee_compliance_saas.Documents.Update.{
  live_document, same_document, is_reasoned, after_update, update_outcome,
}
use employee_compliance_saas.Documents

module _ (pg : Postgres) (t : Uuid) (now : Instant) (id : Uuid) (dto : UpdateDocumentDto)
    (context : AuditContext) (db : Db) where
  abbrev pub update_result : Option DocumentRow → Result DocumentRow
  update_result none = err (not_found "Document not found")
  update_result (some before) =
      if before.version == dto.version
      then ok (after_update pg t now id dto context db before before)
      else err (conflict "Document was modified by another request" "version_mismatch")

  abbrev pub updated_document : Option DocumentRow → Option DocumentRow
  updated_document none = none
  updated_document (some before) = some (
      if is_reasoned dto && before.version == dto.version
      then after_update pg t now id dto context db before before
      else before)

  -- What an update of a document with a unique id does. An EXCEPTION without a reason is refused. Else
  -- it throws the not-found exception where the tenant finds none under the id, and the version conflict
  -- where it finds one of another version than the caller's. With the caller's version it returns that
  -- row with the changes merged, the planned status and the version one up. The tenant finds the
  -- returned row afterwards, or, after a throw, what it found before.
  pub update_document_outcome :
      Unique same_document db.documents
      → ((Documents.update pg t now id dto context db).0 ≡ (
          if is_reasoned dto
          then update_result (live_document t id db)
          else err (bad_request "exceptionReason is required when expiryStatus is EXCEPTION")))
        × (live_document t id (Documents.update pg t now id dto context db).1
            ≡ updated_document (live_document t id db))
  update_document_outcome u =
      let (unreasoned, missing, stale, fresh) = update_outcome pg t now id dto context db u in
      elim (Bool-cases (is_reasoned dto)) [
        | inr r ↦ rw (r, unreasoned r) (refl, unchanged r (live_document t id db))
        | inl r ↦ elim (Option-cases (live_document t id db)) [
          | inl e ↦ rw (r, e, missing r e, e) (refl, refl)
          | inr (before, e) ↦ elim (ℕ_discrete before.version dto.version) [
            | no p ↦ rw (r, e, stale before r e p, e) (ground (arith, p), ground (arith, p))
            | yes p ↦ rw (r, e, r, (==_iff before.version dto.version).1 p) (fresh before r e p)
          ]
        ]
      ]
    where
      unchanged :
          is_reasoned dto ≡ false → (found : Option DocumentRow) → found ≡ updated_document found
      unchanged r none = refl
      unchanged r (some before) = rw r
