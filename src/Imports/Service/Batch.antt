-- ===== src/Imports/Service/Batch.antt =====
-- The two transactions on the batch of an import.
use employee_compliance_saas.Common.{
  ℕ, ◌+◌, ◌≡◌, refl, ap, ◌∙◌, String, Bool, true, false, not, ◌&&◌, some, List, [], ◌∷◌, ◌++◌, map,
  arith, ◌==◌, str_eq, keep, keep-append, some_is,
}
use employee_compliance_saas.Common.Exec.{ok}
use employee_compliance_saas.Database.Schema.{Uuid, Instant, Db, ImportBatchRow}
use employee_compliance_saas.Database.Table.{is_visible, set_row, update}
use employee_compliance_saas.Database.Keys.{keep-map}
use employee_compliance_saas.Database.Session.{
  Session, finish, insert_unless, refused_by, tenant_missing, same_batch, insert_batch,
  update_batches,
}
use employee_compliance_saas.Audit.{AuditContext, log}
use employee_compliance_saas.Audit.Write.{frame-log, log_ok}
use employee_compliance_saas.Imports.Service.{
  Outside, same_hash, new_batch, set_completed, completed_entry, insert_new_batch, complete_batch,
}

inserted :
    (hidden clash dangling : Bool) (before after : Db) (row b : ImportBatchRow) (s : Session)
    → (finish before (insert_unless (refused_by hidden clash dangling) after row s)).0 ≡ ok b
    → (row ≡ b)
      × (clash ≡ false)
      × ((finish before (insert_unless (refused_by hidden clash dangling) after row s)).1 ≡ after)
inserted true clash dangling before after row b s h = cc
inserted false true dangling before after row b s h = cc
inserted false false true before after row b s h = cc
inserted false false false before after row b s h = (cc, refl, refl)

unmatched :
    (t : Uuid) (b : ImportBatchRow) (bs : List ImportBatchRow)
    → some_is (same_batch b) bs ≡ false
    → keep (λ x. x.tenant_id == t && x.import_batch_id == b.import_batch_id) bs ≡ []
unmatched t b [] h = refl
unmatched t b (x ∷ bs) h = ground (arith, unmatched t b bs)

module _ (out : Outside) (t : Uuid) (now : Instant) (context : AuditContext) where
  -- The row that a successful INSERT returns, and the table afterwards.
  pub insert_new_batch_ok :
      (total : ℕ) (hash actor : String) (db : Db) (b : ImportBatchRow)
      → (insert_new_batch out t now context total hash actor db).0 ≡ ok b
      → (new_batch out t now context (out.pg.gen_random_uuid db.draws) total hash actor ≡ b)
        × (some_is (same_batch b) db.import_batches ≡ false)
        × ((insert_new_batch out t now context total hash actor db).1.import_batches
            ≡ db.import_batches ++ b ∷ [])
  unfolding insert_new_batch insert_batch
  insert_new_batch_ok total hash actor db b h =
      let row : ImportBatchRow =
        new_batch out t now context (out.pg.gen_random_uuid db.draws) total hash actor in
      let drawn : Db = record db { draws = db.draws + 1 } in
      let s : Session = record { db = drawn; current_tenant = some t; now = now } in
      let (e, fresh, after) =
        inserted (not (is_visible (some t) t)) (some_is (same_batch row) db.import_batches)
          (tenant_missing t s) db (record drawn { import_batches = db.import_batches ++ row ∷ [] })
          row b s h in
      (e, rw (← e) fresh, rw after (ap (λ x. db.import_batches ++ x ∷ []) e))

  abbrev completed_db : ImportBatchRow → ℕ → ℕ → Db → Db
  completed_db b processed error_rows db = record db {
    import_batches =
        update (λ x. x.tenant_id) (some t) (λ x. x.import_batch_id == b.import_batch_id)
          (set_completed out t now context processed error_rows) db.import_batches;
  }

  abbrev completed_session : ImportBatchRow → ℕ → ℕ → Db → Session
  completed_session b processed error_rows db = record {
    db = completed_db b processed error_rows db;
    current_tenant = some t;
    now = now;
  }

  -- The completion writes the figures into the row, and the event into the trail.
  complete_batch_lem :
      (b : ImportBatchRow) (total processed error_rows : ℕ) (db : Db)
      → complete_batch out t now context b total processed error_rows db ≡ (
        ok (
            map (set_completed out t now context processed error_rows) (
              keep
                (λ x. x.tenant_id == t && x.import_batch_id == b.import_batch_id)
                db.import_batches)),
        (log out.pg
            (completed_entry out t now context b total processed error_rows)
            (completed_session b processed error_rows db)).1.db,
      )
  unfolding complete_batch update_batches
  complete_batch_lem b total processed error_rows db = rw log_ok

  -- The new row is the one that the completion returns, and then the only one with the hash.
  pub complete_new_batch :
      (b : ImportBatchRow) (hash : String) (total processed error_rows : ℕ)
      (bs : List ImportBatchRow) (db : Db)
      → b.tenant_id ≡ t
      → str_eq b.file_hash hash ≡ true
      → some_is (same_batch b) bs ≡ false
      → keep (λ x. x.tenant_id == t && same_hash out t now context hash x) bs ≡ []
      → db.import_batches ≡ bs ++ b ∷ []
      → ((complete_batch out t now context b total processed error_rows db).0
          ≡ ok (set_completed out t now context processed error_rows b ∷ []))
        × (keep
              (λ x. x.tenant_id == t && same_hash out t now context hash x)
              (complete_batch out t now context b total processed error_rows db).1.import_batches
            ≡ set_completed out t now context processed error_rows b ∷ [])
  complete_new_batch b hash total processed error_rows bs db own hashed fresh new added =
      rw (complete_batch_lem b total processed error_rows db) (
        rw
            (
              added,
              keep-append (λ x. x.tenant_id == t && x.import_batch_id == b.import_batch_id) bs
                  (b ∷ []),
              unmatched t b bs fresh,
            )
            (ground (arith, own)),
        ap (λ (s : Session). keep found s.db.import_batches)
              (frame-log out.pg (completed_entry out t now context b total processed error_rows)
                (completed_session b processed error_rows db))
            ∙ rw added (
                keep-map found
                  (set_row (λ x. x.tenant_id) (some t) (λ x. x.import_batch_id == b.import_batch_id)
                    (set_completed out t now context processed error_rows))
                  (bs ++ b ∷ []) (λ x. ground arith)
                ∙ rw (keep-append found bs (b ∷ []), new) (ground (arith, own, hashed))),
      )
    where
      found : ImportBatchRow → Bool
      found x = x.tenant_id == t && same_hash out t now context hash x
