-- ===== src/Imports/Upload/Replay.antt =====
-- Uploading a file a second time.
use employee_compliance_saas.Common.{◌≡◌, String, [], ◌∷◌}
use employee_compliance_saas.Common.Exec.{ok}
use employee_compliance_saas.Database.Schema.{Uuid, Instant, ImportBatchRow}
use employee_compliance_saas.Audit.{AuditContext}
use employee_compliance_saas.Imports.Service.{Outside, ImportResult, find_existing_batch}
use employee_compliance_saas.Imports.Upload.{Uploads, import_employees}
use employee_compliance_saas.Imports.Upload.Counts.{known, import_employees-Imported}

replayed :
    (out : Outside) (t : Uuid) (later : Instant) (other : AuditContext) (second file : String)
    (u : Uploads) (batch : ImportBatchRow)
    → known out t later other second file u u.db ≡ batch ∷ []
    → import_employees out t later other second file u
      ≡ (ok (record { batch = batch; errors = [] }), u)
unfolding import_employees find_existing_batch
replayed out t later other second file u batch e = rw e

-- After an import that succeeded, of a file that was new to the tenant, uploading the same file again, by
-- whomever and whenever, returns the batch of the first import with no errors, changes nothing in the
-- database and adds no job.
pub import_replay :
    (out : Outside) (t : Uuid) (now later : Instant) (context other : AuditContext)
    (actor second file : String) (u : Uploads) (result : ImportResult)
    → known out t now context actor file u u.db ≡ []
    → (import_employees out t now context actor file u).0 ≡ ok result
    → import_employees out t later other second file
        (import_employees out t now context actor file u).1
      ≡ (
        ok (record { batch = result.batch; errors = [] }),
        (import_employees out t now context actor file u).1,
      )
import_replay out t now later context other actor second file u result new h =
    replayed out t later other second file (import_employees out t now context actor file u).1
      result.batch (import_employees-Imported out t now context actor file u result new h).recorded
