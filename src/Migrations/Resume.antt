-- ===== src/Migrations/Resume.antt =====
-- A run of the migrations that fails, and what the next one has left to do.
use mathlib.Core.List.{append-nil}
use employee_compliance_saas.Common.{
  ◌≡◌, refl, sym, ap, ◌∙◌, ◌⊎◌, inl, inr, String, Bool, true, false, not, ◌&&◌, List, [], ◌∷◌, ◌++◌,
  arith, keep, str_eq, eq_iff, All, Bool-cases,
}
use employee_compliance_saas.Common.Exec.{Exception, Result, ok, err, resume}
use employee_compliance_saas.Migrations.{
  Migration, Cluster, is_in, is_recorded, filenames, is_nil, backfill_of, plan_migrations,
  committed, apply_files, plan_of, migrate,
}
use employee_compliance_saas.Migrations.Reruns.{str_refl, is_in-filenames, some_is-append}
use employee_compliance_saas.Migrations.Names.{
  AreDistinct, AreDistinct-keep, keep_tail, keep-keep, applied_rows, filenames-append, append_row,
}

module _ {S : Type 0} (run_sql : String → S → Result S) (has_marker : S → Bool) where
  -- Where a run of some files has stopped.
  record Stopped (files : List String) (c c' : Cluster S) (thrown : Exception) : Type 0 where
    done : List String
    file : String
    rest : List String
    order : files ≡ done ++ file ∷ rest
    recorded : c'.migrations ≡ c.migrations ++ applied_rows done
    refused : run_sql file c'.schema ≡ err thrown
    begun : (c' ≡ c) ⊎ (is_nil (filenames c'.migrations) ≡ false)

  not_nil :
      (rows : List Migration) (row : Migration) → is_nil (filenames (rows ++ row ∷ [])) ≡ false
  not_nil [] row = refl
  not_nil (other ∷ rows) row = refl

  nil-append :
      (rows more : List Migration)
      → is_nil (filenames rows) ≡ false
      → is_nil (filenames (rows ++ more)) ≡ false
  nil-append [] more h = cc
  nil-append (row ∷ rows) more h = refl

  abbrev IsNew : List Migration → List String → Type 0
  IsNew rows files = All (λ file. is_recorded rows file ≡ false) files

  IsNew-append :
      (rows : List Migration) (file : String) (files : List String)
      → is_in files file ≡ false
      → IsNew rows files
      → IsNew (rows ++ record { filename = file; backfilled = false } ∷ []) files
  IsNew-append rows file [] h k = tt
  IsNew-append rows file (other ∷ files) h (p, k) = (
    ground (
      arith,
      some_is-append (λ row. str_eq row.filename other) rows
          (record { filename = file; backfilled = false } ∷ []),
      eq_iff file other,
      eq_iff other file,
      h,
      p,
    ),
    IsNew-append rows file files (ground (arith, h)) k,
  )

  abbrev after_row : String → Cluster S → S → Cluster S
  after_row file c schema = record {
    schema = schema;
    migrations = c.migrations ++ record { filename = file; backfilled = false } ∷ [];
  }

  stopped :
      (files : List String) (c c' : Cluster S) (e : Exception)
      → AreDistinct files
      → IsNew c.migrations files
      → apply_files run_sql has_marker files c ≡ (err e, c')
      → Stopped files c c' e
  unfolding apply_files
  stopped [] c c' e h k run = cc
  stopped (file ∷ files) c c' e (absent, h) (new, k) run =
      go (run_sql file c.schema) refl (λ d n r. stopped files d c' e h n r) run
    where
      go :
          (r : Result S)
          → run_sql file c.schema ≡ r
          → ((d : Cluster S)
              → IsNew d.migrations files
              → apply_files run_sql has_marker files d ≡ (err e, c')
              → Stopped files d c' e)
          → resume
              (λ _. apply_files run_sql has_marker files)
              (committed run_sql has_marker file c r)
            ≡ (err e, c')
          → Stopped (file ∷ files) c c' e
      go (err x) b rec l =
          let same : c' ≡ c = cc in
          record {
            done = [];
            file = file;
            rest = files;
            order = refl;
            recorded = ap (λ (d : Cluster S). d.migrations) same ∙ sym (append-nil c.migrations);
            refused = ap (λ (d : Cluster S). run_sql file d.schema) same ∙ b ∙ (cc);
            begun = inl same;
          }
      go (ok schema) b rec l =
          let d = after_row file c schema in
          let next : apply_files run_sql has_marker files d ≡ (err e, c') = rw new at l in
          let later = rec d (IsNew-append c.migrations file files absent k) next in
          record {
            done = file ∷ later.done;
            file = later.file;
            rest = later.rest;
            order = ap (λ fs. file ∷ fs) later.order;
            recorded = later.recorded ∙ append_row c.migrations file later.done;
            refused = later.refused;
            begun = inr (
                rw later.recorded (
                  nil-append d.migrations (applied_rows later.done)
                    (not_nil c.migrations (record { filename = file; backfilled = false }))));
          }

  -- What a run leaves that was stopped by an exception.
  pub record Interrupted (files : List String) (c c' : Cluster S) (thrown : Exception)
      : Type 0 where
    pub done : List String
    pub file : String
    pub rest : List String
    pub planned : (plan_of run_sql has_marker files c).to_apply ≡ done ++ file ∷ rest
    pub recorded : c'.migrations ≡ c.migrations ++ applied_rows done
    pub refused : run_sql file c'.schema ≡ err thrown
    pub left : (plan_of run_sql has_marker files c').to_apply ≡ file ∷ rest
    pub no_backfill : (plan_of run_sql has_marker files c').backfill ≡ []

  keep-IsNew :
      (rows : List Migration) (files : List String)
      → IsNew rows (keep (λ file. not (is_in (filenames rows ++ []) file)) files)
  keep-IsNew rows [] = tt
  keep-IsNew rows (file ∷ files) = elim (Bool-cases (is_in (filenames rows ++ []) file)) [
    | inl seen ↦ rw seen (keep-IsNew rows files)
    | inr fresh ↦ rw fresh (
      ground (
        arith,
        some_is-append (λ other. str_eq other file) (filenames rows) [],
        is_in-filenames rows file,
        fresh,
      ),
      keep-IsNew rows files,
    )
  ]

  keep_listed :
      (names files : List String)
      → All (λ file. is_in names file ≡ true) files
      → keep (λ file. not (is_in names file)) files ≡ []
  keep_listed names [] h = refl
  keep_listed names (file ∷ files) (p, h) = rw p (keep_listed names files h)

  listed_more :
      (x : String) (names files : List String)
      → All (λ file. is_in names file ≡ true) files
      → All (λ file. is_in (x ∷ names) file ≡ true) files
  listed_more x names [] h = tt
  listed_more x names (file ∷ files) (p, h) = (ground (arith, p), listed_more x names files h)

  All-listed : (names files : List String) → All (λ file. is_in (names ++ files) file ≡ true) files
  All-listed [] [] = tt
  All-listed [] (x ∷ xs) = (rw (str_refl x), listed_more x xs xs (All-listed [] xs))
  All-listed (name ∷ names) files = listed_more name (names ++ files) files (All-listed names files)

  -- The cluster that a run leaves plans no backfill if it planned none.
  no_backfill_after :
      (files : List String) (c c' : Cluster S)
      → (is_nil (filenames c.migrations) && has_marker c.schema) ≡ false
      → (c' ≡ c) ⊎ (is_nil (filenames c'.migrations) ≡ false)
      → backfill_of files (filenames c'.migrations) (has_marker c'.schema) ≡ []
  no_backfill_after files c c' h (inl same) =
      ap (λ (d : Cluster S). backfill_of files (filenames d.migrations) (has_marker d.schema)) same
      ∙ rw h
  no_backfill_after files c c' h (inr some_rows) = rw some_rows

  failed_none :
      (c c' : Cluster S) (e : Exception) → apply_files run_sql has_marker [] c ≡ (err e, c') → ⊥
  unfolding apply_files
  failed_none c c' e h = cc

  -- If a run over the files of a directory ends with an exception, then the files that it had planned
  -- are some that it has applied, one whose SQL throws that exception on the schema that is left, and
  -- the others. Exactly the applied ones are recorded in addition, in their order; and the next run
  -- plans to apply exactly the file that failed and the others, in their order, and to backfill none.
  pub interrupted :
      (files : List String) (c c' : Cluster S) (e : Exception)
      → AreDistinct files
      → migrate run_sql has_marker files c ≡ (err e, c')
      → Interrupted files c c' e
  unfolding migrate plan_migrations
  interrupted files c c' e distinct run =
      elim (Bool-cases (is_nil (filenames c.migrations) && has_marker c.schema)) [
        | inl old ↦
            let none' =
              keep_listed (filenames c.migrations ++ files) files
                (All-listed (filenames c.migrations) files) in
            absurd (failed_none _ _ _ (rw (old, none') at run))
        | inr fresh ↦
            let to_apply = keep (λ file. not (is_in (filenames c.migrations ++ []) file)) files in
            let run' : apply_files run_sql has_marker to_apply c ≡ (err e, c') = rw fresh at run in
            let s =
              stopped to_apply c c' e (AreDistinct-keep _ files distinct)
                (keep-IsNew c.migrations files) run' in
            let none' = no_backfill_after files c c' fresh s.begun in
            record {
              done = s.done;
              file = s.file;
              rest = s.rest;
              planned = rw fresh s.order;
              recorded = s.recorded;
              refused = s.refused;
              left =
                  ap (λ b. keep (λ file. not (is_in (filenames c'.migrations ++ b) file)) files)
                    none'
                  ∙ ap (λ names. keep (λ file. not (is_in (names ++ []) file)) files)
                      (ap filenames s.recorded ∙ filenames-append c.migrations s.done)
                  ∙ keep-keep (filenames c.migrations) s.done files
                  ∙ ap (keep (λ file. not (is_in s.done file))) s.order
                  ∙ keep_tail s.done (s.file ∷ s.rest)
                      (rw (← s.order) (AreDistinct-keep _ files distinct));
              no_backfill = none';
            }
      ]
