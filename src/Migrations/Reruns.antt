-- ===== src/Migrations/Reruns.antt =====
-- A run of the migrations after another.
use employee_compliance_saas.Common.{
  ◌≡◌, refl, String, Bool, true, false, not, ◌||◌, List, [], ◌∷◌, ◌++◌, arith, keep, some_is,
  str_eq, eq_iff, All, Bool-cases, inl, inr,
}
use employee_compliance_saas.Common.Exec.{Result, ok, err, resume}
use employee_compliance_saas.Migrations.{
  Migration, Cluster, is_in, is_recorded, filenames, backfill_of, plan_migrations,
  record_backfilled, record_all, record_applied, committed, apply_file, apply_files, migrate,
}

pub str_refl : (s : String) → str_eq s s ≡ true
str_refl s = (eq_iff s s).1 refl

pub is_in-filenames :
    (rows : List Migration) (file : String) → is_in (filenames rows) file ≡ is_recorded rows file
is_in-filenames [] file = refl
is_in-filenames (row ∷ rows) file = ground (arith, is_in-filenames rows file)

pub some_is-append {ℓ} :
    {A : Type ℓ} (p : A → Bool) (xs ys : List A)
    → some_is p (xs ++ ys) ≡ (some_is p xs || some_is p ys)
some_is-append p [] ys = refl
some_is-append p (x ∷ xs) ys = ground (arith, some_is-append p xs ys)

-- A file that has been recorded stays so.
abbrev Extends : List Migration → List Migration → Type 0
Extends rows rows' = (file : String) → is_recorded rows file ≡ true → is_recorded rows' file ≡ true

recorded-append :
    (rows : List Migration) (row : Migration)
    → Extends rows (rows ++ row ∷ []) × (is_recorded (rows ++ row ∷ []) row.filename ≡ true)
recorded-append rows row = (
  λ file h. ground (arith, some_is-append (λ r. str_eq r.filename file) rows (row ∷ []), h),
  ground (
    arith,
    some_is-append (λ r. str_eq r.filename row.filename) rows (row ∷ []),
    str_refl row.filename,
  ),
)

record_backfilled_lem :
    (file : String) (rows : List Migration)
    → Extends rows (record_backfilled file rows)
      × (is_recorded (record_backfilled file rows) file ≡ true)
record_backfilled_lem file rows = elim (Bool-cases (is_recorded rows file)) [
  | inl old ↦ rw old (λ other h. h, old)
  | inr new ↦ rw new (recorded-append rows (record { filename = file; backfilled = true }))
]

abbrev AllRecorded : List Migration → List String → Type 0
AllRecorded rows files = All (λ file. is_recorded rows file ≡ true) files

All-Extends :
    (rows rows' : List Migration) (files : List String)
    → Extends rows rows'
    → AllRecorded rows files
    → AllRecorded rows' files
All-Extends rows rows' [] h k = tt
All-Extends rows rows' (file ∷ files) h (p, k) = (h file p, All-Extends rows rows' files h k)

record_all_lem :
    (files : List String) (rows : List Migration)
    → Extends rows (record_all files rows) × AllRecorded (record_all files rows) files
record_all_lem [] rows = (λ file h. h, tt)
record_all_lem (file ∷ files) rows =
    let (first, now) = record_backfilled_lem file rows in
    let (rest, all) = record_all_lem files (record_backfilled file rows) in
    (λ other h. rest other (first other h), (rest file now, all))

listed_recorded :
    (rows : List Migration) (names : List String) (file : String)
    → AllRecorded rows names
    → is_in names file ≡ true
    → is_recorded rows file ≡ true
listed_recorded rows [] file h k = cc
listed_recorded rows (name ∷ names) file (p, h) k = elim (Bool-cases (str_eq name file)) [
  | inl same ↦ let e : name ≡ file = (eq_iff name file).0 same in rw (← e) p
  | inr other ↦ listed_recorded rows names file h (ground (arith, other, k))
]

seen_recorded :
    (rows rows' : List Migration) (backfill : List String) (file : String)
    → Extends rows rows'
    → AllRecorded rows' backfill
    → is_in (filenames rows ++ backfill) file ≡ true
    → is_recorded rows' file ≡ true
seen_recorded rows rows' backfill file h k seen = elim (Bool-cases (is_recorded rows file)) [
  | inl old ↦ h file old
  | inr new ↦ listed_recorded rows' backfill file k (
      ground (
        arith,
        some_is-append (λ other. str_eq other file) (filenames rows) backfill,
        is_in-filenames rows file,
        new,
        seen,
      ))
]

module _ {S : Type 0} (run_sql : String → S → Result S) (has_marker : S → Bool) where
  recorded-applied :
      (file : String) (c c' : Cluster S) (schema : S)
      → record_applied file c schema ≡ (ok tt, c')
      → c' ≡ record {
        schema = schema;
        migrations = c.migrations ++ record { filename = file; backfilled = false } ∷ [];
      }
  recorded-applied file c c' schema h = elim (Bool-cases (is_recorded c.migrations file)) [
    | inl old ↦ absurd (ground (arith, old, h))
    | inr new ↦ ground (arith, new, h)
  ]

  record Applied (files : List String) (c c' : Cluster S) : Type 0 where
    extends : Extends c.migrations c'.migrations
    all : AllRecorded c'.migrations files

  committed-Applied :
      (file : String) (c c' : Cluster S) (r : Result S)
      → committed run_sql has_marker file c r ≡ (ok tt, c')
      → Applied (file ∷ []) c c'
  committed-Applied file c c' (err e) h = cc
  committed-Applied file c c' (ok schema) h =
      let same = recorded-applied file c c' schema h in
      let (extends, now) =
        recorded-append c.migrations (record { filename = file; backfilled = false }) in
      rw same (record { extends = extends; all = (now, tt) })

  apply_files-Applied :
      (files : List String) (c c' : Cluster S)
      → apply_files run_sql has_marker files c ≡ (ok tt, c')
      → Applied files c c'
  unfolding apply_files
  apply_files-Applied [] c c' h =
      let same : c ≡ c' = cc in rw (← same) (record { extends = λ file k. k; all = tt })
  apply_files-Applied (file ∷ files) c c' h =
      go (apply_file run_sql has_marker file c) refl (λ d. apply_files-Applied files d c') h
    where
      go :
          (r : Result (Unit {0}) × Cluster S)
          → apply_file run_sql has_marker file c ≡ r
          → ((d : Cluster S)
              → apply_files run_sql has_marker files d ≡ (ok tt, c')
              → Applied files d c')
          → resume (λ _. apply_files run_sql has_marker files) r ≡ (ok tt, c')
          → Applied (file ∷ files) c c'
      go (err e, d) b rec k = cc
      go (ok u, d) b rec k =
          let first = committed-Applied file c d (run_sql file c.schema) b in
          let rest = rec d k in
          record {
            extends = λ other h. rest.extends other (first.extends other h);
            all = (rest.extends file first.all.0, rest.all);
          }

  -- A run that plans nothing.
  keep_none :
      (rows : List Migration) (files : List String)
      → AllRecorded rows files
      → keep (λ file. not (is_in (filenames rows ++ []) file)) files ≡ []
  keep_none rows [] h = refl
  keep_none rows (file ∷ files) (p, h) =
      let seen : is_in (filenames rows ++ []) file ≡ true = ground (
        arith,
        some_is-append (λ other. str_eq other file) (filenames rows) [],
        is_in-filenames rows file,
        p,
      ) in
      rw seen (keep_none rows files h)

  no_backfill :
      (rows : List Migration) (files : List String) (marker : Bool)
      → AllRecorded rows files
      → backfill_of files (filenames rows) marker ≡ []
  no_backfill [] [] true h = refl
  no_backfill [] [] false h = refl
  no_backfill [] (file ∷ files) marker h = cc (h.0)
  no_backfill (row ∷ rows) files marker h = refl

  nothing_left :
      (files : List String) (c : Cluster S)
      → AllRecorded c.migrations files
      → migrate run_sql has_marker files c ≡ (ok tt, c)
  unfolding migrate plan_migrations apply_files
  nothing_left files c h =
      rw (no_backfill c.migrations files (has_marker c.schema) h, keep_none c.migrations files h)

  -- A file that the plan leaves out is recorded, or becomes so by the backfill.
  planned :
      (rows rows' : List Migration) (backfill files : List String)
      → Extends rows rows'
      → AllRecorded rows' backfill
      → AllRecorded rows' (keep (λ file. not (is_in (filenames rows ++ backfill) file)) files)
      → AllRecorded rows' files
  planned rows rows' backfill [] h k l = tt
  planned rows rows' backfill (file ∷ files) h k l =
      elim (Bool-cases (is_in (filenames rows ++ backfill) file)) [
        | inr fresh ↦
            let (now, rest) = rw fresh at l in (now, planned rows rows' backfill files h k rest)
        | inl seen ↦ (
          seen_recorded rows rows' backfill file h k seen,
          planned rows rows' backfill files h k (rw seen at l),
        )
      ]

  carried_out :
      (files : List String) (c c' : Cluster S)
      → migrate run_sql has_marker files c ≡ (ok tt, c')
      → AllRecorded c'.migrations files
  unfolding migrate plan_migrations
  carried_out files c c' h =
      let backfill = backfill_of files (filenames c.migrations) (has_marker c.schema) in
      let (extends, recorded) = record_all_lem backfill c.migrations in
      let done =
        apply_files-Applied
          (keep (λ file. not (is_in (filenames c.migrations ++ backfill) file)) files)
          (record c { migrations = record_all backfill c.migrations }) c' h in
      planned c.migrations c'.migrations backfill files
        (λ file k. done.extends file (extends file k))
        (All-Extends (record_all backfill c.migrations) c'.migrations backfill done.extends
          recorded)
        done.all

  -- After a run that ends without an exception, another run over the same files ends without one,
  -- applies nothing and changes nothing: neither the schema nor the record of what was applied.
  pub rerun :
      (files : List String) (c c' : Cluster S)
      → migrate run_sql has_marker files c ≡ (ok tt, c')
      → migrate run_sql has_marker files c' ≡ (ok tt, c')
  rerun files c c' h = nothing_left files c' (carried_out files c c' h)
