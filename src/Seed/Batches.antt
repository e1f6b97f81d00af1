-- ===== src/Seed/Batches.antt =====
-- The loop over the batches of one tenant: which statements it sends.
use mathlib.Core.List.{append-nil, append_assoc}
use employee_compliance_saas.Common.{
  ℕ, zero, suc, ◌+◌, ◌-◌, ◌*◌, ◌≤◌, ◌<◌, ◌≡◌, refl, sym, ap, ◌∙◌, some, List, [], ◌∷◌, ◌++◌, arith,
  map, All, All-append, ltb, length, Bool-cases, inl, inr, Option,
}
use employee_compliance_saas.Database.Schema.{Instant, DocumentType}
use employee_compliance_saas.Seed.{
  Draws, EmployeeValues, Statement, insert_employees, insert_documents, batch_size, chunks,
  doc_types, Batch, employee_values, document_values, with_documents, fill, statements_of, lesser,
  seed_rows,
}
use employee_compliance_saas.Seed.Chunks.{
  chunks_lem, length-snoc, employees_in, IsSized, employees_in-append, employees_in-employees,
  employees_in-documents, employees-IsSized, documents-IsSized,
}

module _ (draws : Draws) (now : Instant) (tenant ti : ℕ) where
  -- `n` employees, from the one after `emp_seq` on.
  abbrev pub employees_from : ℕ → ℕ → List EmployeeValues
  employees_from emp_seq zero = []
  employees_from emp_seq (suc n) =
      employee_values draws now tenant ti (emp_seq + 1) ∷ employees_from (emp_seq + 1) n

  length-employees_from : (emp_seq n : ℕ) → length (employees_from emp_seq n) ≡ n
  length-employees_from emp_seq zero = refl
  length-employees_from emp_seq (suc n) = omega (arith, length-employees_from (emp_seq + 1) n)

  employees_from-add :
      (emp_seq m n : ℕ)
      → employees_from emp_seq (m + n) ≡ employees_from emp_seq m ++ employees_from (emp_seq + m) n
  employees_from-add emp_seq zero n =
      let none_more : 0 + n ≡ n = omega arith in
      let same : emp_seq ≡ emp_seq + 0 = omega arith in
      ap (employees_from emp_seq) none_more ∙ ap (λ e. employees_from e n) same
  employees_from-add emp_seq (suc m) n =
      let one_more : suc m + n ≡ suc (m + n) = omega arith in
      let same : emp_seq + 1 + m ≡ emp_seq + suc m = omega arith in
      ap (employees_from emp_seq) one_more
      ∙ ap (λ rest. employee_values draws now tenant ti (emp_seq + 1) ∷ rest)
          (employees_from-add (emp_seq + 1) m n
            ∙ ap (λ e. employees_from (emp_seq + 1) m ++ employees_from e n) same)

  with_documents_lem :
      (emp_seq : ℕ) (types : List DocumentType) (b : Batch)
      → ((with_documents draws now tenant ti emp_seq types b).employees ≡ b.employees)
        × (length (with_documents draws now tenant ti emp_seq types b).documents
            ≤ length b.documents + length types)
  with_documents_lem emp_seq [] b = (refl, omega arith)
  with_documents_lem emp_seq (type ∷ types) b =
      elim (Bool-cases (draws.has_document emp_seq type)) [
        | inl e ↦
            let document = document_values draws now tenant ti emp_seq (b.doc_seq + 1) type in
            let more = record b {
              documents = b.documents ++ document ∷ [];
              doc_seq = b.doc_seq + 1;
            } in
            let (same, few) = with_documents_lem emp_seq types more in
            rw (with_documents, e) (same, omega (arith, few, length-snoc b.documents document))
        | inr e ↦
            let (same, few) = with_documents_lem emp_seq types b in
            rw (with_documents, e) (same, omega (arith, few))
      ]

  fill_lem :
      (n emp_seq : ℕ) (b : Batch)
      → ((fill draws now tenant ti n emp_seq b).employees ≡ b.employees ++ employees_from emp_seq n)
        × (length (fill draws now tenant ti n emp_seq b).documents ≤ length b.documents + 3 * n)
  fill_lem zero emp_seq b = (sym (append-nil b.employees), omega arith)
  fill_lem (suc n) emp_seq b =
      let employee = employee_values draws now tenant ti (emp_seq + 1) in
      let begun = record b { employees = b.employees ++ employee ∷ [] } in
      let filled = with_documents draws now tenant ti (emp_seq + 1) doc_types begun in
      let (same, few) = with_documents_lem (emp_seq + 1) doc_types begun in
      let (rest, few') = fill_lem n (emp_seq + 1) filled in
      (
        rest ∙ rw same (append_assoc b.employees (employee ∷ []) (employees_from (emp_seq + 1) n)),
        omega (arith, few, few'),
      )

  -- A batch of at most 500 employees.
  statements_of_lem :
      (n emp_seq doc_seq : ℕ)
      → n ≤ batch_size
      → let b =
          fill draws now tenant ti n emp_seq
            (record { employees = []; documents = []; doc_seq = doc_seq }) in
        (employees_in (statements_of b) ≡ employees_from emp_seq n) × All IsSized (statements_of b)
  statements_of_lem n emp_seq doc_seq h =
      let b =
        fill draws now tenant ti n emp_seq
          (record { employees = []; documents = []; doc_seq = doc_seq }) in
      let (same, few) =
        fill_lem n emp_seq (record { employees = []; documents = []; doc_seq = doc_seq }) in
      let (all, sized) =
        chunks_lem 501 b.employees (rw same (omega (arith, h, length-employees_from emp_seq n))) in
      let (all', sized') = chunks_lem 1501 b.documents (omega (arith, h, few)) in
      (
        employees_in-append (map insert_employees (chunks 501 b.employees))
              (map insert_documents (chunks 1501 b.documents))
            ∙ ap (λ rest. employees_in (map insert_employees (chunks 501 b.employees)) ++ rest)
                (employees_in-documents (chunks 1501 b.documents))
            ∙ append-nil (employees_in (map insert_employees (chunks 501 b.employees)))
            ∙ employees_in-employees (chunks 501 b.employees)
            ∙ all
            ∙ same,
        All-append IsSized (map insert_employees (chunks 501 b.employees))
            (map insert_documents (chunks 1501 b.documents)) (employees-IsSized _ sized)
            (documents-IsSized _ sized'),
      )

  -- What the loop leaves that has `count` employees to go.
  pub record Seeded (emp_seq count target : ℕ) (result : Option (List Statement × ℕ)) : Type 0 where
    pub statements : List Statement
    pub ends : result ≡ some (statements, target)
    pub employees : employees_in statements ≡ employees_from emp_seq count
    pub sized : All IsSized statements

  seed_rows-Seeded :
      (fuel target emp_seq doc_seq done : ℕ)
      → done ≤ target
      → target - done < fuel
      → Seeded emp_seq
          (target - done)
          target
          (seed_rows draws now tenant ti fuel target emp_seq doc_seq done)
  unfolding seed_rows
  seed_rows-Seeded zero target emp_seq doc_seq done h k = absurd (omega (arith, k))
  seed_rows-Seeded (suc fuel) target emp_seq doc_seq done h k =
      elim (Bool-cases (ltb done target)) [
        | inr e ↦
            let same : done ≡ target = ground (arith, h, e) in
            let none_left : target - done ≡ 0 = omega (arith, same) in
            rw (e, none_left)
              (record { statements = []; ends = rw same refl; employees = refl; sized = tt })
        | inl e ↦
            let n = lesser batch_size (target - done) in
            let small : n ≤ batch_size = ground arith in
            let some_left : 1 ≤ n = ground (arith, e) in
            let enough : done + n ≤ target = ground (arith, h) in
            let b =
              fill draws now tenant ti n emp_seq
                (record { employees = []; documents = []; doc_seq = doc_seq }) in
            let rest =
              seed_rows-Seeded fuel target (emp_seq + n) b.doc_seq (done + n) enough
                (omega (arith, k, some_left, enough)) in
            let (same, sized) = statements_of_lem n emp_seq doc_seq small in
            let split : target - done ≡ n + (target - (done + n)) = omega (arith, enough) in
            rw e (record {
              statements = statements_of b ++ rest.statements;
              ends = rw rest.ends refl;
              employees =
                  employees_in-append (statements_of b) rest.statements
                  ∙ rw (same, rest.employees)
                      (sym (employees_from-add emp_seq n (target - (done + n))))
                  ∙ ap (employees_from emp_seq) (sym split);
              sized = All-append IsSized (statements_of b) rest.statements sized rest.sized;
            })
      ]

  -- With more fuel than the number of employees wanted, the loop over the batches of a tenant ends,
  -- and has then counted exactly that number; the statements that it has sent insert the employees
  -- from 1 to that number, each once and in order, and each of them has 1 to 500 rows.
  pub seed_rows_lem :
      (fuel target : ℕ)
      → target < fuel
      → Seeded 0 target target (seed_rows draws now tenant ti fuel target 0 0 0)
  seed_rows_lem fuel target h =
      let same : target - 0 ≡ target = omega arith in
      rw same at (seed_rows-Seeded fuel target 0 0 0 (omega arith) (omega (arith, h)))
