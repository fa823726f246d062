-- ===== src/Circuit/Validation/Laws.antt =====
-- What `validateCircuitModel` accepts, whatever the order of the operations.
use mvp_qcp.Base.{
  ℕ, ◌≡◌, ◌↔◌, sym, true, List, [], ◌∷◌, All, All-imp, Pairs, Pairs-of_All, All-of_Pairs, none,
  some, Option-cases, inl, inr,
}
use mvp_qcp.Circuit.{Operation, CircuitModel, Collation, touched_qubits, sort_operations}
use mvp_qcp.Circuit.Order.{
  All-sort_operations, All-of_sort_operations, Pairs-sort_operations, Pairs-of_sort_operations,
}
use mvp_qcp.Circuit.Edit.Normal.{HasId}
use mvp_qcp.Circuit.Validation.{
  invalid_multi_qubit_operation, cell_conflict, non_terminal_measurement, Cell, clear,
  find_invalid_multi_qubit_operation, find_cell_conflict, find_non_terminal_measurement,
  check_operations, validate_circuit_model,
}
use mvp_qcp.Circuit.Validation.Distinct.{DistinctQubits, find_invalid-none}
use mvp_qcp.Circuit.Validation.Span.{between, includes-to_occupied_qubits}
use mvp_qcp.Circuit.Validation.Cells.{
  NoConflict, Scan-cases, scan-Agrees, Agrees-scan, Agrees-at_first,
}
use mvp_qcp.Circuit.Validation.Measurement.{MeasuredLast, MeasuredLast-sym, find_non_terminal-none}

module _ {R : Type 0} where
  -- Two operations of one layer whose spans share a qubit have one id.
  abbrev pub SpansApart : Operation R → Operation R → Type 0
  SpansApart a b =
      a.layer ≡ b.layer
      → (q : ℕ) → between q (touched_qubits a) ≡ true
      → between q (touched_qubits b) ≡ true
      → a.id ≡ b.id

  NoConflict-SpansApart : (a b : Operation R) → NoConflict a b → SpansApart a b
  NoConflict-SpansApart a b h e q i j =
      h e q (rw (includes-to_occupied_qubits a q) i) (rw (includes-to_occupied_qubits b q) j)

  SpansApart-NoConflict : (a b : Operation R) → SpansApart a b → NoConflict a b
  SpansApart-NoConflict a b h e q i j =
      h e q (rw (includes-to_occupied_qubits a q) at i) (rw (includes-to_occupied_qubits b q) at j)

  Pairs-imp :
      (P Q : Operation R → Operation R → Type 0)
      → ((a b : Operation R) → P a b → Q a b)
      → (ops : List (Operation R)) → Pairs P ops
      → Pairs Q ops
  Pairs-imp P Q f [] h = tt
  Pairs-imp P Q f (o ∷ os) (h, hs) = (All-imp (λ a. f o a) os h, Pairs-imp P Q f os hs)

  -- What the three checks together ask of the operations.
  pub record IsSound (ops : List (Operation R)) : Type 0 where
    pub distinct : All DistinctQubits ops
    pub apart : Pairs SpansApart ops
    pub measured_last : Pairs MeasuredLast ops

  find_cell_conflict-clear :
      (ops : List (Operation R))
      → All HasId ops
      → ((c : List Cell) × (find_cell_conflict ops ≡ clear c)) ↔ Pairs NoConflict ops
  unfolding find_cell_conflict
  find_cell_conflict-clear ops h = (
    λ (c, e). (scan-Agrees ops [] c h tt e).1,
    λ n. Agrees-scan ops [] h tt (Agrees-at_first ops) n,
  )

  pairwise :
      (ops : List (Operation R)) → All (λ a. All (MeasuredLast a) ops) ops ↔ Pairs MeasuredLast ops
  pairwise ops = (
    λ h. Pairs-of_All MeasuredLast ops h,
    λ h. All-of_Pairs MeasuredLast (λ a. (λ e n. cc, λ e n. cc)) MeasuredLast-sym ops h,
  )

  checks : (ops : List (Operation R)) → All HasId ops → (check_operations ops ≡ none) ↔ IsSound ops
  unfolding check_operations
  checks ops h = elim (Option-cases (find_invalid_multi_qubit_operation ops)) [
    | inr (o, twice) ↦ (
      λ e.
          let e' : some (invalid_multi_qubit_operation o.id) ≡ none =
            rw (twice, check_operations) at e in
          cc,
      λ s. let e' = (find_invalid-none ops).1 s.distinct in cc,
    )
    | inl once ↦ elim (Scan-cases (find_cell_conflict ops)) [
      | inr (l, q, id, stopped) ↦ (
        λ e.
            let e' : some (cell_conflict l q id) ≡ none =
              rw (once, stopped, check_operations) at e in
            cc,
        λ s.
            let n = Pairs-imp SpansApart NoConflict SpansApart-NoConflict ops s.apart in
            let (c, e') = (find_cell_conflict-clear ops h).1 n in cc,
      )
      | inl (c, passed) ↦ elim (Option-cases (find_non_terminal_measurement ops)) [
        | inr (o, early) ↦ (
          λ e.
              let e' : some (non_terminal_measurement o.id) ≡ none =
                rw (once, passed, early, check_operations) at e in
              cc,
          λ s. let e' = (find_non_terminal-none ops).1 ((pairwise ops).1 s.measured_last) in cc,
        )
        | inl last ↦ (
          λ e. record {
            distinct = (find_invalid-none ops).0 once;
            apart =
                Pairs-imp NoConflict SpansApart NoConflict-SpansApart ops
                  ((find_cell_conflict-clear ops h).0 (c, passed));
            measured_last = (pairwise ops).0 ((find_non_terminal-none ops).0 last);
          },
          λ s. rw (once, passed, last, check_operations),
        )
      ]
    ]
  ]

  pub SpansApart-sym : (a b : Operation R) → SpansApart a b → SpansApart b a
  SpansApart-sym a b h e q i j = sym (h (sym e) q j i)

-- Of a circuit whose operations have ids that are not empty, `validate_circuit_model` returns no
-- error exactly when no operation touches a qubit twice, two operations of one layer whose spans
-- share a qubit have one id, and each measurement stands in a later layer than every operation that
-- is no measurement. The order of the list of operations does not matter.
pub validate_circuit_model_iff :
    ⦃c : Collation⦄ {R : Type 0} (m : CircuitModel R)
    → All HasId m.operations
    → (validate_circuit_model m ≡ none) ↔ IsSound m.operations
unfolding validate_circuit_model
validate_circuit_model_iff m h =
    let sorted = sort_operations m.operations in
    let both = checks sorted (All-sort_operations HasId m.operations h) in
    (
      λ e.
          let s = both.0 e in
          record {
            distinct = All-of_sort_operations DistinctQubits m.operations s.distinct;
            apart = Pairs-of_sort_operations SpansApart SpansApart-sym m.operations s.apart;
            measured_last =
                Pairs-of_sort_operations MeasuredLast MeasuredLast-sym m.operations s.measured_last;
          },
      λ s. both.1 (record {
        distinct = All-sort_operations DistinctQubits m.operations s.distinct;
        apart = Pairs-sort_operations SpansApart SpansApart-sym m.operations s.apart;
        measured_last =
            Pairs-sort_operations MeasuredLast MeasuredLast-sym m.operations s.measured_last;
      }),
    )
