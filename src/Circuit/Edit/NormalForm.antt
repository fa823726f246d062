-- ===== src/Circuit/Edit/NormalForm.antt =====
-- What `normalizeCircuit` makes of a circuit, said without its sorting: the ids that it fills in, the
-- operations that it keeps, and their order.
use mathlib.Core.List.{Perm}
use mvp_qcp.Base.{
  ℕ, suc, ◌≡◌, ◌≢◌, ◌<◌, ◌⊎◌, refl, true, List, [], ◌∷◌, str_eq, eq_iff, arith, All-imp, Pairs,
  ◌==◌, Bool-cases, inl, inr,
}
use mvp_qcp.Circuit.{Operation, CircuitModel, Collation, in_order, sort_operations}
use mvp_qcp.Circuit.Order.{sort_operations-IsSorted}
use mvp_qcp.Circuit.Edit.{op_id, normalize_operation, normalize_from, normalize_circuit}

module _ {R : Type 0} where
  -- The operation with an id: its own, or where that is empty the one of its place in the list.
  abbrev pub NamedAs : ℕ → Operation R → Operation R → Type 0
  NamedAs index o named =
      ((o.id ≢ "") × (named ≡ o)) ⊎ ((o.id ≡ "") × (named ≡ record o { id = op_id index }))

  abbrev pub Named : ℕ → List (Operation R) → List (Operation R) → Type 0
  Named index [] [] = Unit
  Named index [] (n ∷ ns) = ⊥
  Named index (o ∷ os) [] = ⊥
  Named index (o ∷ os) (n ∷ ns) = NamedAs index o n × Named (suc index) os ns

  normalize_operation-NamedAs :
      (o : Operation R) (index : ℕ) → NamedAs index o (normalize_operation o index)
  unfolding normalize_operation
  normalize_operation-NamedAs o index = elim (Bool-cases (str_eq o.id "")) [
    | inl e ↦ inr ((eq_iff o.id "").0 e, rw e refl)
    | inr e ↦ inl (ground (arith, eq_iff o.id ""), rw e refl)
  ]

  normalize_from-Named :
      (index : ℕ) (ops : List (Operation R)) → Named index ops (normalize_from index ops)
  unfolding normalize_from
  normalize_from-Named index [] = tt
  normalize_from-Named index (o ∷ os) =
      (normalize_operation-NamedAs o index, normalize_from-Named (suc index) os)

module _ ⦃c : Collation⦄ {R : Type 0} where
  -- In an earlier layer, or in the same layer with an id that the host's order puts no later.
  abbrev pub Precedes : Operation R → Operation R → Type 0
  Precedes a b = (a.layer < b.layer) ⊎ ((a.layer ≡ b.layer) × (c.locale_le a.id b.id ≡ true))

  Precedes-of_in_order : (a b : Operation R) → in_order a b ≡ true → Precedes a b
  unfolding in_order
  Precedes-of_in_order a b e = elim (Bool-cases (a.layer == b.layer)) [
    | inl same ↦ inr (ground arith, rw same at e)
    | inr other ↦ inl (ground arith)
  ]

  Pairs-Precedes :
      (ops : List (Operation R)) → Pairs (λ a b. in_order a b ≡ true) ops → Pairs Precedes ops
  Pairs-Precedes [] h = tt
  Pairs-Precedes (o ∷ os) (p, h) =
      (All-imp {Q = Precedes o} (λ b. Precedes-of_in_order o b) os p, Pairs-Precedes os h)

  -- The normal form of a circuit has the circuit's number of qubits and its operations, each as often
  -- as the circuit has it and unchanged but for an empty id, which becomes the one of its place in the
  -- list; and each operation is in an earlier layer than every later one, or in the same layer with
  -- an id that is not after the other's.
  pub normalize_circuit_lem :
      (m : CircuitModel R)
      → (named : List (Operation R)) × Named 0 m.operations named
        × Perm (normalize_circuit m).operations named
        × Pairs Precedes (normalize_circuit m).operations
        × ((normalize_circuit m).num_qubits ≡ m.num_qubits)
  unfolding normalize_circuit
  normalize_circuit_lem m =
      let named = normalize_from 0 m.operations in
      let (same, sorted) = sort_operations-IsSorted named in
      (
        named,
        normalize_from-Named 0 m.operations,
        same,
        Pairs-Precedes (sort_operations named) sorted,
        refl,
      )
