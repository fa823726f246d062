-- ===== src/Circuit/Edit/Qubits.antt =====
-- Adding and removing the last qubit.
use mvp_qcp.Base.{
  ℕ, ◌+◌, ◌-◌, ◌≡◌, ◌↔◌, ◌<◌, ◌≤◌, refl, sym, Bool, false, List, [], ◌∷◌, arith, All, All-imp,
  find_of_All, find-none, leb, any,
}
use mvp_qcp.Circuit.{Operation, CircuitModel, QubitBoundary, Collation, InRange, touched_qubits}
use mvp_qcp.Circuit.Edit.{
  normalize_circuit, touches_qubit_beyond, adjusted, increase_qubits, decrease_qubits,
}
use mvp_qcp.Circuit.Edit.Normal.{normalize_circuit_idempotent, All-normalize_circuit}

below_of_any : (n : ℕ) (qs : List ℕ) → any (λ q. leb n q) qs ≡ false → All (λ q. q < n) qs
below_of_any n [] h = tt
below_of_any n (q ∷ qs) h = ground (arith, below_of_any n qs)

any_of_below : (n : ℕ) (qs : List ℕ) → All (λ q. q < n) qs → any (λ q. leb n q) qs ≡ false
any_of_below n [] h = refl
any_of_below n (q ∷ qs) (p, h) = ground (arith, any_of_below n qs h)

module _ {R : Type 0} where
  -- The circuit fits on n qubits.
  abbrev pub FitsOn : ℕ → CircuitModel R → Type 0
  FitsOn n m = All (λ o. All (λ q. q < n) (touched_qubits o)) m.operations

  touches-FitsOn :
      (n : ℕ) (ops : List (Operation R))
      → All (λ o. touches_qubit_beyond o n ≡ false) ops
      → All (λ o. All (λ q. q < n) (touched_qubits o)) ops
  unfolding touches_qubit_beyond
  touches-FitsOn n = All-imp (λ o h. below_of_any n (touched_qubits o) h)

  FitsOn-touches :
      (n : ℕ) (ops : List (Operation R))
      → All (λ o. All (λ q. q < n) (touched_qubits o)) ops
      → All (λ o. touches_qubit_beyond o n ≡ false) ops
  unfolding touches_qubit_beyond
  FitsOn-touches n = All-imp (λ o h. any_of_below n (touched_qubits o) h)

module _ ⦃c : Collation⦄ {R : Type 0} where
  -- `decreaseQubits` succeeds exactly when the number of qubits is above the minimum and no
  -- operation touches the last qubit; the result is the normal form on one qubit less.
  pub decrease_qubits_iff :
      (m m' : CircuitModel R) (b : QubitBoundary)
      → (decrease_qubits m b ≡ adjusted m') ↔ (
          (b.min_qubits < m.num_qubits)
          × FitsOn (m.num_qubits - 1) m
          × (m' ≡ normalize_circuit (record m { num_qubits = m.num_qubits - 1 })))
  unfolding decrease_qubits
  decrease_qubits_iff m m' b = (to, from)
    where
      test : Operation R → Bool
      test o = touches_qubit_beyond o (m.num_qubits - 1)

      to :
          decrease_qubits m b ≡ adjusted m'
          → (b.min_qubits < m.num_qubits)
            × FitsOn (m.num_qubits - 1) m
            × (m' ≡ normalize_circuit (record m { num_qubits = m.num_qubits - 1 }))
      to e = (
        ground arith,
        touches-FitsOn (m.num_qubits - 1) m.operations (find-none test m.operations (ground arith)),
        ground arith,
      )

      from :
          (b.min_qubits < m.num_qubits)
            × FitsOn (m.num_qubits - 1) m
            × (m' ≡ normalize_circuit (record m { num_qubits = m.num_qubits - 1 }))
          → decrease_qubits m b ≡ adjusted m'
      from (h, fits, e) = ground (
        arith,
        find_of_All test m.operations (FitsOn-touches (m.num_qubits - 1) m.operations fits),
      )

  pub increase_qubits-eq :
      (m m' : CircuitModel R) (b : QubitBoundary)
      → increase_qubits m b ≡ adjusted m'
      → m' ≡ normalize_circuit (record m { num_qubits = m.num_qubits + 1 })
  unfolding increase_qubits
  increase_qubits-eq m m' b e = ground arith

  pub increase_qubits-lt :
      (m m' : CircuitModel R) (b : QubitBoundary)
      → increase_qubits m b ≡ adjusted m'
      → m.num_qubits < b.max_qubits
  unfolding increase_qubits
  increase_qubits-lt m m' b e = ground arith

  abbrev on_qubits : ℕ → CircuitModel R → CircuitModel R
  on_qubits n m = record m { num_qubits = n }

  -- The normal form does not depend on the number of qubits.
  normalize-on_qubits :
      (n k : ℕ) (m : CircuitModel R)
      → n ≡ m.num_qubits
      → normalize_circuit m ≡ normalize_circuit (on_qubits n (normalize_circuit (on_qubits k m)))
  unfolding normalize_circuit
  normalize-on_qubits n k m e = rw e (sym (normalize_circuit_idempotent m))

  -- Taking back a qubit that was just added gives the circuit in its normal form.
  pub decrease-increase_qubits :
      (m m' : CircuitModel R) (b : QubitBoundary)
      → InRange m
      → b.min_qubits ≤ m.num_qubits
      → increase_qubits m b ≡ adjusted m'
      → decrease_qubits m' b ≡ adjusted (normalize_circuit m)
  unfolding normalize_circuit
  decrease-increase_qubits m m' b fits h e =
      let added = on_qubits (m.num_qubits + 1) m in
      let back : m.num_qubits + 1 - 1 ≡ m.num_qubits = omega arith in
      rw (increase_qubits-eq m m' b e) (
        (decrease_qubits_iff (normalize_circuit added) (normalize_circuit m) b).1 (
          omega arith,
          All-normalize_circuit _ (λ o s p. p) added (rw back fits),
          normalize-on_qubits (m.num_qubits + 1 - 1) (m.num_qubits + 1) m back,
        ))
