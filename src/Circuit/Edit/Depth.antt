-- ===== src/Circuit/Edit/Depth.antt =====
-- The depth of a circuit, and the complexity guard.
use mvp_qcp.Base.{ℕ, ◌+◌, ◌≡◌, ◌↔◌, ◌<◌, ◌≤◌, true, List, [], ◌∷◌, arith, All, All-imp, length, max}
use mvp_qcp.Circuit.{Operation, CircuitModel, max_depth, max_gates}
use mvp_qcp.Circuit.Edit.{max_layer, get_circuit_depth, evaluate_complexity}

module _ {R : Type 0} where
  le-max_layer : (k : ℕ) (ops : List (Operation R)) → k ≤ max_layer k ops
  unfolding max_layer
  le-max_layer k [] = omega arith
  le-max_layer k (o ∷ os) = omega (arith, le-max_layer (max k o.layer) os)

  layer-le-max_layer :
      (k : ℕ) (ops : List (Operation R)) → All (λ o. o.layer < max_layer k ops + 1) ops
  unfolding max_layer
  layer-le-max_layer k [] = tt
  layer-le-max_layer k (o ∷ os) =
      (omega (arith, le-max_layer (max k o.layer) os), layer-le-max_layer (max k o.layer) os)

  max_layer-lt :
      (k bound : ℕ) (ops : List (Operation R))
      → k < bound
      → All (λ o. o.layer < bound) ops
      → max_layer k ops < bound
  unfolding max_layer
  max_layer-lt k bound [] h _ = h
  max_layer-lt k bound (o ∷ os) h (p, a) = max_layer-lt (max k o.layer) bound os (omega arith) a

  depth_of_operations :
      (n bound : ℕ) (ops : List (Operation R))
      → (get_circuit_depth (record { num_qubits = n; operations = ops }) ≤ bound)
        ↔ All (λ o. o.layer < bound) ops
  unfolding get_circuit_depth
  depth_of_operations n bound [] = (λ _. tt, λ _. omega arith)
  depth_of_operations n bound (o ∷ os) = (
    λ h.
        All-imp (λ x (p : x.layer < max_layer 0 (o ∷ os) + 1). omega arith) (o ∷ os)
          (layer-le-max_layer 0 (o ∷ os)),
    λ a. omega (arith, max_layer-lt 0 bound (o ∷ os) (omega arith) a),
  )

  -- The depth is at most a bound exactly when every operation stands in a layer below the bound.
  pub depth-le_iff :
      (m : CircuitModel R) (bound : ℕ)
      → (get_circuit_depth m ≤ bound) ↔ All (λ o. o.layer < bound) m.operations
  depth-le_iff m bound = depth_of_operations m.num_qubits bound m.operations

  -- The guard accepts a circuit exactly when it has at most 200 layers and at most 1000 gates.
  pub evaluate_complexity_iff :
      (m : CircuitModel R)
      → ((evaluate_complexity m).ok ≡ true)
        ↔ (All (λ o. o.layer < max_depth) m.operations × (length m.operations ≤ max_gates))
  unfolding evaluate_complexity
  evaluate_complexity_iff m =
      let (to, from) = depth-le_iff m max_depth in
      (λ h. (to (ground arith), ground arith), λ (a, h). let d = from a in ground arith)
