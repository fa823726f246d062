-- ===== src/Canvas.antt =====
-- frontend/src/features/circuit/components/use-circuit-canvas-interactions.ts: the circuits that the
-- canvas hands on to the editor. A handler returns the circuit that it gives to `onCircuitChange`, or
-- `none` where it gives none. The numbers of columns that the user enters are integers, as
-- `toIntOrDefault` makes them.
use mvp_qcp.Base.{
  ℕ, suc, ◌+◌, ◌-◌, Bool, true, false, not, ◌&&◌, ◌||◌, Option, none, some, List, [], ◌∷◌, ◌++◌,
  map, max, min, String, str_eq, any, find, length, leb, ltb, ◌==◌, if◌then◌else◌, or_else,
}
use mvp_qcp.Base.Int.{ℤ, pos, negsuc, pos_part}
use mvp_qcp.Circuit.{Operation, CircuitModel, Collation}
use mvp_qcp.Circuit.Edit.{
  UpdateOperationInput, deleted, not_deleted, remove_operation, update_operation,
  insert_columns_before, delete_empty_columns_before, get_circuit_depth,
}
use mvp_qcp.Circuit.Validation.{validate_circuit_model}
pub mod Gates
pub mod Selection
pub mod Keeping
pub mod Placing
pub mod Actions
pub mod Commits

-- a - b
abbrev minus : ℕ → ℕ → ℤ
minus a b = if leb b a then pos (a - b) else negsuc (b - a - 1)

-- `shiftQubits` by the distance from `from` to `to`
abbrev pub shift_qubits : ℕ → ℕ → List ℕ → List ℤ
shift_qubits from to qubits = map (λ q. minus (q + to) from) qubits

abbrev pub is_out_of_range : ℕ → ℤ → Bool
is_out_of_range num_qubits (negsuc _) = true
is_out_of_range num_qubits (pos q) = leb num_qubits q

abbrev pub has_out_of_range_qubit : List ℤ → ℕ → Bool
has_out_of_range_qubit qubits num_qubits = any (is_out_of_range num_qubits) qubits

abbrev same_numbers : List ℕ → List ℕ → Bool
same_numbers [] [] = true
same_numbers (x ∷ xs) (y ∷ ys) = x == y && same_numbers xs ys
same_numbers [] (y ∷ ys) = false
same_numbers (x ∷ xs) [] = false

-- `isSameQubitList`
abbrev pub is_same_qubit_list : Option (List ℕ) → Option (List ℕ) → Bool
is_same_qubit_list l r = same_numbers (or_else l []) (or_else r [])

-- The shifted qubits as the numbers that they are once they are in range.
abbrev pub shifted : ℕ → ℕ → List ℕ → List ℕ
shifted from to qubits = map pos_part (shift_qubits from to qubits)

abbrev pub shifted_controls : ℕ → ℕ → Option (List ℕ) → Option (List ℕ)
shifted_controls from to none = none
shifted_controls from to (some qubits) = some (shifted from to qubits)

-- `Math.min(Math.max(value, 1), max)`
abbrev pub clamp_column : ℤ → ℕ → ℕ
clamp_column value top = min (max (pos_part value) 1) top

module _ ⦃c : Collation⦄ {R : Type 0} where
  unfoldable pub commit_circuit : CircuitModel R → Option (CircuitModel R)
  unfolding validate_circuit_model
  commit_circuit next = elim (validate_circuit_model next) [ some _ ↦ none | none ↦ some next ]

  abbrev pub is_unmoved : ℕ → ℕ → ℕ → Operation R → Bool
  is_unmoved from to layer o =
      o.layer == layer
      && is_same_qubit_list (some o.targets) (some (shifted from to o.targets))
      && is_same_qubit_list o.controls (shifted_controls from to o.controls)

  abbrev pub move_input : ℕ → ℕ → ℕ → Operation R → UpdateOperationInput R
  move_input from to layer o = record {
    layer = some layer;
    targets = some (shifted from to o.targets);
    controls = shifted_controls from to o.controls;
    params = none;
  }

  abbrev pub moved_circuit : CircuitModel R → ℕ → ℕ → ℕ → Operation R → CircuitModel R
  moved_circuit circuit from to layer o = update_operation circuit o.id (move_input from to layer o)

  -- `onDropMovedOperation` from where the operation is found
  unfoldable pub move_found : CircuitModel R → ℕ → ℕ → ℕ → Operation R → Option (CircuitModel R)
  unfolding commit_circuit
  move_found circuit from to layer o =
      let next_targets = shift_qubits from to o.targets in
      let next_controls = shift_qubits from to (or_else o.controls []) in
      if has_out_of_range_qubit (next_targets ++ next_controls) circuit.num_qubits
      then none
      else if is_unmoved from to layer o
      then none
      else commit_circuit (moved_circuit circuit from to layer o)

  -- A move of the operation with the id, dragged at one qubit and dropped at another.
  unfoldable pub on_drop_moved_operation :
      CircuitModel R → String → ℕ → ℕ → ℕ → Option (CircuitModel R)
  unfolding move_found
  on_drop_moved_operation circuit operation_id anchor_qubit qubit layer =
      elim (find (λ o. str_eq o.id operation_id) circuit.operations) [
        | none ↦ none
        | some o ↦ move_found circuit anchor_qubit qubit layer o
      ]

  unfoldable pub on_delete : CircuitModel R → String → Option (CircuitModel R)
  unfolding commit_circuit remove_operation
  on_delete circuit operation_id = commit_circuit (remove_operation circuit operation_id)

  unfoldable pub max_before_column : CircuitModel R → ℕ
  unfolding get_circuit_depth
  max_before_column circuit = max 1 (get_circuit_depth circuit + 1)

  unfoldable pub on_insert_columns : CircuitModel R → ℤ → ℤ → Option (CircuitModel R)
  unfolding commit_circuit insert_columns_before max_before_column
  on_insert_columns circuit raw_before raw_count =
      let resolved_before = clamp_column raw_before (max_before_column circuit) in
      let resolved_count = max 1 (pos_part raw_count) in
      commit_circuit
        (insert_columns_before circuit (pos (resolved_before - 1)) (pos resolved_count))

  unfoldable pub on_delete_empty_columns : CircuitModel R → ℤ → ℤ → Option (CircuitModel R)
  unfolding commit_circuit delete_empty_columns_before max_before_column
  on_delete_empty_columns circuit raw_before raw_count =
      let resolved_before = clamp_column raw_before (max_before_column circuit) in
      let normalized_count = max 1 (pos_part raw_count) in
      let resolved_count = min normalized_count (resolved_before - 1) in
      if resolved_count == 0
      then none
      else elim (delete_empty_columns_before circuit (pos (resolved_before - 1))
          (pos resolved_count)) [ not_deleted _ ↦ none | deleted model ↦ commit_circuit model ]
