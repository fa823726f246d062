-- ===== src/Circuit/Validation.antt =====
-- frontend/src/features/circuit/model/circuit-validation.ts. The message of an error is left out,
-- with the layer and the qubit that it names kept.
use mvp_qcp.Base.{
  ℕ, zero, suc, ◌+◌, ◌-◌, Bool, true, false, not, ◌&&◌, ◌||◌, Option, none, some, List, [], ◌∷◌,
  String, str_eq, ltb, leb, ◌==◌, if◌then◌else◌, length, find, filter, includes, maximum, minimum,
  min,
}
use mvp_qcp.Gate.{GateName}
use mvp_qcp.Circuit.{Operation, CircuitModel, Collation, touched_qubits, sort_operations}
pub mod Distinct
pub mod Span
pub mod Cells
pub mod Measurement
pub mod Laws

pub data CircuitValidationError : Type 0 where
  invalid_multi_qubit_operation : String → CircuitValidationError
  cell_conflict : ℕ → ℕ → String → CircuitValidationError
  non_terminal_measurement : String → CircuitValidationError

-- `[...new Set(qubits)]`: each element once, where it first stands.
unfoldable pub unique : List ℕ → List ℕ
unique [] = []
unique (q ∷ qs) = q ∷ filter (λ p. not (p == q)) (unique qs)

-- n numbers from q on
unfoldable pub range_from : ℕ → ℕ → List ℕ
range_from q zero = []
range_from q (suc n) = q ∷ range_from (suc q) n

abbrev pub is_measurement : GateName → Bool
is_measurement GateName.m = true
is_measurement _ = false

-- A cell of the canvas with the id of the operation that holds it; the map `occupied` of the source
-- is a list of these, the newest first.
pub record Cell : Type 0 where
  pub layer : ℕ
  pub qubit : ℕ
  pub holder : String

unfoldable pub holder_of : List Cell → ℕ → ℕ → Option String
holder_of [] layer qubit = none
holder_of (c ∷ cs) layer qubit =
    if c.layer == layer && c.qubit == qubit then some c.holder else holder_of cs layer qubit

-- `existing && existing !== operation.id`
abbrev pub is_taken : Option String → String → Bool
is_taken none id = false
is_taken (some holder) id = not (str_eq holder "") && not (str_eq holder id)

pub data Scan : Type 0 where
  conflict : ℕ → ℕ → String → Scan
  clear : List Cell → Scan

-- `Math.min` and `Math.max` are taken of at least two qubits.
abbrev span : List ℕ → List ℕ
span [] = []
span (q ∷ qs) = range_from (minimum q qs) (maximum q qs - minimum q qs + 1)

module _ {R : Type 0} where
  unfoldable pub to_touched_qubits : Operation R → List ℕ
  unfolding unique
  to_touched_qubits o = unique (touched_qubits o)

  unfoldable pub to_occupied_qubits : Operation R → List ℕ
  unfolding to_touched_qubits range_from
  to_occupied_qubits o =
      let touched = to_touched_qubits o in if ltb (length touched) 2 then touched else span touched

  unfoldable pub find_invalid_multi_qubit_operation : List (Operation R) → Option (Operation R)
  unfolding unique
  find_invalid_multi_qubit_operation operations =
      find (λ o. not (length (unique (touched_qubits o)) == length (touched_qubits o))) operations

  -- the inner loop of `findCellConflict`, over the qubits of one operation
  unfoldable pub occupy : Operation R → List ℕ → List Cell → Scan
  unfolding holder_of
  occupy o [] occupied = clear occupied
  occupy o (q ∷ qs) occupied =
      let rest = occupy o qs (record { layer = o.layer; qubit = q; holder = o.id } ∷ occupied) in
      if is_taken (holder_of occupied o.layer q) o.id then conflict o.layer q o.id else rest

  -- the outer loop
  unfoldable pub scan_cells : List (Operation R) → List Cell → Scan
  unfolding occupy to_occupied_qubits
  scan_cells [] occupied = clear occupied
  scan_cells (o ∷ os) occupied = elim (occupy o (to_occupied_qubits o) occupied) [
    | conflict l q id ↦ conflict l q id
    | clear occupied' ↦ scan_cells os occupied'
  ]

  unfoldable pub find_cell_conflict : List (Operation R) → Scan
  unfolding scan_cells
  find_cell_conflict operations = scan_cells operations []

  -- `reduce` over the measurements, from `null`
  unfoldable pub first_layer : Option ℕ → List (Operation R) → Option ℕ
  first_layer least [] = least
  first_layer none (o ∷ os) = first_layer (some o.layer) os
  first_layer (some l) (o ∷ os) = first_layer (some (min l o.layer)) os

  unfoldable pub find_non_terminal_measurement : List (Operation R) → Option (Operation R)
  unfolding first_layer
  find_non_terminal_measurement operations =
      elim (first_layer none (filter (λ o. is_measurement o.gate) operations)) [
        | none ↦ none
        | some l ↦ find (λ o. not (is_measurement o.gate) && leb l o.layer) operations
      ]

  -- The three checks of `validateCircuitModel`, in their order.
  unfoldable pub check_operations : List (Operation R) → Option CircuitValidationError
  unfolding find_invalid_multi_qubit_operation find_cell_conflict find_non_terminal_measurement
  check_operations operations = elim (find_invalid_multi_qubit_operation operations) [
    | some o ↦ some (invalid_multi_qubit_operation o.id)
    | none ↦ elim (find_cell_conflict operations) [
      | conflict l q id ↦ some (cell_conflict l q id)
      | clear _ ↦ elim (find_non_terminal_measurement operations) [
        | some o ↦ some (non_terminal_measurement o.id)
        | none ↦ none
      ]
    ]
  ]

-- `none` where the source returns `{ ok: true }`
unfoldable pub validate_circuit_model :
    ⦃c : Collation⦄ {R : Type 0} → CircuitModel R → Option CircuitValidationError
unfolding check_operations sort_operations
validate_circuit_model m = check_operations (sort_operations m.operations)
