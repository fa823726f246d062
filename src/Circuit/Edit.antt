-- ===== src/Circuit/Edit.antt =====
-- frontend/src/features/circuit/model/circuit-model.ts: the edits of a circuit, and
-- complexity-guard.ts. Columns and counts come from the user as integers of either sign.
use Prim.Native.String.{◌++◌ as str_append}
use mvp_qcp.Base.{
  ℕ, zero, suc, ◌+◌, ◌-◌, ◌≡◌, Bool, true, false, not, ◌&&◌, ◌++◌, Option, none, some, List, [],
  ◌∷◌, map, max, String, str_eq, ltb, leb, ◌==◌, or_else, if◌then◌else◌, length, find, any, filter,
}
use mvp_qcp.Base.Decimal.{decimal}
use mvp_qcp.Base.Int.{ℤ, pos, negsuc, pos_part}
use mvp_qcp.Gate.{GateName}
use mvp_qcp.Circuit.{
  Operation, CircuitModel, QubitBoundary, Collation, touched_qubits, sort_operations,
  local_sim_max_qubits, max_depth, max_gates,
}
pub mod Normal
pub mod NormalForm
pub mod Columns
pub mod Depth
pub mod Qubits
pub mod Invariant

pub record AddOperationInput (R : Type 0) : Type 0 where
  pub gate : GateName
  pub layer : ℕ
  pub targets : List ℕ
  pub controls : Option (List ℕ)
  pub params : Option (List R)

pub record UpdateOperationInput (R : Type 0) : Type 0 where
  pub layer : Option ℕ
  pub targets : Option (List ℕ)
  pub controls : Option (List ℕ)
  pub params : Option (List R)

-- The error codes, with the operation that an error names.
pub data QubitAdjustError : Type 0 where
  qubit_min_reached qubit_max_reached : QubitAdjustError
  qubit_shrink_blocked_by_operation : String → QubitAdjustError

pub data QubitAdjustResult (R : Type 0) : Type 0 where
  adjusted : CircuitModel R → QubitAdjustResult R
  refused : QubitAdjustError → QubitAdjustResult R

-- The blocking error carries the layer and the id of the operation in the way.
pub data ColumnDeleteError : Type 0 where
  column_delete_invalid_range : ColumnDeleteError
  column_delete_blocked_by_operation : ℕ → String → ColumnDeleteError

pub data DeleteEmptyColumnsResult (R : Type 0) : Type 0 where
  deleted : CircuitModel R → DeleteEmptyColumnsResult R
  not_deleted : ColumnDeleteError → DeleteEmptyColumnsResult R

pub data ComplexityErrorCode : Type 0 where
  qubit_limit_exceeded depth_limit_exceeded gate_limit_exceeded : ComplexityErrorCode

-- `ok` is true exactly where no code is given.
pub record ComplexityReport : Type 0 where
  pub ok : Bool
  pub qubits : ℕ
  pub depth : ℕ
  pub total_gates : ℕ
  pub code : Option ComplexityErrorCode

abbrev op_id : ℕ → String
op_id index = str_append "op-" (decimal index)

module _ {R : Type 0} where
  -- Copies share no array with the original, which a value does not show; an empty id is replaced.
  unfoldable pub normalize_operation : Operation R → ℕ → Operation R
  normalize_operation o index = record o { id = if str_eq o.id "" then op_id index else o.id }

  -- `operations.map(normalizeOperation)`, from the given index on
  unfoldable pub normalize_from : ℕ → List (Operation R) → List (Operation R)
  unfolding normalize_operation
  normalize_from index [] = []
  normalize_from index (o ∷ os) = normalize_operation o index ∷ normalize_from (suc index) os

  unfoldable pub create_circuit : ℕ → CircuitModel R
  create_circuit num_qubits = record { num_qubits = num_qubits; operations = [] }

  update_fields : UpdateOperationInput R → Operation R → Operation R
  update_fields input o = record o {
    layer = or_else input.layer o.layer;
    targets = or_else input.targets o.targets;
    controls = elim input.controls [ none ↦ o.controls | some cs ↦ some cs ];
    params = elim input.params [ none ↦ o.params | some ps ↦ some ps ];
  }

  unfoldable pub insert_shift : ℕ → ℕ → Operation R → Operation R
  insert_shift before count o = record o {
    layer = if leb before o.layer then o.layer + count else o.layer;
  }

  unfoldable pub delete_shift : ℕ → ℕ → Operation R → Operation R
  delete_shift before count o = record o {
    layer = if leb before o.layer then o.layer - count else o.layer;
  }

  -- `operations.reduce((max, operation) => Math.max(max, operation.layer), 0)`
  unfoldable pub max_layer : ℕ → List (Operation R) → ℕ
  max_layer current [] = current
  max_layer current (o ∷ os) = max_layer (max current o.layer) os

  unfoldable pub get_circuit_depth : CircuitModel R → ℕ
  unfolding max_layer
  get_circuit_depth m = elim m.operations [ [] ↦ 0 | o ∷ os ↦ max_layer 0 (o ∷ os) + 1 ]

  unfoldable pub get_total_gates : CircuitModel R → ℕ
  get_total_gates m = length m.operations

  unfoldable pub touches_qubit_beyond : Operation R → ℕ → Bool
  touches_qubit_beyond o next_qubit_count = any (λ q. leb next_qubit_count q) (touched_qubits o)

  unfoldable pub evaluate_complexity : CircuitModel R → ComplexityReport
  unfolding get_circuit_depth get_total_gates
  evaluate_complexity m =
      let depth = get_circuit_depth m in
      let total_gates = get_total_gates m in
      let report : Bool → Option ComplexityErrorCode → ComplexityReport = λ ok code. record {
        ok = ok;
        qubits = m.num_qubits;
        depth = depth;
        total_gates = total_gates;
        code = code;
      } in
      if ltb max_depth depth
      then report false (some depth_limit_exceeded)
      else if ltb max_gates total_gates
      then report false (some gate_limit_exceeded)
      else report true none

  -- Whether `getLocalSimulationGuardMessage` gives a message.
  unfoldable pub local_simulation_blocked : CircuitModel R → Bool
  local_simulation_blocked m = ltb local_sim_max_qubits m.num_qubits

module _ ⦃c : Collation⦄ {R : Type 0} where
  unfoldable pub normalize_circuit : CircuitModel R → CircuitModel R
  unfolding normalize_from sort_operations
  normalize_circuit m = record {
    num_qubits = m.num_qubits;
    operations = sort_operations (normalize_from 0 m.operations);
  }

  -- `fresh` is the id that `Date.now()` and `Math.random()` make.
  unfoldable pub add_operation : CircuitModel R → AddOperationInput R → String → CircuitModel R
  unfolding normalize_circuit
  add_operation m input fresh =
      let operation : Operation R = record {
        id = fresh;
        gate = input.gate;
        targets = input.targets;
        controls = input.controls;
        params = input.params;
        layer = input.layer;
      } in
      normalize_circuit (record m { operations = m.operations ++ operation ∷ [] })

  unfoldable pub remove_operation : CircuitModel R → String → CircuitModel R
  unfolding normalize_circuit
  remove_operation m operation_id =
      normalize_circuit
        (record m { operations = filter (λ o. not (str_eq o.id operation_id)) m.operations })

  unfoldable pub update_operation :
      CircuitModel R → String → UpdateOperationInput R → CircuitModel R
  unfolding normalize_circuit update_fields
  update_operation m operation_id input = normalize_circuit (record m {
    operations =
        map (λ o. if not (str_eq o.id operation_id) then o else update_fields input o) m.operations;
  })

  -- `Math.max(0, Math.trunc(n))` of an integer is its positive part.
  unfoldable pub insert_columns_before : CircuitModel R → ℤ → ℤ → CircuitModel R
  unfolding normalize_circuit insert_shift
  insert_columns_before m before_layer count =
      let before = pos_part before_layer in
      let count' = pos_part count in
      if count' == 0
      then normalize_circuit m
      else normalize_circuit
          (record m { operations = map (insert_shift before count') m.operations })

  unfoldable pub delete_empty_columns_before : CircuitModel R → ℤ → ℤ → DeleteEmptyColumnsResult R
  unfolding normalize_circuit delete_shift
  delete_empty_columns_before m before_layer count =
      let before = pos_part before_layer in
      let count' = pos_part count in
      if count' == 0
      then deleted (normalize_circuit m)
      else if ltb before count'
      then not_deleted column_delete_invalid_range
      else elim (find (λ o. leb (before - count') o.layer && ltb o.layer before) m.operations) [
        | some o ↦ not_deleted (column_delete_blocked_by_operation o.layer o.id)
        | none ↦ deleted (
            normalize_circuit
              (record m { operations = map (delete_shift before count') m.operations }))
      ]

  unfoldable pub insert_leading_layer : CircuitModel R → CircuitModel R
  unfolding insert_columns_before
  insert_leading_layer m = insert_columns_before m (pos 0) (pos 1)

  unfoldable pub increase_qubits : CircuitModel R → QubitBoundary → QubitAdjustResult R
  unfolding normalize_circuit
  increase_qubits m boundary =
      if leb boundary.max_qubits m.num_qubits
      then refused qubit_max_reached
      else adjusted (normalize_circuit (record m { num_qubits = m.num_qubits + 1 }))

  -- `numQubits - 1` is not below 0 where the boundary's minimum is not.
  unfoldable pub decrease_qubits : CircuitModel R → QubitBoundary → QubitAdjustResult R
  unfolding normalize_circuit touches_qubit_beyond
  decrease_qubits m boundary =
      if leb m.num_qubits boundary.min_qubits
      then refused qubit_min_reached
      else elim (find (λ o. touches_qubit_beyond o (m.num_qubits - 1)) m.operations) [
        | some o ↦ refused (qubit_shrink_blocked_by_operation o.id)
        | none ↦ adjusted (normalize_circuit (record m { num_qubits = m.num_qubits - 1 }))
      ]
