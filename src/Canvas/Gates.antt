-- ===== src/Canvas/Gates.antt =====
-- How gates are placed on the canvas and their parameters changed:
-- frontend/src/features/circuit/components/use-circuit-canvas-interactions.ts, with the cells of
-- circuit-canvas-helpers.tsx. A handler returns the pending placement and the selection that it
-- leaves, and the circuit that it gives to `onCircuitChange`, if any. The messages are left out.
use mvp_qcp.Base.{
  ℕ, zero, suc, Bool, true, false, not, ◌&&◌, ◌||◌, Option, none, some, List, [], ◌∷◌, String,
  str_eq, find, length, includes, leb, ltb, ◌==◌, maximum, minimum, if◌then◌else◌, or_else,
}
use mvp_qcp.Gate.{GateName, gate_text, all_gates}
use mvp_qcp.Circuit.{Operation, CircuitModel, Collation, touched_qubits}
use mvp_qcp.Circuit.Edit.{UpdateOperationInput, add_operation, update_operation}
use mvp_qcp.Placement.{
  PendingPlacement, same_qubit, continue_with, done_with, is_supported_gate, is_parameterized_gate,
  create_pending_placement, build_single_qubit_operation, advance_pending_placement,
}
use mvp_qcp.Canvas.{commit_circuit}

-- The qubit is on the line between the first and the last qubit of the list: `getConnectorSegment`
-- is not null.
abbrev pub within : ℕ → List ℕ → Bool
within qubit [] = false
within qubit (q ∷ qs) =
    ltb 0 (length qs) && not (ltb qubit (minimum q qs) || ltb (maximum q qs) qubit)

module _ {R : Type 0} where
  abbrev pub includes_qubit : Operation R → ℕ → Bool
  includes_qubit o qubit = includes qubit o.targets || includes qubit (or_else o.controls [])

  unfoldable pub find_operation_at_cell : List (Operation R) → ℕ → ℕ → Option (Operation R)
  find_operation_at_cell operations qubit layer =
      find (λ o. o.layer == layer && includes_qubit o qubit) operations

  abbrev pub is_multi_qubit_operation : Operation R → Bool
  is_multi_qubit_operation o = ltb 1 (length (touched_qubits o))

  unfoldable pub find_connector_operation_at_cell :
      List (Operation R) → ℕ → ℕ → Option (Operation R)
  find_connector_operation_at_cell operations qubit layer =
      find
        (λ o.
          not (not (o.layer == layer) || not (is_multi_qubit_operation o))
          && within qubit (touched_qubits o))
        operations

  unfoldable pub is_connector_span_blocked_cell : List (Operation R) → ℕ → ℕ → Bool
  unfolding find_operation_at_cell find_connector_operation_at_cell
  is_connector_span_blocked_cell operations qubit layer =
      elim (find_connector_operation_at_cell operations qubit layer) [
        | none ↦ false
        | some connector ↦ elim (find_operation_at_cell operations qubit layer) [
          | none ↦ true
          | some o ↦ not (str_eq o.id connector.id)
        ]
      ]

abbrev pub is_found : {A : Type 0} → Option A → Bool
is_found none = false
is_found (some a) = true

pub record CanvasState (R : Type 0) : Type 0 where
  pub pending_placement : Option PendingPlacement
  pub selected_operation_id : Option String
  pub parameter_draft : Option (List R)

pub record Handled (R : Type 0) : Type 0 where
  pub state : CanvasState R
  pub handed_on : Option (CircuitModel R)

abbrev pub leaves : {R : Type 0} → CanvasState R → Handled R
leaves state = record { state = state; handed_on = none }

abbrev pub replace_at : {A : Type 0} → ℕ → A → List A → List A
replace_at n y [] = []
replace_at zero y (x ∷ xs) = y ∷ xs
replace_at (suc n) y (x ∷ xs) = x ∷ replace_at n y xs

-- The gate of a name, where `isSupportedGate` accepts it.
unfoldable pub supported_gate : String → Option GateName
unfolding is_supported_gate gate_text
supported_gate raw_gate =
    if not (is_supported_gate raw_gate)
    then none
    else find (λ gate. str_eq (gate_text gate) raw_gate) all_gates

-- `initial` is the number that parameters begin with.
module _ ⦃c : Collation⦄ {R : Type 0} (initial : R) where
  -- `onDropGate` of a supported gate on a free cell
  unfoldable pub drop_on_free_cell :
      CircuitModel R → CanvasState R → GateName → ℕ → ℕ → String → Handled R
  unfolding create_pending_placement add_operation build_single_qubit_operation commit_circuit
  drop_on_free_cell circuit state gate qubit layer fresh =
      elim (create_pending_placement gate qubit layer) [
        | some pending ↦
            leaves (record state { pending_placement = some pending; selected_operation_id = none })
        | none ↦ record {
          state = record state { pending_placement = none };
          handed_on =
              commit_circuit (
                add_operation circuit (build_single_qubit_operation initial gate qubit layer)
                  fresh);
        }
      ]

  -- `fresh` is the id of the operation that may be added.
  unfoldable pub on_drop_gate : CircuitModel R → CanvasState R → String → ℕ → ℕ → String → Handled R
  unfolding find_operation_at_cell is_connector_span_blocked_cell drop_on_free_cell supported_gate
  on_drop_gate circuit state raw_gate qubit layer fresh = elim (supported_gate raw_gate) [
    | none ↦ leaves state
    | some gate ↦
        if is_found (find_operation_at_cell circuit.operations qubit layer)
        then leaves state
        else if is_connector_span_blocked_cell circuit.operations qubit layer
        then leaves state
        else drop_on_free_cell circuit state gate qubit layer fresh
  ]

  -- `onCellClick` from where the placement goes on
  unfoldable pub advance_on_free_cell :
      CircuitModel R → CanvasState R → PendingPlacement → ℕ → String → Handled R
  unfolding advance_pending_placement add_operation commit_circuit
  advance_on_free_cell circuit state pending qubit fresh =
      elim (advance_pending_placement initial pending qubit) [
        | same_qubit ↦ leaves state
        | continue_with next ↦ leaves (record state { pending_placement = some next })
        | done_with operation ↦ elim (commit_circuit (add_operation circuit operation fresh)) [
          | none ↦ leaves state
          | some next ↦ record {
            state = record state { pending_placement = none };
            handed_on = some next;
          }
        ]
      ]

  unfoldable pub on_cell_click : CircuitModel R → CanvasState R → ℕ → ℕ → String → Handled R
  unfolding find_operation_at_cell is_connector_span_blocked_cell advance_on_free_cell
  on_cell_click circuit state qubit layer fresh = elim state.pending_placement [
    | none ↦ leaves (record state {
      selected_operation_id = elim (find_operation_at_cell circuit.operations qubit layer) [
        | none ↦ none
        | some o ↦ some o.id
      ];
    })
    | some pending ↦
        if not (layer == pending.layer)
        then leaves state
        else if is_found (find_operation_at_cell circuit.operations qubit layer)
        then leaves state
        else if is_connector_span_blocked_cell circuit.operations qubit layer
        then leaves state
        else advance_on_free_cell circuit state pending qubit fresh
  ]

module _ {R : Type 0} where
  unfoldable pub selected_operation : CircuitModel R → Option String → Option (Operation R)
  selected_operation circuit none = none
  selected_operation circuit (some id) =
      if str_eq id "" then none else find (λ o. str_eq o.id id) circuit.operations

  abbrev pub params_input : List R → UpdateOperationInput R
  params_input params = record {
    layer = none;
    targets = none;
    controls = none;
    params = some params;
  }

module _ ⦃c : Collation⦄ {R : Type 0} (is_finite : R → Bool) where
  -- `onParamChange` of the selected operation, with its draft; the level of the feedback is "error"
  -- where the value is not finite.
  unfoldable pub change_param :
      CircuitModel R → CanvasState R → Operation R → List R → ℕ → R → Handled R
  unfolding update_operation commit_circuit is_parameterized_gate
  change_param circuit state o draft index value =
      if not (is_parameterized_gate o.gate)
      then leaves state
      else if leb (length draft) index
      then leaves state
      else if not (is_finite value)
      then leaves state
      else record {
        state = record state { parameter_draft = some (replace_at index value draft) };
        handed_on =
            commit_circuit
              (update_operation circuit o.id (params_input (replace_at index value draft)));
      }

  unfoldable pub on_param_change : CircuitModel R → CanvasState R → ℕ → R → Handled R
  unfolding change_param selected_operation
  on_param_change circuit state index value =
      elim (selected_operation circuit state.selected_operation_id) [
        | none ↦ leaves state
        | some o ↦ elim state.parameter_draft [
          | none ↦ leaves state
          | some draft ↦ change_param circuit state o draft index value
        ]
      ]
