-- ===== src/Placement.antt =====
-- frontend/src/features/circuit/components/canvas-gate-utils.ts: how a gate that is dropped on the
-- canvas collects its qubits. `initial` is the number 0 of the parameters' type, the value that a
-- parameter has at first.
use mvp_qcp.Base.{
  ℕ, ◌+◌, ◌≡◌, Bool, true, false, ◌||◌, Option, none, some, List, [], ◌∷◌, ◌++◌, map, String,
  str_eq, length, take, drop, any, includes, ltb, leb, if◌then◌else◌, or_else,
}
use mvp_qcp.Gate.{
  GateName, i, x, y, z, h, sx, sy, s, sdg, t, tdg, rx, ry, rz, u, p, cx, cy, ch, cp, cz, ccx, ccz,
  swap, cswap, rxx, ryy, rzz, rzx, m, gate_text, GateCatalogItem, get_gate_catalog,
}
use mvp_qcp.Gate.Lookup.{get_gate_catalog_item}
use mvp_qcp.Circuit.{Operation}
use mvp_qcp.Circuit.Edit.{AddOperationInput}
pub mod Shape
pub mod Laws
pub mod Completion

pub record PendingPlacement : Type 0 where
  pub gate : GateName
  pub layer : ℕ
  pub selected_qubits : List ℕ
  pub required_qubits : ℕ
  pub control_count : ℕ
  pub target_count : ℕ

pub data AdvancePendingPlacementResult (R : Type 0) : Type 0 where
  same_qubit : AdvancePendingPlacementResult R
  continue_with : PendingPlacement → AdvancePendingPlacementResult R
  done_with : AddOperationInput R → AdvancePendingPlacementResult R

-- `SUPPORTED_GATES.has(value)`
unfoldable pub is_supported_gate : String → Bool
unfolding get_gate_catalog gate_text
is_supported_gate value = any (str_eq value) (map (λ item. gate_text item.name) get_gate_catalog)

-- `PARAMETER_LABELS`
unfoldable pub parameter_labels : GateName → List String
parameter_labels rx = "theta" ∷ []
parameter_labels ry = "theta" ∷ []
parameter_labels rz = "theta" ∷ []
parameter_labels u = "theta" ∷ "phi" ∷ "lambda" ∷ []
parameter_labels p = "lambda" ∷ []
parameter_labels cp = "lambda" ∷ []
parameter_labels rxx = "theta" ∷ []
parameter_labels ryy = "theta" ∷ []
parameter_labels rzz = "theta" ∷ []
parameter_labels rzx = "theta" ∷ []
parameter_labels _ = []

unfoldable pub is_parameterized_gate : GateName → Bool
is_parameterized_gate rx = true
is_parameterized_gate ry = true
is_parameterized_gate rz = true
is_parameterized_gate u = true
is_parameterized_gate p = true
is_parameterized_gate cp = true
is_parameterized_gate rxx = true
is_parameterized_gate ryy = true
is_parameterized_gate rzz = true
is_parameterized_gate rzx = true
is_parameterized_gate _ = false

unfoldable pub create_pending_placement : GateName → ℕ → ℕ → Option PendingPlacement
unfolding get_gate_catalog_item
create_pending_placement gate source_qubit layer = elim (get_gate_catalog_item gate) [
  | none ↦ none
  | some catalog ↦
      let required_qubits = catalog.control_count + catalog.target_count in
      if leb required_qubits 1
      then none
      else some (record {
        gate = gate;
        layer = layer;
        selected_qubits = source_qubit ∷ [];
        required_qubits = required_qubits;
        control_count = catalog.control_count;
        target_count = catalog.target_count;
      })
]

module _ {R : Type 0} (initial : R) where
  unfoldable pub get_default_params : GateName → Option (List R)
  get_default_params rx = some (initial ∷ [])
  get_default_params ry = some (initial ∷ [])
  get_default_params rz = some (initial ∷ [])
  get_default_params rxx = some (initial ∷ [])
  get_default_params ryy = some (initial ∷ [])
  get_default_params rzz = some (initial ∷ [])
  get_default_params rzx = some (initial ∷ [])
  get_default_params u = some (initial ∷ initial ∷ initial ∷ [])
  get_default_params p = some (initial ∷ [])
  get_default_params cp = some (initial ∷ [])
  get_default_params _ = none

  unfoldable pub build_single_qubit_operation : GateName → ℕ → ℕ → AddOperationInput R
  unfolding get_default_params
  build_single_qubit_operation gate qubit layer = record {
    gate = gate;
    targets = qubit ∷ [];
    controls = none;
    params = get_default_params gate;
    layer = layer;
  }

  unfoldable pub build_operation_from_pending : PendingPlacement → AddOperationInput R
  unfolding get_default_params
  build_operation_from_pending pending =
      let controls = take pending.control_count pending.selected_qubits in
      record {
        gate = pending.gate;
        targets = take pending.target_count (drop pending.control_count pending.selected_qubits);
        controls = if ltb 0 (length controls) then some controls else none;
        params = get_default_params pending.gate;
        layer = pending.layer;
      }

  unfoldable pub advance_pending_placement : PendingPlacement → ℕ → AdvancePendingPlacementResult R
  unfolding build_operation_from_pending
  advance_pending_placement pending qubit =
      let selected_qubits = pending.selected_qubits ++ qubit ∷ [] in
      let next_pending : PendingPlacement = record {
        gate = pending.gate;
        layer = pending.layer;
        selected_qubits = selected_qubits;
        required_qubits = pending.required_qubits;
        control_count = pending.control_count;
        target_count = pending.target_count;
      } in
      if includes qubit pending.selected_qubits
      then same_qubit
      else if ltb (length selected_qubits) pending.required_qubits
      then continue_with next_pending
      else done_with (build_operation_from_pending next_pending)

  unfoldable pub get_parameter_values : Operation R → List R
  unfolding is_parameterized_gate get_default_params
  get_parameter_values operation =
      let own = or_else operation.params [] in
      if is_parameterized_gate operation.gate
      then (if ltb 0 (length own) then own else or_else (get_default_params operation.gate) [])
      else []
