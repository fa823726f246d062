-- ===== src/TimeStep.antt =====
-- frontend/src/features/circuit/ui/workbench-time-step.ts: the part of the circuit that is simulated
-- when the step slider stands at a step.
use mvp_qcp.Base.{
  ℕ, zero, suc, ◌+◌, ◌-◌, Option, none, some, List, map, String, length, take, drop, min, ◌==◌,
  if◌then◌else◌,
}
use mvp_qcp.Base.Int.{ℤ, pos, negsuc}
use mvp_qcp.Circuit.{Operation, CircuitModel, Collation, sort_operations}
pub mod Laws

-- `Math.max(0, Math.min(step, totalGates))`
abbrev pub clamp_step : ℤ → ℕ → ℕ
clamp_step (pos step) total_gates = min step total_gates
clamp_step (negsuc _) total_gates = 0

-- `xs ? [...xs] : undefined`
abbrev copy_list {ℓ} : {A : Type ℓ} → Option (List A) → Option (List A)
copy_list none = none
copy_list (some xs) = some xs

module _ {R : Type 0} where
  abbrev pub clone_operation : Operation R → Operation R
  clone_operation o = record {
    id = o.id;
    gate = o.gate;
    targets = o.targets;
    controls = copy_list o.controls;
    params = copy_list o.params;
    layer = o.layer;
  }

  module _ ⦃c : Collation⦄ where
    unfoldable pub slice_circuit_by_simulation_step : CircuitModel R → ℤ → CircuitModel R
    unfolding sort_operations
    slice_circuit_by_simulation_step circuit simulation_step =
        let ordered = sort_operations circuit.operations in
        let bounded_step = clamp_step simulation_step (length ordered) in
        record {
          num_qubits = circuit.num_qubits;
          operations = map clone_operation (take bounded_step ordered);
        }

    unfoldable pub get_future_operation_ids_at_simulation_step : CircuitModel R → ℤ → List String
    unfolding sort_operations
    get_future_operation_ids_at_simulation_step circuit simulation_step =
        let ordered = sort_operations circuit.operations in
        let bounded_step = clamp_step simulation_step (length ordered) in
        map (λ o. o.id) (drop bounded_step ordered)

unfoldable pub clamp_simulation_step_on_circuit_change : ℤ → ℕ → ℕ → ℕ
clamp_simulation_step_on_circuit_change previous_step previous_total_gates next_total_gates =
    let safe_previous_step = clamp_step previous_step previous_total_gates in
    if safe_previous_step == previous_total_gates
    then next_total_gates
    else min safe_previous_step next_total_gates
