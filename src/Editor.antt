-- ===== src/Editor.antt =====
-- The state of the workbench's editor: frontend/src/features/circuit/ui/use-workbench-editor-state.ts
-- and use-workbench-canvas-controls.ts, with the comparison of circuits of workbench-model-utils.ts.
-- Of the state, the history and the step of the slider are kept. `same_param` compares two
-- parameters after the host's `Number(value.toFixed(12))`.
use mvp_qcp.Base.{
  ℕ, ◌+◌, Bool, true, false, not, ◌&&◌, ◌⊎◌, inl, inr, Option, none, some, List, [], ◌∷◌, String,
  str_eq, length, min, ◌==◌, if◌then◌else◌, or_else,
}
use mvp_qcp.Base.Int.{ℤ, pos}
use mvp_qcp.Gate.{gate_text}
use mvp_qcp.Circuit.{
  Operation, CircuitModel, QubitBoundary, Collation, sort_operations, editor_min_qubits,
  editor_max_qubits,
}
use mvp_qcp.Circuit.Edit.{adjusted, refused, increase_qubits, decrease_qubits}
use mvp_qcp.History.{
  EditorHistoryState, default_history_limit, create_history_state, push_history_state,
  undo_history_state, redo_history_state,
}
use mvp_qcp.TimeStep.{clamp_step, clamp_simulation_step_on_circuit_change}
use mvp_qcp.Template.{
  LoadCircuitTemplateOptions, load_circuit_template, bell_template, clone_circuit_model,
}
pub mod Steps

abbrev pub editor_boundary : QubitBoundary
editor_boundary = record { min_qubits = editor_min_qubits; max_qubits = editor_max_qubits }

-- The loops over two lists of one length.
abbrev pub same_all {ℓ} : {A : Type ℓ} → (A → A → Bool) → List A → List A → Bool
same_all same [] ys = true
same_all same (x ∷ xs) [] = false
same_all same (x ∷ xs) (y ∷ ys) = same x y && same_all same xs ys

pub record WorkbenchEditorState (R : Type 0) : Type 0 where
  pub history : EditorHistoryState (CircuitModel R)
  pub simulation_step : ℕ

module _ {R : Type 0} where
  abbrev pub operations_count : CircuitModel R → ℕ
  operations_count m = length m.operations

  -- `clampInitialSimulationStep`
  unfoldable pub clamp_initial_simulation_step : CircuitModel R → Option ℤ → ℕ
  clamp_initial_simulation_step circuit none = operations_count circuit
  clamp_initial_simulation_step circuit (some step) = clamp_step step (operations_count circuit)

  -- `useWorkbenchEditorState` at first, with a draft's circuit and step or the default circuit.
  unfoldable pub initial_state : CircuitModel R → Option ℤ → WorkbenchEditorState R
  unfolding clamp_initial_simulation_step
  initial_state circuit step = record {
    history = create_history_state circuit;
    simulation_step = clamp_initial_simulation_step circuit step;
  }

  module _ (same_param : R → R → Bool) where
    unfoldable pub same_operation : Operation R → Operation R → Bool
    unfolding gate_text
    same_operation l r =
        let left_controls = or_else l.controls [] in
        let right_controls = or_else r.controls [] in
        let left_params = or_else l.params [] in
        let right_params = or_else r.params [] in
        str_eq (gate_text l.gate) (gate_text r.gate)
        && l.layer == r.layer
        && length l.targets == length r.targets
        && length left_controls == length right_controls
        && length left_params == length right_params
        && same_all ◌==◌ l.targets r.targets
        && same_all ◌==◌ left_controls right_controls
        && same_all same_param left_params right_params

    module _ ⦃c : Collation⦄ where
      unfoldable pub are_circuits_layout_equivalent : CircuitModel R → CircuitModel R → Bool
      unfolding same_operation sort_operations
      are_circuits_layout_equivalent l r =
          let left_operations = sort_operations l.operations in
          let right_operations = sort_operations r.operations in
          l.num_qubits == r.num_qubits
          && length left_operations == length right_operations
          && same_all same_operation left_operations right_operations

      unfoldable pub create_next_history_state :
          EditorHistoryState (CircuitModel R) → CircuitModel R → EditorHistoryState (CircuitModel R)
      unfolding are_circuits_layout_equivalent push_history_state
      create_next_history_state previous next =
          push_history_state are_circuits_layout_equivalent default_history_limit previous next

      unfoldable pub push_circuit : CircuitModel R → WorkbenchEditorState R → WorkbenchEditorState R
      unfolding create_next_history_state clamp_simulation_step_on_circuit_change
      push_circuit next s = record {
        simulation_step =
            clamp_simulation_step_on_circuit_change (pos s.simulation_step)
              (operations_count s.history.present) (operations_count next);
        history = create_next_history_state s.history next;
      }

      unfoldable pub on_clear_circuit : WorkbenchEditorState R → WorkbenchEditorState R
      unfolding push_circuit
      on_clear_circuit s =
          push_circuit (record { num_qubits = s.history.present.num_qubits; operations = [] }) s

      unfoldable pub on_increase_qubits : WorkbenchEditorState R → WorkbenchEditorState R
      unfolding push_circuit increase_qubits
      on_increase_qubits s = elim (increase_qubits s.history.present editor_boundary) [
        | refused _ ↦ s
        | adjusted model ↦ push_circuit model s
      ]

      unfoldable pub on_decrease_qubits : WorkbenchEditorState R → WorkbenchEditorState R
      unfolding push_circuit decrease_qubits
      on_decrease_qubits s = elim (decrease_qubits s.history.present editor_boundary) [
        | refused _ ↦ s
        | adjusted model ↦ push_circuit model s
      ]

      unfoldable pub on_load_template :
          (ℕ → R)
          → String
          → LoadCircuitTemplateOptions
          → WorkbenchEditorState R
          → WorkbenchEditorState R
      unfolding push_circuit load_circuit_template
      on_load_template angle template_id options s =
          elim (load_circuit_template angle template_id options) [
            | inl _ ↦ s
            | inr model ↦ push_circuit model s
          ]

  unfoldable pub apply_history_transition :
      (EditorHistoryState (CircuitModel R) → EditorHistoryState (CircuitModel R))
      → WorkbenchEditorState R
      → WorkbenchEditorState R
  unfolding clamp_simulation_step_on_circuit_change
  apply_history_transition transition s =
      let next = transition s.history in
      record {
        simulation_step =
            clamp_simulation_step_on_circuit_change (pos s.simulation_step)
              (operations_count s.history.present) (operations_count next.present);
        history = next;
      }

  -- `replaceFromProject`
  unfoldable pub replace_from_project :
      CircuitModel R → WorkbenchEditorState R → WorkbenchEditorState R
  unfolding clamp_simulation_step_on_circuit_change
  replace_from_project circuit s = record {
    simulation_step =
        clamp_simulation_step_on_circuit_change (pos s.simulation_step)
          (operations_count s.history.present) (operations_count circuit);
    history = create_history_state circuit;
  }

  -- `resetWorkbenchState`
  unfoldable pub reset_workbench_state : WorkbenchEditorState R → WorkbenchEditorState R
  reset_workbench_state s =
      let fallback = clone_circuit_model bell_template in
      record {
        history = create_history_state fallback;
        simulation_step = operations_count fallback;
      }
