-- ===== src/Editor/Steps.antt =====
-- The step of the slider in every state of the editor.
use mvp_qcp.Base.{
  ℕ, ◌≡◌, ◌≤◌, Bool, true, ◌⊎◌, Option, none, some, [], String, arith, Bool-cases, inl, inr,
}
use mvp_qcp.Base.Int.{ℤ, pos, negsuc}
use mvp_qcp.Circuit.{CircuitModel, Collation}
use mvp_qcp.Circuit.Order.{length-sort_operations}
use mvp_qcp.Circuit.Edit.{QubitAdjustResult, adjusted, refused, increase_qubits, decrease_qubits}
use mvp_qcp.History.{push_history_state, undo_history_state, redo_history_state}
use mvp_qcp.TimeStep.{clamp_simulation_step_on_circuit_change}
use mvp_qcp.Template.{TemplateError, LoadCircuitTemplateOptions, load_circuit_template}
use mvp_qcp.Editor.{
  WorkbenchEditorState, editor_boundary, operations_count, initial_state,
  are_circuits_layout_equivalent, create_next_history_state, push_circuit, on_clear_circuit,
  on_increase_qubits, on_decrease_qubits, on_load_template, apply_history_transition,
  replace_from_project, reset_workbench_state,
}

clamp-le :
    (step total after : ℕ) → clamp_simulation_step_on_circuit_change (pos step) total after ≤ after
unfolding clamp_simulation_step_on_circuit_change
clamp-le step total after = ground arith

module _ {R : Type 0} where
  -- The slider stands within the present circuit.
  abbrev pub Within : WorkbenchEditorState R → Type 0
  Within s = s.simulation_step ≤ operations_count s.history.present

  module _ (same_param : R → R → Bool) ⦃c : Collation⦄ where
    equivalent-length :
        (l r : CircuitModel R)
        → are_circuits_layout_equivalent same_param l r ≡ true
        → operations_count l ≡ operations_count r
    unfolding are_circuits_layout_equivalent
    equivalent-length l r e =
        ground (arith, length-sort_operations l.operations, length-sort_operations r.operations)

    push-Within :
        (circuit : CircuitModel R) (s : WorkbenchEditorState R)
        → Within (push_circuit same_param circuit s)
    unfolding push_circuit create_next_history_state push_history_state
    push-Within circuit s =
        let bound =
          clamp-le s.simulation_step (operations_count s.history.present)
            (operations_count circuit) in
        elim (Bool-cases (are_circuits_layout_equivalent same_param s.history.present circuit)) [
          | inl e ↦ let same = equivalent-length s.history.present circuit e in rw e (omega arith)
          | inr e ↦ rw e bound
        ]

    increase-Within :
        (s : WorkbenchEditorState R) → Within s → Within (on_increase_qubits same_param s)
    unfolding on_increase_qubits
    increase-Within s h = adjust (increase_qubits s.history.present editor_boundary)
      where
        adjust :
            (r : QubitAdjustResult R)
            → Within (elim r [ refused _ ↦ s | adjusted model ↦ push_circuit same_param model s ])
        adjust (refused _) = h
        adjust (adjusted model) = push-Within model s

    decrease-Within :
        (s : WorkbenchEditorState R) → Within s → Within (on_decrease_qubits same_param s)
    unfolding on_decrease_qubits
    decrease-Within s h = adjust (decrease_qubits s.history.present editor_boundary)
      where
        adjust :
            (r : QubitAdjustResult R)
            → Within (elim r [ refused _ ↦ s | adjusted model ↦ push_circuit same_param model s ])
        adjust (refused _) = h
        adjust (adjusted model) = push-Within model s

    load-Within :
        (angle : ℕ → R) (template_id : String) (options : LoadCircuitTemplateOptions)
        (s : WorkbenchEditorState R)
        → Within s
        → Within (on_load_template same_param angle template_id options s)
    unfolding on_load_template
    load-Within angle template_id options s h =
        loaded (load_circuit_template angle template_id options)
      where
        loaded :
            (r : TemplateError ⊎ CircuitModel R)
            → Within (elim r [ inl _ ↦ s | inr model ↦ push_circuit same_param model s ])
        loaded (inl _) = h
        loaded (inr model) = push-Within model s

    -- What the editor offers; the slider itself moves within the present circuit.
    pub data Step : WorkbenchEditorState R → WorkbenchEditorState R → Type 0 where
      push :
          (circuit : CircuitModel R) (s : WorkbenchEditorState R)
          → Step s (push_circuit same_param circuit s)
      clear : (s : WorkbenchEditorState R) → Step s (on_clear_circuit same_param s)
      increase : (s : WorkbenchEditorState R) → Step s (on_increase_qubits same_param s)
      decrease : (s : WorkbenchEditorState R) → Step s (on_decrease_qubits same_param s)
      load :
          (angle : ℕ → R) (template_id : String) (options : LoadCircuitTemplateOptions)
          (s : WorkbenchEditorState R)
          → Step s (on_load_template same_param angle template_id options s)
      undo : (s : WorkbenchEditorState R) → Step s (apply_history_transition undo_history_state s)
      redo : (s : WorkbenchEditorState R) → Step s (apply_history_transition redo_history_state s)
      replace :
          (circuit : CircuitModel R) (s : WorkbenchEditorState R)
          → Step s (replace_from_project circuit s)
      reset : (s : WorkbenchEditorState R) → Step s (reset_workbench_state s)
      slide :
          (step : ℕ) (s : WorkbenchEditorState R)
          → step ≤ operations_count s.history.present
          → Step s (record s { simulation_step = step })

    pub data Reach : WorkbenchEditorState R → Type 0 where
      at_first : (circuit : CircuitModel R) (step : Option ℤ) → Reach (initial_state circuit step)
      next : {s t : WorkbenchEditorState R} → Reach s → Step s t → Reach t

    Step-Within : {s t : WorkbenchEditorState R} → Step s t → Within s → Within t
    unfolding on_clear_circuit apply_history_transition replace_from_project reset_workbench_state
    Step-Within (push circuit s) h = push-Within circuit s
    Step-Within (clear s) h =
        push-Within (record { num_qubits = s.history.present.num_qubits; operations = [] }) s
    Step-Within (increase s) h = increase-Within s h
    Step-Within (decrease s) h = decrease-Within s h
    Step-Within (load angle template_id options s) h = load-Within angle template_id options s h
    Step-Within (undo s) h = clamp-le s.simulation_step _ _
    Step-Within (redo s) h = clamp-le s.simulation_step _ _
    Step-Within (replace circuit s) h = clamp-le s.simulation_step _ _
    Step-Within (reset s) h = omega arith
    Step-Within (slide step s e) h = e

    initial-Within :
        (circuit : CircuitModel R) (step : Option ℤ) → Within (initial_state circuit step)
    unfolding initial_state
    initial-Within circuit none = omega arith
    initial-Within circuit (some (pos step)) = omega arith
    initial-Within circuit (some (negsuc step)) = omega arith

    -- After any sequence of the editor's actions, from a draft or from the default circuit, the
    -- slider stands within the present circuit.
    pub Reach-Within : {s : WorkbenchEditorState R} → Reach s → Within s
    Reach-Within (at_first circuit step) = initial-Within circuit step
    Reach-Within (next r last) = Step-Within last (Reach-Within r)
