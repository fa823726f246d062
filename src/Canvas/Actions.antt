-- ===== src/Canvas/Actions.antt =====
-- The actions of the user on the canvas, and what each handler keeps.
use mvp_qcp.Base.{
  ℕ, ◌<◌, refl, Bool, Option, none, some, List, String, length, leb, not, Bool-cases, Option-cases,
  inl, inr,
}
use mvp_qcp.Circuit.{Operation, CircuitModel, QubitBoundary, Collation}
use mvp_qcp.Circuit.Edit.{update_operation, remove_operation, normalize_circuit}
use mvp_qcp.Circuit.Edit.Invariant as Edits
use mvp_qcp.Circuit.Edit.Invariant.{IsValid, Step-IsValid}
use mvp_qcp.Placement.{is_parameterized_gate}
use mvp_qcp.Canvas.Gates.{
  CanvasState, Handled, leaves, replace_at, on_drop_gate, on_cell_click, selected_operation,
  params_input, change_param, on_param_change,
}
use mvp_qcp.Canvas.Selection.{
  is_selected, deselected, on_drag_start_operation, cancel_pending_placement, delete_operation,
}
use mvp_qcp.Canvas.{on_delete}
use mvp_qcp.Canvas.Keeping.{PendingBelow, Given, Kept, left_Kept, Kept-if, commit-Given}
use mvp_qcp.Canvas.Placing.{on_drop_gate-Kept, on_cell_click-Kept}

module _ ⦃c : Collation⦄ {R : Type 0} (b : QubitBoundary) (is_finite : R → Bool) where
  change_param-Kept :
      (m : CircuitModel R) (state : CanvasState R) (o : Operation R) (draft : List R) (index : ℕ)
      (value : R)
      → IsValid b m
      → PendingBelow m.num_qubits state.pending_placement
      → Kept b m.num_qubits (change_param is_finite m state o draft index value)
  unfolding change_param update_operation normalize_circuit
  change_param-Kept m state o draft index value v h =
      let input = params_input (replace_at index value draft) in
      Kept-if b m.num_qubits (not (is_parameterized_gate o.gate)) (leaves state) _
        (left_Kept b m.num_qubits state h)
        (Kept-if b m.num_qubits (leb (length draft) index) (leaves state) _
          (left_Kept b m.num_qubits state h)
          (Kept-if b m.num_qubits (not (is_finite value)) (leaves state) _
            (left_Kept b m.num_qubits state h)
            (record {
              circuit =
                  commit-Given b m.num_qubits (update_operation m o.id input)
                    (Step-IsValid b (Edits.update o.id input) (tt, tt) v) refl;
              pending = h;
            })))

  on_param_change-Kept :
      (m : CircuitModel R) (state : CanvasState R) (index : ℕ) (value : R)
      → IsValid b m
      → PendingBelow m.num_qubits state.pending_placement
      → Kept b m.num_qubits (on_param_change is_finite m state index value)
  unfolding on_param_change
  on_param_change-Kept m state index value v h =
      elim (Option-cases (selected_operation m state.selected_operation_id)) [
        | inl unselected ↦ rw (unselected, on_param_change) (left_Kept b m.num_qubits state h)
        | inr (o, selected) ↦ elim (Option-cases state.parameter_draft) [
          | inl empty ↦ rw (selected, empty, on_param_change) (left_Kept b m.num_qubits state h)
          | inr (draft, edited) ↦
              rw (selected, edited, on_param_change)
                (change_param-Kept m state o draft index value v h)
        ]
      ]

module _ ⦃c : Collation⦄ {R : Type 0} (b : QubitBoundary) where
  deselected-PendingBelow :
      (n : ℕ) (state : CanvasState R) (id : String)
      → PendingBelow n state.pending_placement
      → PendingBelow n (deselected state id).pending_placement
  deselected-PendingBelow n state id h =
      elim (Bool-cases (is_selected id state.selected_operation_id)) [
        | inl e ↦ rw e h
        | inr e ↦ rw e h
      ]

  deleted-Kept :
      (n : ℕ) (state : CanvasState R) (id : String) (committed : Option (CircuitModel R))
      → PendingBelow n state.pending_placement
      → Given b n committed
      → Kept b n (elim committed [
        | none ↦ leaves state
        | some next ↦ record { state = deselected state id; handed_on = some next }
      ])
  deleted-Kept n state id none h g = left_Kept b n state h
  deleted-Kept n state id (some next) h g = record {
    circuit = g;
    pending = deselected-PendingBelow n state id h;
  }

  delete_operation-Kept :
      (m : CircuitModel R) (state : CanvasState R) (id : String)
      → IsValid b m
      → PendingBelow m.num_qubits state.pending_placement
      → Kept b m.num_qubits (delete_operation m state id)
  unfolding delete_operation on_delete remove_operation normalize_circuit
  delete_operation-Kept m state id v h = deleted-Kept m.num_qubits state id (on_delete m id) h (
      commit-Given b m.num_qubits (remove_operation m id) (Step-IsValid b (Edits.remove id) tt v)
        refl)

module _ ⦃c : Collation⦄ {R : Type 0} (b : QubitBoundary) (initial : R) (is_finite : R → Bool) where
  -- What the user does, at a qubit of the canvas, and what the handler makes of it.
  pub data Acts (m : CircuitModel R) (state : CanvasState R) : Handled R → Type 0 where
    by_drop_gate :
        (raw_gate : String) (qubit layer : ℕ) (fresh : String)
        → qubit < m.num_qubits
        → Acts m state (on_drop_gate initial m state raw_gate qubit layer fresh)
    by_click :
        (qubit layer : ℕ) (fresh : String)
        → qubit < m.num_qubits
        → Acts m state (on_cell_click initial m state qubit layer fresh)
    by_drag_start :
        (operation_id : String) → Acts m state (on_drag_start_operation state operation_id)
    by_cancel : Acts m state (cancel_pending_placement state)
    by_delete : (operation_id : String) → Acts m state (delete_operation m state operation_id)
    by_param_change :
        (index : ℕ) (value : R) → Acts m state (on_param_change is_finite m state index value)

  -- On a valid circuit, with a pending placement on its qubits or none, dropping a gate on a cell,
  -- clicking a cell, starting to drag an operation, cancelling, deleting an operation and changing a
  -- parameter hand on no circuit or a valid one, of as many qubits, that the validation accepts, and
  -- leave no pending placement or one on its qubits.
  pub Acts-Kept :
      (m : CircuitModel R) (state : CanvasState R) (handled : Handled R)
      → IsValid b m
      → PendingBelow m.num_qubits state.pending_placement
      → Acts m state handled
      → Kept b m.num_qubits handled
  unfolding on_drag_start_operation cancel_pending_placement
  Acts-Kept m state _ v h (by_drop_gate raw_gate qubit layer fresh lt) =
      on_drop_gate-Kept b initial m state raw_gate qubit layer fresh v h lt
  Acts-Kept m state _ v h (by_click qubit layer fresh lt) =
      on_cell_click-Kept b initial m state qubit layer fresh v h lt
  Acts-Kept m state _ v h (by_drag_start operation_id) = record { circuit = tt; pending = tt }
  Acts-Kept m state _ v h by_cancel = record { circuit = tt; pending = tt }
  Acts-Kept m state _ v h (by_delete operation_id) =
      delete_operation-Kept b m state operation_id v h
  Acts-Kept m state _ v h (by_param_change index value) =
      on_param_change-Kept b is_finite m state index value v h
