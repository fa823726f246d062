-- ===== src/Canvas/Selection.antt =====
-- frontend/src/features/circuit/components/use-circuit-canvas-interactions.ts: the handlers that
-- change the selection and give a pending placement up.
use mvp_qcp.Base.{Bool, false, Option, none, some, String, str_eq, if◌then◌else◌}
use mvp_qcp.Circuit.{CircuitModel, Collation}
use mvp_qcp.Canvas.{on_delete}
use mvp_qcp.Canvas.Gates.{CanvasState, Handled, leaves}

abbrev pub is_selected : String → Option String → Bool
is_selected operation_id none = false
is_selected operation_id (some selected) = str_eq selected operation_id

module _ {R : Type 0} where
  abbrev pub deselected : CanvasState R → String → CanvasState R
  deselected state operation_id =
      if is_selected operation_id state.selected_operation_id
      then record state { selected_operation_id = none }
      else state

  unfoldable pub on_drag_start_operation : CanvasState R → String → Handled R
  on_drag_start_operation state operation_id =
      leaves (record state { pending_placement = none; selected_operation_id = some operation_id })

  unfoldable pub cancel_pending_placement : CanvasState R → Handled R
  cancel_pending_placement state = leaves (record state { pending_placement = none })

-- `onDelete` with the selection that it leaves
module _ ⦃c : Collation⦄ {R : Type 0} where
  unfoldable pub delete_operation : CircuitModel R → CanvasState R → String → Handled R
  unfolding on_delete
  delete_operation circuit state operation_id = elim (on_delete circuit operation_id) [
    | none ↦ leaves state
    | some next ↦ record { state = deselected state operation_id; handed_on = some next }
  ]
