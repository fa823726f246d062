-- ===== src/Examples/Canvases.antt =====
-- A deletion on the canvas.
use mvp_qcp.Base.{ℕ, ◌≡◌, refl, none, some}
use mvp_qcp.Circuit.{CircuitModel}
use mvp_qcp.Circuit.Edit.{remove_operation}
use mvp_qcp.Circuit.Edit.Invariant.{IsValid}
use mvp_qcp.Circuit.Validation.{validate_circuit_model}
use mvp_qcp.Canvas.{on_delete, on_drop_moved_operation}
use mvp_qcp.Canvas.Commits.{by_delete, HandsOn-IsValid}
use mvp_qcp.Examples.{by_rank, bell, boundary}
use mvp_qcp.Examples.Editing.{bell-IsValid}

abbrev unmeasured : CircuitModel ℕ
unmeasured = remove_operation bell "c"

handed_on : on_delete bell "c" ≡ some unmeasured
unfolding on_delete
handed_on = refl

HandsOn-IsValid_example : IsValid boundary unmeasured × (validate_circuit_model unmeasured ≡ none)
HandsOn-IsValid_example =
    HandsOn-IsValid boundary bell unmeasured bell-IsValid (by_delete "c" handed_on)

-- The CX cannot be moved up by a qubit.
out_of_range : on_drop_moved_operation bell "b" 1 2 1 ≡ none
unfolding on_drop_moved_operation
out_of_range = refl
