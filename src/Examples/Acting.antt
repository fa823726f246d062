-- ===== src/Examples/Acting.antt =====
-- Gates that are placed on the canvas.
use mvp_qcp.Base.{ℕ, ◌≡◌, refl, true, none, arith}
use mvp_qcp.Canvas.Gates.{CanvasState, is_found, on_drop_gate}
use mvp_qcp.Canvas.Keeping.{Kept}
use mvp_qcp.Canvas.Actions.{by_drop_gate, Acts-Kept}
use mvp_qcp.Examples.{by_rank, bell, boundary}
use mvp_qcp.Examples.Editing.{bell-IsValid}

abbrev idle : CanvasState ℕ
idle = record { pending_placement = none; selected_operation_id = none; parameter_draft = none }

-- A measurement is dropped behind the circuit.
measured : is_found (on_drop_gate 0 bell idle "m" 0 5 "d").handed_on ≡ true
unfolding on_drop_gate
measured = refl

-- A CX is dropped: it waits for its second qubit.
waits : is_found (on_drop_gate 0 bell idle "cx" 0 5 "d").state.pending_placement ≡ true
unfolding on_drop_gate
waits = refl

-- The cell of the H is taken.
taken : (on_drop_gate 0 bell idle "x" 0 0 "d").handed_on ≡ none
unfolding on_drop_gate
taken = refl

Acts-Kept_example : Kept boundary 2 (on_drop_gate 0 bell idle "m" 0 5 "d")
Acts-Kept_example =
    Acts-Kept boundary 0 (λ _. true) bell idle (on_drop_gate 0 bell idle "m" 0 5 "d") bell-IsValid
      tt (by_drop_gate "m" 0 5 "d" (omega arith))
