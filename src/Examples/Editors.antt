-- ===== src/Examples/Editors.antt =====
-- The editor after an edit that is undone.
use mvp_qcp.Base.{ℕ, ◌==◌, some}
use mvp_qcp.Base.Int.{pos}
use mvp_qcp.History.{undo_history_state}
use mvp_qcp.Editor.{WorkbenchEditorState, initial_state, on_clear_circuit, apply_history_transition}
use mvp_qcp.Editor.Steps.{Within, clear, undo, at_first, next, Reach-Within}
use mvp_qcp.Examples.{by_rank, bell}

abbrev cleared : WorkbenchEditorState ℕ
cleared = on_clear_circuit ◌==◌ (initial_state bell (some (pos 9)))

Reach-Within_example : Within (apply_history_transition undo_history_state cleared)
Reach-Within_example = Reach-Within ◌==◌ (
    next (next (at_first bell (some (pos 9))) (clear (initial_state bell (some (pos 9)))))
      (undo cleared))
