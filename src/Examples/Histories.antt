-- ===== src/Examples/Histories.antt =====
-- The history of documents that are numbers.
use mvp_qcp.Base.{ℕ, suc, ◌-◌, ◌≡◌, refl, some, [], ◌∷◌, drop, get_elem?, arith, ◌==◌}
use mvp_qcp.History.{
  EditorHistoryState, create_history_state, push_history_state, undo_history_state,
  redo_history_state,
}
use mvp_qcp.History.Laws.{history, redo-undo, undo-redo, undo-push}
use mvp_qcp.History.Bounds.{pushed, undone, start, step, IsWithin, create-Reach-IsWithin}
use mvp_qcp.History.Timeline.{timeline, back, forward, timeline-undo-redo}

abbrev edited : EditorHistoryState ℕ
edited = history (1 ∷ 2 ∷ []) 3 (4 ∷ [])

redo-undo_example : redo_history_state (undo_history_state edited) ≡ edited
redo-undo_example = redo-undo edited refl

undo-redo_example : undo_history_state (redo_history_state edited) ≡ edited
undo-redo_example = undo-redo edited refl

undo-push_example :
    undo_history_state (push_history_state ◌==◌ 2 edited 5)
    ≡ history (drop (suc 2 - 2) (1 ∷ 2 ∷ [])) 3 (5 ∷ [])
undo-push_example = undo-push ◌==◌ 2 edited 5 refl (omega arith)

create-Reach-IsWithin_example :
    IsWithin ◌==◌ 1 (undo_history_state (push_history_state ◌==◌ 1 (create_history_state 7) 8))
create-Reach-IsWithin_example = create-Reach-IsWithin ◌==◌ 1 7 (
    step (step (start (create_history_state 7)) (pushed (create_history_state 7) 8))
      (undone (push_history_state ◌==◌ 1 (create_history_state 7) 8)))

timeline-undo-redo_example :
    (timeline (undo_history_state edited) ≡ back (timeline edited))
    × (timeline (redo_history_state edited) ≡ forward (timeline edited))
    × (get_elem? (timeline edited).documents (timeline edited).cursor ≡ some edited.present)
timeline-undo-redo_example = timeline-undo-redo edited
