-- ===== src/History.antt =====
-- frontend/src/features/circuit/model/history.ts: the undo history of the editor, over any type of
-- document. `equals` and `limit` are the options of `pushHistoryState`.
use mvp_qcp.Base.{
  ℕ, ◌+◌, ◌-◌, Bool, Option, none, some, List, [], ◌∷◌, ◌++◌, length, take, drop, get_elem?, ltb,
  leb, if◌then◌else◌,
}
pub mod Laws
pub mod Bounds
pub mod Timeline

pub record EditorHistoryState (T : Type 0) : Type 0 where
  pub past : List T
  pub present : T
  pub future : List T

abbrev pub default_history_limit : ℕ
default_history_limit = 100

module _ {T : Type 0} where
  unfoldable pub clamp_past : List T → ℕ → List T
  clamp_past past limit = if leb (length past) limit then past else drop (length past - limit) past

  abbrev pub create_history_state : T → EditorHistoryState T
  create_history_state initial = record { past = []; present = initial; future = [] }

  abbrev pub can_undo_history : EditorHistoryState T → Bool
  can_undo_history state = ltb 0 (length state.past)

  abbrev pub can_redo_history : EditorHistoryState T → Bool
  can_redo_history state = ltb 0 (length state.future)

  unfoldable pub push_history_state :
      (T → T → Bool) → ℕ → EditorHistoryState T → T → EditorHistoryState T
  unfolding clamp_past
  push_history_state equals limit state next = if equals state.present next then state else record {
    past = clamp_past (state.past ++ state.present ∷ []) limit;
    present = next;
    future = [];
  }

  -- `state.past[state.past.length - 1]` and `state.future[0]` are there when the guard has passed.
  unfoldable pub undo_history_state : EditorHistoryState T → EditorHistoryState T
  undo_history_state state =
      if can_undo_history state
      then elim (get_elem? state.past (length state.past - 1)) [
        | none ↦ state
        | some previous ↦ record {
          past = take (length state.past - 1) state.past;
          present = previous;
          future = state.present ∷ state.future;
        }
      ]
      else state

  unfoldable pub redo_history_state : EditorHistoryState T → EditorHistoryState T
  redo_history_state state =
      if can_redo_history state
      then elim (get_elem? state.future 0) [
        | none ↦ state
        | some next ↦ record {
          past = state.past ++ state.present ∷ [];
          present = next;
          future = drop 1 state.future;
        }
      ]
      else state
