-- ===== src/History/Bounds.antt =====
-- What every sequence of changes, undos and redos keeps.
use mvp_qcp.Base.{
  ℕ, ◌+◌, ◌-◌, ◌≤◌, Bool, List, [], ◌∷◌, ◌++◌, arith, length, length-drop, last-cases, leb,
  Bool-cases, inl, inr,
}
use mvp_qcp.History.{
  EditorHistoryState, clamp_past, create_history_state, push_history_state, undo_history_state,
  redo_history_state,
}
use mvp_qcp.History.Laws.{history, length-last, undo-none, redo-none, undo-last, redo-first}

module _ {T : Type 0} (equals : T → T → Bool) (limit : ℕ) where
  pub data Step : EditorHistoryState T → EditorHistoryState T → Type 0 where
    pushed : (s : EditorHistoryState T) (next : T) → Step s (push_history_state equals limit s next)
    undone : (s : EditorHistoryState T) → Step s (undo_history_state s)
    redone : (s : EditorHistoryState T) → Step s (redo_history_state s)

  pub data Reach : EditorHistoryState T → EditorHistoryState T → Type 0 where
    start : (s : EditorHistoryState T) → Reach s s
    step : {s t u : EditorHistoryState T} → Reach s t → Step t u → Reach s u

  -- The documents that can be undone and redone are together at most `limit`.
  abbrev pub IsWithin : EditorHistoryState T → Type 0
  IsWithin s = length s.past + length s.future ≤ limit

  length-clamp_past : (past : List T) → length (clamp_past past limit) ≤ limit
  unfolding clamp_past
  length-clamp_past past = elim (Bool-cases (leb (length past) limit)) [
    | inl e ↦ rw e (ground arith)
    | inr e ↦ rw e (omega (arith, length-drop (length past - limit) past))
  ]

  push-IsWithin :
      (s : EditorHistoryState T) (next : T)
      → IsWithin s
      → IsWithin (push_history_state equals limit s next)
  unfolding push_history_state
  push-IsWithin s next h = elim (Bool-cases (equals s.present next)) [
    | inl e ↦ rw e h
    | inr e ↦ rw e (omega (arith, length-clamp_past (s.past ++ s.present ∷ [])))
  ]

  undo-IsWithin :
      (past : List T) (now : T) (later : List T)
      → IsWithin (history past now later)
      → IsWithin (undo_history_state (history past now later))
  undo-IsWithin past now later h = elim (last-cases past) [
    | inl e ↦ let h' : IsWithin (history [] now later) = rw e at h in rw (e, undo-none now later) h'
    | inr (before, previous, e) ↦
        let h' : IsWithin (history (before ++ previous ∷ []) now later) = rw e at h in
        rw (e, undo-last before previous now later) (omega (arith, length-last before previous))
  ]

  redo-IsWithin :
      (past : List T) (now : T) (later : List T)
      → IsWithin (history past now later)
      → IsWithin (redo_history_state (history past now later))
  redo-IsWithin past now [] h = rw (redo-none past now) h
  redo-IsWithin past now (next ∷ later) h =
      rw (redo-first past now next later) (omega (arith, length-last past now))

  Step-IsWithin : {s t : EditorHistoryState T} → Step s t → IsWithin s → IsWithin t
  Step-IsWithin (pushed s next) h = push-IsWithin s next h
  Step-IsWithin (undone s) h = undo-IsWithin s.past s.present s.future h
  Step-IsWithin (redone s) h = redo-IsWithin s.past s.present s.future h

  Reach-IsWithin : {s t : EditorHistoryState T} → Reach s t → IsWithin s → IsWithin t
  Reach-IsWithin (start s) h = h
  Reach-IsWithin (step r last) h = Step-IsWithin last (Reach-IsWithin r h)

  -- After any sequence of changes, undos and redos from a new history, the documents that can be
  -- undone and those that can be redone are together at most the limit.
  pub create-Reach-IsWithin :
      (initial : T) {s : EditorHistoryState T} → Reach (create_history_state initial) s → IsWithin s
  create-Reach-IsWithin initial r = Reach-IsWithin r (omega arith)
