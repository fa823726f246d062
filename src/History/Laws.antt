-- ===== src/History/Laws.antt =====
-- Undo and redo against each other, and undo after a change.
use mvp_qcp.Base.{
  ℕ, suc, ◌-◌, ◌≡◌, ◌≤◌, refl, ap, ◌∙◌, Bool, true, false, List, [], ◌∷◌, ◌++◌, arith, length, drop,
  length-append, take-append, drop_append_short, get_elem-append, last-cases, leb, ltb, Bool-cases,
  inl, inr,
}
use mvp_qcp.History.{
  EditorHistoryState, clamp_past, can_undo_history, can_redo_history, push_history_state,
  undo_history_state, redo_history_state,
}

-- The document history with these documents.
abbrev pub history : {T : Type 0} → List T → T → List T → EditorHistoryState T
history before now later = record { past = before; present = now; future = later }

pub positive : (n : ℕ) → ltb 0 (suc n) ≡ true
positive n = ground arith

one_less : (n : ℕ) → suc n - 1 ≡ n
one_less n = omega arith

module _ {T : Type 0} where
  pub length-last : (before : List T) (x : T) → length (before ++ x ∷ []) ≡ suc (length before)
  length-last before x = omega (arith, length-append before (x ∷ []))

  -- Undo takes the last of the past documents.
  pub undo-last :
      (before : List T) (previous now : T) (later : List T)
      → undo_history_state (history (before ++ previous ∷ []) now later)
        ≡ history before previous (now ∷ later)
  unfolding undo_history_state
  undo-last before previous now later =
      rw
        (
          length-last before previous,
          positive (length before),
          one_less (length before),
          get_elem-append before previous [],
          length-last before previous,
          one_less (length before),
          take-append before (previous ∷ []),
        )
        refl

  pub undo-none :
      (now : T) (later : List T) → undo_history_state (history [] now later) ≡ history [] now later
  unfolding undo_history_state
  undo-none now later = refl

  pub redo-none :
      (before : List T) (now : T)
      → redo_history_state (history before now []) ≡ history before now []
  unfolding redo_history_state
  redo-none before now = refl

  pub redo-first :
      (before : List T) (now next : T) (later : List T)
      → redo_history_state (history before now (next ∷ later))
        ≡ history (before ++ now ∷ []) next later
  unfolding redo_history_state
  redo-first before now next later = rw (positive (length later)) refl

  -- Where undo is possible, redo brings back the state before it.
  pub redo-undo :
      (state : EditorHistoryState T)
      → can_undo_history state ≡ true
      → redo_history_state (undo_history_state state) ≡ state
  redo-undo state h = elim (last-cases state.past) [
    | inl e ↦ let h' : ltb 0 0 ≡ true = rw e at h in cc
    | inr (before, previous, e) ↦ back state.past before previous state.present state.future e
  ]
    where
      back :
          (past before : List T) (previous now : T) (later : List T)
          → past ≡ before ++ previous ∷ []
          → redo_history_state (undo_history_state (history past now later))
            ≡ history past now later
      back past before previous now later e =
          rw (e, undo-last before previous now later, redo-first before previous now later) refl

  -- Where redo is possible, undo brings back the state before it.
  pub undo-redo :
      (state : EditorHistoryState T)
      → can_redo_history state ≡ true
      → undo_history_state (redo_history_state state) ≡ state
  undo-redo state h = forth state.past state.present state.future h
    where
      forth :
          (before : List T) (now : T) (later : List T)
          → ltb 0 (length later) ≡ true
          → undo_history_state (redo_history_state (history before now later))
            ≡ history before now later
      forth before now [] h = let h' : false ≡ true = h in cc
      forth before now (next ∷ later) h =
          ap undo_history_state (redo-first before now next later) ∙ undo-last before now next later

  clamp-last :
      (limit : ℕ) (past : List T) (x : T)
      → 1 ≤ limit
      → clamp_past (past ++ x ∷ []) limit ≡ drop (suc (length past) - limit) past ++ x ∷ []
  unfolding clamp_past
  clamp-last limit past x h = elim (Bool-cases (leb (suc (length past)) limit)) [
    | inl e ↦
        let none_dropped : suc (length past) - limit ≡ 0 = ground arith in
        rw (length-last past x, e, none_dropped) refl
    | inr e ↦
        rw (length-last past x, e)
          (drop_append_short (suc (length past) - limit) past (x ∷ []) (ground arith))
  ]

  -- With a limit that is not 0, undo after a change that `equals` tells from the present document
  -- brings the present document back, with the change as the one thing to redo; of the past
  -- documents the change keeps the latest `limit - 1`.
  pub undo-push :
      (equals : T → T → Bool) (limit : ℕ) (state : EditorHistoryState T) (next : T)
      → equals state.present next ≡ false
      → 1 ≤ limit
      → undo_history_state (push_history_state equals limit state next) ≡ record {
        past = drop (suc (length state.past) - limit) state.past;
        present = state.present;
        future = next ∷ [];
      }
  unfolding push_history_state
  undo-push equals limit state next e h =
      rw (e, clamp-last limit state.past state.present h)
        (undo-last (drop (suc (length state.past) - limit) state.past) state.present next [])
