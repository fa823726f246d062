-- ===== src/History/Timeline.antt =====
-- The history as a cursor in one list of documents.
use mvp_qcp.Base.{
  ℕ, suc, ◌+◌, ◌-◌, ◌≡◌, refl, ap, true, false, List, [], ◌∷◌, ◌++◌, arith, length, get_elem?,
  length-append, get_elem-append, append_assoc, last-cases, ltb, if◌then◌else◌, inl, inr, some,
}
use mvp_qcp.History.{EditorHistoryState, undo_history_state, redo_history_state}
use mvp_qcp.History.Laws.{history, length-last, undo-none, redo-none, undo-last, redo-first}

-- The documents in the order in which they were made, and the place of the present one.
pub record Timeline (T : Type 0) : Type 0 where
  pub documents : List T
  pub cursor : ℕ

module _ {T : Type 0} where
  abbrev pub back : Timeline T → Timeline T
  back t = record { documents = t.documents; cursor = t.cursor - 1 }

  abbrev pub forward : Timeline T → Timeline T
  forward t = record {
    documents = t.documents;
    cursor = if ltb (suc t.cursor) (length t.documents) then suc t.cursor else t.cursor;
  }

  abbrev pub timeline : EditorHistoryState T → Timeline T
  timeline s = record { documents = s.past ++ s.present ∷ s.future; cursor = length s.past }

  timeline-undo_past :
      (past : List T) (now : T) (later : List T)
      → timeline (undo_history_state (history past now later))
        ≡ back (timeline (history past now later))
  timeline-undo_past past now later = elim (last-cases past) [
    | inl e ↦ rw (e, undo-none now later) refl
    | inr (before, previous, e) ↦
        rw
          (
            e,
            undo-last before previous now later,
            length-last before previous,
            append_assoc before (previous ∷ []) (now ∷ later),
          )
          (ap (λ n. record { documents = before ++ previous ∷ now ∷ later; cursor = n })
            (omega arith))
  ]

  length-documents :
      (past : List T) (now : T) (later : List T)
      → length (past ++ now ∷ later) ≡ suc (length past + length later)
  length-documents past now later = omega (arith, length-append past (now ∷ later))

  timeline-redo_future :
      (past : List T) (now : T) (later : List T)
      → timeline (redo_history_state (history past now later))
        ≡ forward (timeline (history past now later))
  timeline-redo_future past now [] =
      let last : ltb (suc (length past)) (length (past ++ now ∷ [])) ≡ false =
        ground (arith, length-documents past now []) in
      rw (redo-none past now, last) refl
  timeline-redo_future past now (next ∷ later) =
      let more : ltb (suc (length past)) (length (past ++ now ∷ next ∷ later)) ≡ true =
        ground (arith, length-documents past now (next ∷ later)) in
      rw
        (
          redo-first past now next later,
          more,
          length-last past now,
          append_assoc past (now ∷ []) (next ∷ later),
        )
        refl

  -- Undo and redo move the cursor by one place where there is one, and leave the documents; the
  -- present document is the one at the cursor.
  pub timeline-undo-redo :
      (s : EditorHistoryState T)
      → (timeline (undo_history_state s) ≡ back (timeline s))
        × (timeline (redo_history_state s) ≡ forward (timeline s))
        × (get_elem? (timeline s).documents (timeline s).cursor ≡ some s.present)
  timeline-undo-redo s = (
    timeline-undo_past s.past s.present s.future,
    timeline-redo_future s.past s.present s.future,
    get_elem-append s.past s.present s.future,
  )
