-- ===== src/Placement/Completion.antt =====
-- Collecting the qubits of a gate comes to its end.
use mvp_qcp.Base.{
  ℕ, suc, ◌+◌, ◌≡◌, ◌≢◌, refl, sym, ap, ◌∙◌, true, false, some, List, [], ◌∷◌, ◌++◌, arith, length,
  take, drop, includes, or_else, All, All-imp, length-append, length-drop, take-append-drop,
  append_assoc, inl, inr,
}
use mvp_qcp.Base.Apart.{Pairs-of_append}
use mvp_qcp.Gate.{GateName}
use mvp_qcp.Circuit.Edit.{AddOperationInput}
use mvp_qcp.Placement.Shape.{includes-of_All, or_else-given, take_all}
use mvp_qcp.Circuit.Validation.Distinct.{AllDistinct}
use mvp_qcp.Placement.Laws.{
  place, Collects, create-some, create-Collects, selecting, advance-cases, Collects-selecting,
}
use mvp_qcp.Placement.{PendingPlacement, create_pending_placement, build_operation_from_pending}

length_zero : (qs : List ℕ) → length qs ≡ 0 → qs ≡ []
length_zero [] e = refl
length_zero (q ∷ qs) e = absurd (omega arith)

new_click : (q : ℕ) (qs rest : List ℕ) → AllDistinct (qs ++ q ∷ rest) → includes q qs ≡ false
new_click q qs rest d =
    let (_, _, across) = Pairs-of_append ◌≢◌ qs (q ∷ rest) d in
    includes-of_All q qs (All-imp (λ p. λ (h : All (λ r. p ≢ r) (q ∷ rest)). h.0) qs across)

module _ {R : Type 0} where
  -- The placement ends with an operation whose controls and targets are these, in this order.
  abbrev pub EndsWith : R → PendingPlacement → List ℕ → List ℕ → Type 0
  EndsWith initial pending clicks qubits =
      (operation : AddOperationInput R) × (place initial pending clicks ≡ some operation)
      × (or_else operation.controls [] ++ operation.targets ≡ qubits)

  built_qubits :
      (initial : R) (pending : PendingPlacement)
      → length pending.selected_qubits ≡ pending.control_count + pending.target_count
      → or_else (build_operation_from_pending initial pending).controls []
          ++ (build_operation_from_pending initial pending).targets
        ≡ pending.selected_qubits
  unfolding build_operation_from_pending
  built_qubits initial pending e =
      let qs = pending.selected_qubits in
      let cn = pending.control_count in
      rw
        (
          or_else-given (take cn qs),
          take_all pending.target_count (drop cn qs) (omega (arith, length-drop cn qs, e)),
        )
        (take-append-drop cn qs)

  place-EndsWith :
      (initial : R) (gate : GateName) (pending : PendingPlacement) (clicks : List ℕ)
      → Collects gate pending
      → AllDistinct (pending.selected_qubits ++ clicks)
      → length pending.selected_qubits + length clicks ≡ pending.required_qubits
      → EndsWith initial pending clicks (pending.selected_qubits ++ clicks)
  place-EndsWith initial gate pending [] c d e = absurd (omega (arith, c.unfinished))
  place-EndsWith initial gate pending (q ∷ qs) c d e =
      let new = new_click q pending.selected_qubits qs d in
      elim (advance-cases initial pending q) [
        | inl (_, old) ↦ absurd (let clash : true ≡ false = sym old ∙ new in cc)
        | inr (_, inl (next, more)) ↦
            let same = append_assoc pending.selected_qubits (q ∷ []) qs in
            let (operation, placed, qubits) =
              place-EndsWith initial gate (selecting pending q) qs
                (Collects-selecting gate pending q c new more) (rw same d)
                (omega (arith, length-append pending.selected_qubits (q ∷ []))) in
            (operation, rw (next, place) placed, qubits ∙ same)
        | inr (_, inr (done, full)) ↦
            let nothing_left : qs ≡ [] = length_zero qs (omega arith) in
            (
              build_operation_from_pending initial (selecting pending q),
              rw (done, place) refl,
              rw nothing_left (
                  built_qubits initial (selecting pending q) (
                    omega (
                      arith,
                      length-append pending.selected_qubits (q ∷ []),
                      c.required,
                      c.unfinished,
                    ))),
            )
      ]

  -- A placement ends: given as many different qubits as the gate lacks, none of them the source, it
  -- ends with the operation whose controls and then targets are the source and the clicks in order.
  pub create-place-EndsWith :
      (initial : R) (gate : GateName) (source layer : ℕ) (clicks : List ℕ)
      {pending : PendingPlacement}
      → create_pending_placement gate source layer ≡ some pending
      → AllDistinct (source ∷ clicks)
      → suc (length clicks) ≡ pending.required_qubits
      → EndsWith initial pending clicks (source ∷ clicks)
  create-place-EndsWith initial gate source layer clicks {pending} e d n =
      let (same, _) = create-some gate source layer e in
      let c = create-Collects gate source layer e in
      let selected : source ∷ [] ≡ pending.selected_qubits = ap (λ p. p.selected_qubits) same in
      let all : AllDistinct (pending.selected_qubits ++ clicks) = rw (← selected) d in
      let count : length pending.selected_qubits + length clicks ≡ pending.required_qubits =
        rw (← selected) (omega arith) in
      let (operation, placed, qubits) = place-EndsWith initial gate pending clicks c all count in
      (operation, placed, qubits ∙ ap (λ qs. qs ++ clicks) (sym selected))
