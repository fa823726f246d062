-- ===== src/Canvas/Keeping.antt =====
-- What is asked of a circuit that the canvas hands on and of its pending placement.
use mvp_qcp.Base.{
  ℕ, zero, suc, ◌≡◌, ◌<◌, Bool, true, false, Option, none, some, List, [], ◌∷◌, ◌++◌, take, drop,
  All-append, if◌then◌else◌, or_else, Option-cases, inl, inr,
}
use mvp_qcp.Circuit.{CircuitModel, QubitBoundary, Collation}
use mvp_qcp.Circuit.Edit.Invariant.{Below, IsValid}
use mvp_qcp.Circuit.Validation.{validate_circuit_model}
use mvp_qcp.Placement.{PendingPlacement, build_operation_from_pending}
use mvp_qcp.Placement.Shape.{or_else-given}
use mvp_qcp.Canvas.{commit_circuit}
use mvp_qcp.Canvas.Gates.{CanvasState, Handled, leaves}

abbrev pub PendingBelow : ℕ → Option PendingPlacement → Type 0
PendingBelow n none = Unit
PendingBelow n (some pending) = Below n pending.selected_qubits

module _ ⦃c : Collation⦄ {R : Type 0} (b : QubitBoundary) (n : ℕ) where
  -- A circuit that is handed on is valid, the validation accepts it, and it has n qubits.
  abbrev pub Given : Option (CircuitModel R) → Type 0
  Given none = Unit
  Given (some m) = IsValid b m × (validate_circuit_model m ≡ none) × (m.num_qubits ≡ n)

  pub record Kept (handled : Handled R) : Type 0 where
    pub circuit : Given handled.handed_on
    pub pending : PendingBelow n handled.state.pending_placement

  pub left_Kept :
      (state : CanvasState R) → PendingBelow n state.pending_placement → Kept (leaves state)
  left_Kept state h = record { circuit = tt; pending = h }

  pub Kept-if : (t : Bool) (l r : Handled R) → Kept l → Kept r → Kept (if t then l else r)
  Kept-if true l r kl kr = kl
  Kept-if false l r kl kr = kr

  pub commit-Given :
      (next : CircuitModel R) → IsValid b next → next.num_qubits ≡ n → Given (commit_circuit next)
  unfolding commit_circuit
  commit-Given next v e = elim (Option-cases (validate_circuit_model next)) [
    | inl ok ↦ rw (ok, commit_circuit) (v, ok, e)
    | inr (err, bad) ↦ rw (bad, commit_circuit) tt
  ]

Below-take : (n k : ℕ) (qs : List ℕ) → Below n qs → Below n (take k qs)
Below-take n zero qs h = tt
Below-take n (suc k) [] h = tt
Below-take n (suc k) (q ∷ qs) (p, h) = (p, Below-take n k qs h)

Below-drop : (n k : ℕ) (qs : List ℕ) → Below n qs → Below n (drop k qs)
Below-drop n zero qs h = h
Below-drop n (suc k) [] h = tt
Below-drop n (suc k) (q ∷ qs) (p, h) = Below-drop n k qs h

module _ {R : Type 0} (initial : R) where
  pub build-Below :
      (n : ℕ) (pending : PendingPlacement)
      → Below n pending.selected_qubits
      → (let input = build_operation_from_pending initial pending in
          Below n (input.targets ++ or_else input.controls []))
  unfolding build_operation_from_pending
  build-Below n pending h =
      let controls = take pending.control_count pending.selected_qubits in
      let rest = drop pending.control_count pending.selected_qubits in
      rw (or_else-given controls) (
        All-append (λ q. q < n) (take pending.target_count rest) controls
          (Below-take n pending.target_count rest
            (Below-drop n pending.control_count pending.selected_qubits h))
          (Below-take n pending.control_count pending.selected_qubits h))
