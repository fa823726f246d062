-- ===== src/Canvas/Placing.antt =====
-- Dropping a gate on the canvas, and clicking a cell while a gate collects its qubits.
use mvp_qcp.Base.{
  ℕ, ◌<◌, refl, Option, none, some, [], ◌∷◌, ◌++◌, String, length, includes, ltb, ◌==◌, All-append,
  or_else, not, Bool-cases, Option-cases, inl, inr,
}
use mvp_qcp.Gate.{GateName}
use mvp_qcp.Circuit.{CircuitModel, QubitBoundary, Collation}
use mvp_qcp.Circuit.Edit.{AddOperationInput, add_operation, normalize_circuit}
use mvp_qcp.Circuit.Edit.Invariant as Edits
use mvp_qcp.Circuit.Edit.Invariant.{Below, IsValid, Step-IsValid}
use mvp_qcp.Placement.{
  PendingPlacement, AdvancePendingPlacementResult, same_qubit, continue_with, done_with,
  create_pending_placement, build_single_qubit_operation, advance_pending_placement,
}
use mvp_qcp.Placement.Laws.{create-some}
use mvp_qcp.Canvas.{commit_circuit}
use mvp_qcp.Canvas.Gates.{
  CanvasState, leaves, supported_gate, is_found, find_operation_at_cell,
  is_connector_span_blocked_cell, drop_on_free_cell, on_drop_gate, advance_on_free_cell,
  on_cell_click,
}
use mvp_qcp.Canvas.Keeping.{
  PendingBelow, Given, Kept, left_Kept, Kept-if, commit-Given, build-Below,
}

module _ ⦃c : Collation⦄ {R : Type 0} (b : QubitBoundary) (initial : R) where
  added-Given :
      (m : CircuitModel R) (input : AddOperationInput R) (fresh : String)
      → IsValid b m
      → Below m.num_qubits (input.targets ++ or_else input.controls [])
      → Given b m.num_qubits (commit_circuit (add_operation m input fresh))
  unfolding add_operation normalize_circuit
  added-Given m input fresh v h =
      commit-Given b m.num_qubits (add_operation m input fresh)
        (Step-IsValid b (Edits.add input fresh) h v) refl

  drop-Kept :
      (m : CircuitModel R) (state : CanvasState R) (gate : GateName) (qubit layer : ℕ)
      (fresh : String)
      → IsValid b m
      → qubit < m.num_qubits
      → Kept b m.num_qubits (drop_on_free_cell initial m state gate qubit layer fresh)
  unfolding drop_on_free_cell build_single_qubit_operation
  drop-Kept m state gate qubit layer fresh v lt =
      elim (Option-cases (create_pending_placement gate qubit layer)) [
        | inl single ↦
            rw (single, drop_on_free_cell)
              (record {
                circuit =
                    added-Given m (build_single_qubit_operation initial gate qubit layer) fresh v
                      (lt, tt);
                pending = tt;
              })
        | inr (pending, several) ↦
            let (same, _) = create-some gate qubit layer several in
            rw (several, drop_on_free_cell) (record { circuit = tt; pending = rw⁻¹ same (lt, tt) })
      ]

  pub on_drop_gate-Kept :
      (m : CircuitModel R) (state : CanvasState R) (raw : String) (qubit layer : ℕ) (fresh : String)
      → IsValid b m
      → PendingBelow m.num_qubits state.pending_placement
      → qubit < m.num_qubits
      → Kept b m.num_qubits (on_drop_gate initial m state raw qubit layer fresh)
  unfolding on_drop_gate
  on_drop_gate-Kept m state raw qubit layer fresh v h lt =
      elim (Option-cases (supported_gate raw)) [
        | inl unknown ↦ rw (unknown, on_drop_gate) (left_Kept b m.num_qubits state h)
        | inr (gate, known) ↦
            rw (known, on_drop_gate)
              (Kept-if b m.num_qubits _ (leaves state) _ (left_Kept b m.num_qubits state h) (
                Kept-if b m.num_qubits _ (leaves state) _ (left_Kept b m.num_qubits state h)
                  (drop-Kept m state gate qubit layer fresh v lt)))
      ]

  -- The qubits of an advance's result are below n.
  abbrev AdvancedBelow : ℕ → AdvancePendingPlacementResult R → Type 0
  AdvancedBelow n same_qubit = Unit
  AdvancedBelow n (continue_with next) = Below n next.selected_qubits
  AdvancedBelow n (done_with input) = Below n (input.targets ++ or_else input.controls [])

  advance-Below :
      (n : ℕ) (pending : PendingPlacement) (qubit : ℕ)
      → Below n pending.selected_qubits
      → qubit < n
      → AdvancedBelow n (advance_pending_placement initial pending qubit)
  unfolding advance_pending_placement
  advance-Below n pending qubit below lt =
      let more : Below n (pending.selected_qubits ++ qubit ∷ []) =
        All-append (λ q. q < n) pending.selected_qubits (qubit ∷ []) below (lt, tt) in
      elim (Bool-cases (includes qubit pending.selected_qubits)) [
        | inl e ↦ rw (e, advance_pending_placement) tt
        | inr e ↦
            elim (Bool-cases
              (ltb (length (pending.selected_qubits ++ qubit ∷ [])) pending.required_qubits)) [
                | inl e' ↦ rw (e, e', advance_pending_placement) more
                | inr e' ↦
                    rw (e, e', advance_pending_placement)
                      (build-Below initial n
                        (record pending { selected_qubits = pending.selected_qubits ++ qubit ∷ [] })
                        more)
              ]
      ]

  committed-Kept :
      (m : CircuitModel R) (state : CanvasState R) (committed : Option (CircuitModel R))
      → PendingBelow m.num_qubits state.pending_placement
      → Given b m.num_qubits committed
      → Kept b m.num_qubits (elim committed [
        | none ↦ leaves state
        | some next ↦ record {
          state = record state { pending_placement = none };
          handed_on = some next;
        }
      ])
  committed-Kept m state none h g = left_Kept b m.num_qubits state h
  committed-Kept m state (some next) h g = record { circuit = g; pending = tt }

  advanced-Kept :
      (m : CircuitModel R) (state : CanvasState R) (fresh : String)
      (advanced : AdvancePendingPlacementResult R)
      → IsValid b m
      → PendingBelow m.num_qubits state.pending_placement
      → AdvancedBelow m.num_qubits advanced
      → Kept b m.num_qubits (elim advanced [
        | same_qubit ↦ leaves state
        | continue_with next ↦ leaves (record state { pending_placement = some next })
        | done_with operation ↦ elim (commit_circuit (add_operation m operation fresh)) [
          | none ↦ leaves state
          | some next ↦ record {
            state = record state { pending_placement = none };
            handed_on = some next;
          }
        ]
      ])
  advanced-Kept m state fresh same_qubit v h a = left_Kept b m.num_qubits state h
  advanced-Kept m state fresh (continue_with next) v h a = record { circuit = tt; pending = a }
  advanced-Kept m state fresh (done_with input) v h a =
      committed-Kept m state (commit_circuit (add_operation m input fresh)) h
        (added-Given m input fresh v a)

  advance-Kept :
      (m : CircuitModel R) (state : CanvasState R) (pending : PendingPlacement) (qubit : ℕ)
      (fresh : String)
      → IsValid b m
      → PendingBelow m.num_qubits state.pending_placement
      → Below m.num_qubits pending.selected_qubits
      → qubit < m.num_qubits
      → Kept b m.num_qubits (advance_on_free_cell initial m state pending qubit fresh)
  unfolding advance_on_free_cell
  advance-Kept m state pending qubit fresh v h below lt =
      advanced-Kept m state fresh (advance_pending_placement initial pending qubit) v h
        (advance-Below m.num_qubits pending qubit below lt)

  pub on_cell_click-Kept :
      (m : CircuitModel R) (state : CanvasState R) (qubit layer : ℕ) (fresh : String)
      → IsValid b m
      → PendingBelow m.num_qubits state.pending_placement
      → qubit < m.num_qubits
      → Kept b m.num_qubits (on_cell_click initial m state qubit layer fresh)
  unfolding on_cell_click
  on_cell_click-Kept m state qubit layer fresh v h lt =
      elim (Option-cases state.pending_placement) [
        | inl idle ↦ rw (idle, on_cell_click) (record { circuit = tt; pending = rw idle tt })
        | inr (pending, waits) ↦
            let below : Below m.num_qubits pending.selected_qubits = rw waits at h in
            rw (waits, on_cell_click)
              (Kept-if b m.num_qubits (not (layer == pending.layer)) (leaves state) _
                (left_Kept b m.num_qubits state h)
                (Kept-if b m.num_qubits (is_found (find_operation_at_cell m.operations qubit layer))
                  (leaves state) _ (left_Kept b m.num_qubits state h)
                  (Kept-if b m.num_qubits (is_connector_span_blocked_cell m.operations qubit layer)
                    (leaves state) _ (left_Kept b m.num_qubits state h)
                    (advance-Kept m state pending qubit fresh v h below lt))))
      ]
