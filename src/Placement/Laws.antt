-- ===== src/Placement/Laws.antt =====
-- Collecting the qubits of a gate ends with an operation of the catalog's shape.
use mvp_qcp.Base.{
  ℕ, suc, ◌+◌, ◌≡◌, ◌≤◌, ◌<◌, ◌⊎◌, refl, ◌∙◌, true, false, Option, none, some, List, [], ◌∷◌, ◌++◌,
  arith, length, includes, ltb, leb, length-append, Bool-cases, inl, inr,
}
use mvp_qcp.Gate.{GateName, catalog_item}
use mvp_qcp.Gate.Lookup.{get_gate_catalog_item_lem}
use mvp_qcp.Circuit.Edit.{AddOperationInput}
use mvp_qcp.Placement.Shape.{MatchesCatalog, build-MatchesCatalog, distinct-last}
use mvp_qcp.Circuit.Validation.Distinct.{AllDistinct}
use mvp_qcp.Placement.{
  PendingPlacement, same_qubit, continue_with, done_with, create_pending_placement,
  build_operation_from_pending, advance_pending_placement,
}

-- What holds of a placement while it collects.
pub record Collects (gate : GateName) (pending : PendingPlacement) : Type 0 where
  pub same_gate : pending.gate ≡ gate
  pub controls : pending.control_count ≡ (catalog_item gate).control_count
  pub targets : pending.target_count ≡ (catalog_item gate).target_count
  pub required : pending.required_qubits ≡ pending.control_count + pending.target_count
  pub started : 1 ≤ length pending.selected_qubits
  pub unfinished : length pending.selected_qubits < pending.required_qubits
  pub distinct : AllDistinct pending.selected_qubits

abbrev first_pending : GateName → ℕ → ℕ → PendingPlacement
first_pending gate source layer = record {
  gate = gate;
  layer = layer;
  selected_qubits = source ∷ [];
  required_qubits = (catalog_item gate).control_count + (catalog_item gate).target_count;
  control_count = (catalog_item gate).control_count;
  target_count = (catalog_item gate).target_count;
}

several : (n : ℕ) → leb n 1 ≡ false → 1 < n
several n e = ground arith

pub create-some :
    (gate : GateName) (source layer : ℕ) {pending : PendingPlacement}
    → create_pending_placement gate source layer ≡ some pending
    → (first_pending gate source layer ≡ pending)
      × (1 < (catalog_item gate).control_count + (catalog_item gate).target_count)
unfolding create_pending_placement
create-some gate source layer {pending} e =
    elim (Bool-cases
      (leb ((catalog_item gate).control_count + (catalog_item gate).target_count) 1)) [
        | inl few ↦
            let e' : none ≡ some pending =
              rw (get_gate_catalog_item_lem gate, few, create_pending_placement) at e in
            cc
        | inr many ↦
            let e' : some (first_pending gate source layer) ≡ some pending =
              rw (get_gate_catalog_item_lem gate, many, create_pending_placement) at e in
            (cc, several _ many)
      ]

pub create-Collects :
    (gate : GateName) (source layer : ℕ) {pending : PendingPlacement}
    → create_pending_placement gate source layer ≡ some pending
    → Collects gate pending
create-Collects gate source layer e =
    let (same, several) = create-some gate source layer e in
    rw (← same) (record {
      same_gate = refl;
      controls = refl;
      targets = refl;
      required = refl;
      started = omega arith;
      unfinished = several;
      distinct = (tt, tt);
    })

abbrev pub selecting : PendingPlacement → ℕ → PendingPlacement
selecting pending q = record {
  gate = pending.gate;
  layer = pending.layer;
  selected_qubits = pending.selected_qubits ++ q ∷ [];
  required_qubits = pending.required_qubits;
  control_count = pending.control_count;
  target_count = pending.target_count;
}

pub advance-cases :
    {R : Type 0} (initial : R) (pending : PendingPlacement) (q : ℕ)
    → ((advance_pending_placement initial pending q ≡ same_qubit)
        × (includes q pending.selected_qubits ≡ true))
      ⊎ ((includes q pending.selected_qubits ≡ false)
          × (((advance_pending_placement initial pending q ≡ continue_with (selecting pending q))
                × (suc (length pending.selected_qubits) < pending.required_qubits))
              ⊎ ((advance_pending_placement initial pending q
                    ≡ done_with (build_operation_from_pending initial (selecting pending q)))
                  × (pending.required_qubits ≤ suc (length pending.selected_qubits)))))
unfolding advance_pending_placement
advance-cases initial pending q = elim (Bool-cases (includes q pending.selected_qubits)) [
  | inl e ↦ inl (rw e refl, e)
  | inr e ↦
      elim (Bool-cases (ltb (length (pending.selected_qubits ++ q ∷ [])) pending.required_qubits)) [
        | inl more ↦ inr (
          e,
          inl (rw (e, more) refl, ground (arith, length-append pending.selected_qubits (q ∷ []))),
        )
        | inr full ↦ inr (
          e,
          inr (rw (e, full) refl, ground (arith, length-append pending.selected_qubits (q ∷ []))),
        )
      ]
]

pub Collects-selecting :
    (gate : GateName) (pending : PendingPlacement) (q : ℕ)
    → Collects gate pending
    → includes q pending.selected_qubits ≡ false
    → suc (length pending.selected_qubits) < pending.required_qubits
    → Collects gate (selecting pending q)
Collects-selecting gate pending q c e more = record {
  same_gate = c.same_gate;
  controls = c.controls;
  targets = c.targets;
  required = c.required;
  started = omega (arith, length-append pending.selected_qubits (q ∷ []));
  unfinished = omega (arith, length-append pending.selected_qubits (q ∷ []));
  distinct = distinct-last q pending.selected_qubits c.distinct e;
}

module _ {R : Type 0} where
  -- The clicks on qubits one after the other: a click that is refused leaves the placement as it
  -- is, and the clicks after the last qubit are not the placement's.
  abbrev pub place : R → PendingPlacement → List ℕ → Option (AddOperationInput R)
  place initial pending [] = none
  place initial pending (q ∷ qs) = elim (advance_pending_placement initial pending q) [
    | same_qubit ↦ place initial pending qs
    | continue_with next ↦ place initial next qs
    | done_with operation ↦ some operation
  ]

  done-MatchesCatalog :
      (initial : R) (gate : GateName) (pending : PendingPlacement) (q : ℕ)
      → Collects gate pending
      → includes q pending.selected_qubits ≡ false
      → pending.required_qubits ≤ suc (length pending.selected_qubits)
      → MatchesCatalog (build_operation_from_pending initial (selecting pending q))
  done-MatchesCatalog initial gate pending q c e full =
      build-MatchesCatalog initial (selecting pending q) (rw c.same_gate c.controls)
        (rw c.same_gate c.targets)
        (omega
          (arith, length-append pending.selected_qubits (q ∷ []), c.required, c.unfinished, full))
        (distinct-last q pending.selected_qubits c.distinct e)

  built_gate :
      (initial : R) (pending : PendingPlacement)
      → (build_operation_from_pending initial pending).gate ≡ pending.gate
  unfolding build_operation_from_pending
  built_gate initial pending = refl

  place-MatchesCatalog :
      (initial : R) (gate : GateName) (pending : PendingPlacement) (clicks : List ℕ)
      {operation : AddOperationInput R}
      → Collects gate pending
      → place initial pending clicks ≡ some operation
      → (operation.gate ≡ gate) × MatchesCatalog operation
  place-MatchesCatalog initial gate pending [] c e = cc
  place-MatchesCatalog initial gate pending (q ∷ qs) {operation} c e =
      elim (advance-cases initial pending q) [
        | inl (same, _) ↦ place-MatchesCatalog initial gate pending qs c (rw (same, place) at e)
        | inr (new, inl (next, more)) ↦
            place-MatchesCatalog initial gate (selecting pending q) qs
              (Collects-selecting gate pending q c new more) (rw (next, place) at e)
        | inr (new, inr (done, full)) ↦
            let built : some (build_operation_from_pending initial (selecting pending q))
                ≡ some operation =
              rw (done, place) at e in
            let same : build_operation_from_pending initial (selecting pending q) ≡ operation =
              cc in
            rw (← same) (
              built_gate initial (selecting pending q) ∙ c.same_gate,
              done-MatchesCatalog initial gate pending q c new full,
            )
      ]

  -- The operation that a placement ends with is the gate's, whatever the clicks: it has as many
  -- targets, controls and parameters as the catalog says and touches no qubit twice.
  pub create-place-MatchesCatalog :
      (initial : R) (gate : GateName) (source layer : ℕ) (clicks : List ℕ)
      {pending : PendingPlacement} {operation : AddOperationInput R}
      → create_pending_placement gate source layer ≡ some pending
      → place initial pending clicks ≡ some operation
      → (operation.gate ≡ gate) × MatchesCatalog operation
  create-place-MatchesCatalog initial gate source layer clicks {pending} e f =
      place-MatchesCatalog initial gate pending clicks (create-Collects gate source layer e) f
