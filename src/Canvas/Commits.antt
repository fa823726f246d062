-- ===== src/Canvas/Commits.antt =====
-- The circuits that moves, deletions and changes of columns hand on.
use mvp_qcp.Base.{
  ℕ, ◌-◌, ◌≡◌, refl, Bool, true, false, Option, none, some, List, [], ◌∷◌, ◌++◌, map, String,
  str_eq, arith, max, min, ◌==◌, find, leb, if◌then◌else◌, or_else, Option-cases, inl, inr,
}
use mvp_qcp.Base.Int.{ℤ, pos, negsuc, pos_part}
use mvp_qcp.Circuit.{Operation, CircuitModel, QubitBoundary, Collation}
use mvp_qcp.Circuit.Edit.{
  remove_operation, insert_columns_before, delete_empty_columns_before, deleted, not_deleted,
  DeleteEmptyColumnsResult,
}
use mvp_qcp.Circuit.Edit.Invariant as Edits
use mvp_qcp.Circuit.Edit.Invariant.{Below, IsValid, Step-IsValid}
use mvp_qcp.Circuit.Validation.{validate_circuit_model}
use mvp_qcp.Canvas.{
  clamp_column, max_before_column, is_unmoved, move_input, moved_circuit, move_found, shift_qubits,
  has_out_of_range_qubit, shifted_controls, commit_circuit, on_drop_moved_operation, on_delete,
  on_insert_columns, on_delete_empty_columns,
}

Below-of_in_range :
    (n : ℕ) (qs rest : List ℤ)
    → has_out_of_range_qubit (qs ++ rest) n ≡ false
    → Below n (map pos_part qs) × (has_out_of_range_qubit rest n ≡ false)
Below-of_in_range n [] rest e = (tt, e)
Below-of_in_range n (negsuc k ∷ qs) rest e = cc
Below-of_in_range n (pos k ∷ qs) rest e =
    let here : leb n k ≡ false = ground arith in
    let there : has_out_of_range_qubit (qs ++ rest) n ≡ false = ground arith in
    let (h, r) = Below-of_in_range n qs rest there in ((ground arith, h), r)

Below-all : (n : ℕ) (qs : List ℤ) → has_out_of_range_qubit qs n ≡ false → Below n (map pos_part qs)
Below-all n [] e = tt
Below-all n (negsuc k ∷ qs) e = cc
Below-all n (pos k ∷ qs) e =
    let here : leb n k ≡ false = ground arith in
    let there : has_out_of_range_qubit qs n ≡ false = ground arith in
    (ground arith, Below-all n qs there)

Below-controls :
    (n from to : ℕ) (controls : Option (List ℕ))
    → has_out_of_range_qubit (shift_qubits from to (or_else controls [])) n ≡ false
    → Below n (or_else (shifted_controls from to controls) [])
Below-controls n from to none e = tt
Below-controls n from to (some qs) e = Below-all n (shift_qubits from to qs) e

past_guard :
    {A : Type 0} (t : Bool) (o : Option A) {x : A} → (if t then none else o) ≡ some x → o ≡ some x
past_guard true o e = cc
past_guard false o e = e

past_guard_false :
    {A : Type 0} (t : Bool) (o : Option A) {x : A} → (if t then none else o) ≡ some x → t ≡ false
past_guard_false true o e = cc
past_guard_false false o e = refl

module _ ⦃c : Collation⦄ {R : Type 0} (b : QubitBoundary) where
  commit-IsValid :
      (m : CircuitModel R) {m' : CircuitModel R}
      → IsValid b m
      → commit_circuit m ≡ some m'
      → IsValid b m' × (validate_circuit_model m' ≡ none)
  unfolding commit_circuit
  commit-IsValid m {m'} v e = elim (Option-cases (validate_circuit_model m)) [
    | inl ok ↦
        let e' : some m ≡ some m' = rw (ok, commit_circuit) at e in
        let same : m ≡ m' = cc in rw (← same) (v, ok)
    | inr (err, bad) ↦ let e' : none ≡ some m' = rw (bad, commit_circuit) at e in cc
  ]

  delete-IsValid :
      (m : CircuitModel R) (id : String) {m' : CircuitModel R}
      → IsValid b m
      → on_delete m id ≡ some m'
      → IsValid b m' × (validate_circuit_model m' ≡ none)
  unfolding on_delete
  delete-IsValid m id v e =
      commit-IsValid (remove_operation m id) (Step-IsValid b (Edits.remove id) tt v) e

  insert_columns-IsValid :
      (m : CircuitModel R) (before count : ℤ) {m' : CircuitModel R}
      → IsValid b m
      → on_insert_columns m before count ≡ some m'
      → IsValid b m' × (validate_circuit_model m' ≡ none)
  unfolding on_insert_columns
  insert_columns-IsValid m before count v e =
      let at = clamp_column before (max_before_column m) in
      let n = max 1 (pos_part count) in
      commit-IsValid (insert_columns_before m (pos (at - 1)) (pos n))
        (Step-IsValid b (Edits.insert (pos (at - 1)) (pos n)) tt v) e

  deletion-IsValid :
      (m : CircuitModel R) (before count : ℤ) (r : DeleteEmptyColumnsResult R) {m' : CircuitModel R}
      → delete_empty_columns_before m before count ≡ r
      → IsValid b m
      → elim r [ not_deleted _ ↦ none | deleted model ↦ commit_circuit model ] ≡ some m'
      → IsValid b m' × (validate_circuit_model m' ≡ none)
  deletion-IsValid m before count (not_deleted _) d v e = cc
  deletion-IsValid m before count (deleted model) d v e =
      commit-IsValid model (Step-IsValid b (Edits.delete before count d) tt v) e

  delete_columns-IsValid :
      (m : CircuitModel R) (before count : ℤ) {m' : CircuitModel R}
      → IsValid b m
      → on_delete_empty_columns m before count ≡ some m'
      → IsValid b m' × (validate_circuit_model m' ≡ none)
  unfolding on_delete_empty_columns
  delete_columns-IsValid m before count v e =
      let at : ℕ = clamp_column before (max_before_column m) in
      let n : ℕ = min (max 1 (pos_part count)) (at - 1) in
      deletion-IsValid m (pos (at - 1)) (pos n)
        (delete_empty_columns_before m (pos (at - 1)) (pos n)) refl v (past_guard (n == 0) _ e)

  moved-IsValid :
      (m : CircuitModel R) (from to layer : ℕ) (found : Option (Operation R)) {m' : CircuitModel R}
      → IsValid b m
      → elim found [ none ↦ none | some o ↦ move_found m from to layer o ] ≡ some m'
      → IsValid b m' × (validate_circuit_model m' ≡ none)
  unfolding move_found
  moved-IsValid m from to layer none v e = cc
  moved-IsValid m from to layer (some o) v e =
      let in_range =
        past_guard_false
          (has_out_of_range_qubit
            (shift_qubits from to o.targets ++ shift_qubits from to (or_else o.controls []))
            m.num_qubits)
          _ e in
      let (targets, rest) =
        Below-of_in_range m.num_qubits (shift_qubits from to o.targets)
          (shift_qubits from to (or_else o.controls [])) in_range in
      let committed = past_guard (is_unmoved from to layer o) _ (past_guard _ _ e) in
      commit-IsValid (moved_circuit m from to layer o)
        (Step-IsValid b (Edits.update o.id (move_input from to layer o))
          (targets, Below-controls m.num_qubits from to o.controls rest) v)
        committed

  drop-IsValid :
      (m : CircuitModel R) (id : String) (from to layer : ℕ) {m' : CircuitModel R}
      → IsValid b m
      → on_drop_moved_operation m id from to layer ≡ some m'
      → IsValid b m' × (validate_circuit_model m' ≡ none)
  unfolding on_drop_moved_operation
  drop-IsValid m id from to layer v e =
      moved-IsValid m from to layer (find (λ o. str_eq o.id id) m.operations) v e

  -- What the canvas hands on, by handler.
  pub data HandsOn (m : CircuitModel R) (m' : CircuitModel R) : Type 0 where
    by_move :
        (id : String) (from to layer : ℕ)
        → on_drop_moved_operation m id from to layer ≡ some m'
        → HandsOn m m'
    by_delete : (id : String) → on_delete m id ≡ some m' → HandsOn m m'
    by_insert_columns :
        (before count : ℤ) → on_insert_columns m before count ≡ some m' → HandsOn m m'
    by_delete_columns :
        (before count : ℤ) → on_delete_empty_columns m before count ≡ some m' → HandsOn m m'

  -- Each circuit that a move, a deletion or a change of columns hands on from a valid circuit is valid
  -- too, and the validation accepts it.
  pub HandsOn-IsValid :
      (m m' : CircuitModel R)
      → IsValid b m
      → HandsOn m m'
      → IsValid b m' × (validate_circuit_model m' ≡ none)
  HandsOn-IsValid m m' v (by_move id from to layer e) = drop-IsValid m id from to layer v e
  HandsOn-IsValid m m' v (by_delete id e) = delete-IsValid m id v e
  HandsOn-IsValid m m' v (by_insert_columns before count e) =
      insert_columns-IsValid m before count v e
  HandsOn-IsValid m m' v (by_delete_columns before count e) =
      delete_columns-IsValid m before count v e
