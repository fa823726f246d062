-- ===== src/Examples/Editing.antt =====
-- The edits at concrete circuits.
use mvp_qcp.Base.{ℕ, ◌+◌, ◌-◌, ◌≡◌, ◌↔◌, ◌<◌, ◌≤◌, refl, true, none, [], ◌∷◌, length, arith, All}
use mvp_qcp.Base.Int.{pos}
use mvp_qcp.Circuit.{CircuitModel, max_depth, max_gates, InRange}
use mvp_qcp.Circuit.Edit.{
  AddOperationInput, add_operation, normalize_circuit, insert_columns_before,
  delete_empty_columns_before, deleted, adjusted, increase_qubits, decrease_qubits,
  remove_operation, evaluate_complexity,
}
use mvp_qcp.Circuit.Validation.{validate_circuit_model}
use mvp_qcp.Gate.{GateName}
use mvp_qcp.Circuit.Edit.Columns.{
  delete-insert_columns, CanDelete, deleted-CanDelete, CanDelete-deleted,
}
use mvp_qcp.Circuit.Edit.Depth.{evaluate_complexity_iff}
use mvp_qcp.Circuit.Edit.Qubits.{FitsOn, decrease_qubits_iff, decrease-increase_qubits}
use mvp_qcp.Circuit.Edit.Invariant.{add, remove, insert, here, next, IsValid, Reach-IsValid}
use mvp_qcp.Examples.{by_rank, bell, bell-HasId, boundary}

bell-InRange : InRange bell
bell-InRange = ((omega arith, (omega arith, tt)), ((omega arith, tt), ((omega arith, tt), tt)))

pub bell-IsValid : IsValid boundary bell
bell-IsValid = record {
  in_range = bell-InRange;
  has_ids = bell-HasId;
  enough = omega arith;
  not_too_many = omega arith;
}

-- An X on a qubit
abbrev x_on : ℕ → AddOperationInput ℕ
x_on qubit = record {
  gate = GateName.x;
  layer = 0;
  targets = qubit ∷ [];
  controls = none;
  params = none;
}

abbrev edited : CircuitModel ℕ
edited =
    add_operation (remove_operation (insert_columns_before bell (pos 1) (pos 2)) "c") (x_on 1) "d"

Reach-IsValid_example : IsValid boundary edited
unfolding remove_operation insert_columns_before
Reach-IsValid_example =
    Reach-IsValid boundary bell-IsValid
      (next (next (next here (insert (pos 1) (pos 2))) (remove "c")) (add (x_on 1) "d"))
      (((tt, tt), tt), (omega arith, tt))

-- An operation that is added out of range is accepted by the validation.
added_out_of_range : validate_circuit_model (add_operation bell (x_on 7) "d") ≡ none
unfolding validate_circuit_model add_operation
added_out_of_range = refl

delete-insert_columns_example :
    delete_empty_columns_before (insert_columns_before bell (pos 1) (pos 2)) (pos (1 + 2)) (pos 2)
    ≡ deleted (normalize_circuit bell)
delete-insert_columns_example = delete-insert_columns bell 1 2

abbrev spread : CircuitModel ℕ
spread = insert_columns_before bell (pos 1) (pos 2)

deleted-CanDelete_example : CanDelete spread (pos (1 + 2)) (pos 2)
deleted-CanDelete_example =
    deleted-CanDelete spread (normalize_circuit bell) (pos (1 + 2)) (pos 2)
      delete-insert_columns_example

CanDelete-deleted_example :
    (m' : CircuitModel ℕ) × (delete_empty_columns_before spread (pos (1 + 2)) (pos 2) ≡ deleted m')
CanDelete-deleted_example = CanDelete-deleted spread (pos (1 + 2)) (pos 2) (
    deleted-CanDelete spread (normalize_circuit bell) (pos (1 + 2)) (pos 2)
      delete-insert_columns_example)

evaluate_complexity_iff_example :
    ((evaluate_complexity bell).ok ≡ true)
    ↔ (All (λ o. o.layer < max_depth) bell.operations × (length bell.operations ≤ max_gates))
evaluate_complexity_iff_example = evaluate_complexity_iff bell

abbrev grown : CircuitModel ℕ
grown = normalize_circuit (record bell { num_qubits = 3 })

decrease_qubits_iff_example :
    (decrease_qubits grown boundary ≡ adjusted (normalize_circuit bell)) ↔ (
      (boundary.min_qubits < grown.num_qubits)
      × FitsOn (grown.num_qubits - 1) grown
      × (normalize_circuit bell
          ≡ normalize_circuit (record grown { num_qubits = grown.num_qubits - 1 })))
decrease_qubits_iff_example = decrease_qubits_iff grown (normalize_circuit bell) boundary

bell_grows : increase_qubits bell boundary ≡ adjusted grown
unfolding increase_qubits
bell_grows = refl

decrease-increase_qubits_example :
    decrease_qubits grown boundary ≡ adjusted (normalize_circuit bell)
decrease-increase_qubits_example =
    decrease-increase_qubits bell grown boundary bell-InRange (omega arith) bell_grows
