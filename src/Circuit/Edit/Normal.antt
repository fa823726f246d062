-- ===== src/Circuit/Edit/Normal.antt =====
-- `normalizeCircuit`: what it keeps, and its normal forms.
use mathlib.Core.Path.{ap₂}
use text.Mathlib.TextLemmas.{append-eq-nil_iff, cons-ne-nil}
use mvp_qcp.Base.{
  ℕ, suc, ◌≡◌, ◌≢◌, refl, ap, ◌∙◌, List, [], ◌∷◌, String, eq_iff, arith, All, length,
}
use mvp_qcp.Base.Sorting.{IsSorted}
use mvp_qcp.Circuit.{Operation, CircuitModel, Collation, in_order, sort_operations}
use mvp_qcp.Circuit.Order.{
  All-sort_operations, All-of_sort_operations, length-sort_operations, sort_operations-IsSorted,
  sort_operations_of_IsSorted,
}
use mvp_qcp.Circuit.Edit.{op_id, normalize_operation, normalize_from, normalize_circuit}

op_id-ne : (index : ℕ) → op_id index ≢ ""
op_id-ne index e = cons-ne-nil _ _ ((append-eq-nil_iff {p = "op-"}).0 e).0

module _ {R : Type 0} where
  abbrev pub HasId : Operation R → Type 0
  HasId o = o.id ≢ ""

  normalize_operation-HasId : (o : Operation R) (index : ℕ) → HasId (normalize_operation o index)
  unfolding normalize_operation
  normalize_operation-HasId o index = ground (arith, eq_iff o.id "", op_id-ne index)

  normalize_operation_of_HasId :
      (o : Operation R) (index : ℕ) → HasId o → normalize_operation o index ≡ o
  unfolding normalize_operation
  normalize_operation_of_HasId o index p = ground (arith, eq_iff o.id "")

  pub normalize_from-HasId :
      (index : ℕ) (ops : List (Operation R)) → All HasId (normalize_from index ops)
  unfolding normalize_from
  normalize_from-HasId index [] = tt
  normalize_from-HasId index (o ∷ os) =
      (normalize_operation-HasId o index, normalize_from-HasId (suc index) os)

  pub normalize_from_of_HasId :
      (index : ℕ) (ops : List (Operation R)) → All HasId ops → normalize_from index ops ≡ ops
  unfolding normalize_from
  normalize_from_of_HasId index [] h = refl
  normalize_from_of_HasId index (o ∷ os) (p, h) =
      ap₂ ◌∷◌ (normalize_operation_of_HasId o index p) (normalize_from_of_HasId (suc index) os h)

  length-normalize_from :
      (index : ℕ) (ops : List (Operation R)) → length (normalize_from index ops) ≡ length ops
  unfolding normalize_from
  length-normalize_from index [] = refl
  length-normalize_from index (o ∷ os) = ap suc (length-normalize_from (suc index) os)

-- What does not speak of the id survives the replacement of empty ids, in both directions.
module _ {κ} {R : Type 0} (P : Operation R → Type κ)
    (P_id : (o : Operation R) (s : String) → P o → P (record o { id = s })) where
  All-normalize_from :
      (index : ℕ) (ops : List (Operation R)) → All P ops → All P (normalize_from index ops)
  unfolding normalize_from
  All-normalize_from index [] h = tt
  All-normalize_from index (o ∷ os) (p, h) = (P_id o _ p, All-normalize_from (suc index) os h)

  All-of_normalize_from :
      (index : ℕ) (ops : List (Operation R)) → All P (normalize_from index ops) → All P ops
  unfolding normalize_from
  All-of_normalize_from index [] h = tt
  All-of_normalize_from index (o ∷ os) (p, h) =
      (P_id _ o.id p, All-of_normalize_from (suc index) os h)

  module _ ⦃c : Collation⦄ where
    pub All-normalize_circuit :
        (m : CircuitModel R) → All P m.operations → All P (normalize_circuit m).operations
    unfolding normalize_circuit
    All-normalize_circuit m h = All-sort_operations P _ (All-normalize_from 0 m.operations h)

    pub All-of_normalize_circuit :
        (m : CircuitModel R) → All P (normalize_circuit m).operations → All P m.operations
    unfolding normalize_circuit
    All-of_normalize_circuit m h =
        All-of_normalize_from 0 m.operations (All-of_sort_operations P _ h)

module _ ⦃c : Collation⦄ {R : Type 0} where
  -- Every operation has an id afterwards, and the operations are in order.
  pub normalize_circuit-HasId : (m : CircuitModel R) → All HasId (normalize_circuit m).operations
  unfolding normalize_circuit
  normalize_circuit-HasId m = All-sort_operations HasId _ (normalize_from-HasId 0 m.operations)

  pub normalize_circuit-IsSorted :
      (m : CircuitModel R) → IsSorted in_order (normalize_circuit m).operations
  unfolding normalize_circuit
  normalize_circuit-IsSorted m = (sort_operations-IsSorted (normalize_from 0 m.operations)).1

  pub length-normalize_circuit :
      (m : CircuitModel R) → length (normalize_circuit m).operations ≡ length m.operations
  unfolding normalize_circuit
  length-normalize_circuit m = length-sort_operations _ ∙ length-normalize_from 0 m.operations

  pub normalize_circuit_of_IsSorted :
      (m : CircuitModel R)
      → All HasId m.operations
      → IsSorted in_order m.operations
      → normalize_circuit m ≡ m
  unfolding normalize_circuit
  normalize_circuit_of_IsSorted m h s =
      let e : sort_operations (normalize_from 0 m.operations) ≡ m.operations =
        rw (normalize_from_of_HasId 0 m.operations h)
          (sort_operations_of_IsSorted m.operations s) in
      λ i. record { num_qubits = m.num_qubits; operations = e i }

  -- Normalising a second time changes nothing.
  pub normalize_circuit_idempotent :
      (m : CircuitModel R) → normalize_circuit (normalize_circuit m) ≡ normalize_circuit m
  normalize_circuit_idempotent m =
      normalize_circuit_of_IsSorted (normalize_circuit m) (normalize_circuit-HasId m)
        (normalize_circuit-IsSorted m)
