-- ===== src/Circuit/Edit/Columns.antt =====
-- Inserting and deleting columns.
use mathlib.Core.Path.{ap₂}
use mvp_qcp.Base.{
  zero, ℕ, suc, ◌+◌, ◌-◌, ◌≡◌, ◌<◌, ◌≤◌, refl, sym, ap, ◌∙◌, Bool, false, ◌&&◌, ◌⊎◌, inl, inr, List,
  [], ◌∷◌, map, arith, All, All-imp, find_of_All, find-none, ltb, leb, ◌==◌, Bool-cases,
}
use mvp_qcp.Base.Int.{ℤ, pos, pos_part}
use mvp_qcp.Circuit.{Operation, CircuitModel, Collation, in_order, sort_operations}
use mvp_qcp.Circuit.Order.{map-sort_operations}
use mvp_qcp.Circuit.Edit.{
  normalize_from, normalize_operation, normalize_circuit, insert_shift, delete_shift,
  insert_columns_before, delete_empty_columns_before, deleted,
}
use mvp_qcp.Circuit.Edit.Normal.{normalize_circuit_idempotent}

suc_test : (n : ℕ) → (suc n == 0) ≡ false
suc_test n = ground arith

-- The operation stands in one of the n columns before column b.
abbrev blocking : {R : Type 0} → ℕ → ℕ → Operation R → Bool
blocking b n o = leb (b - n) o.layer && ltb o.layer b

-- No operation stands in the n columns before column b.
abbrev pub NoneBetween : {R : Type 0} → ℕ → ℕ → CircuitModel R → Type 0
NoneBetween b n m = All (λ o. ¬ ((b - n ≤ o.layer) × (o.layer < b))) m.operations

NoneBetween-blocking :
    {R : Type 0} (b n : ℕ) (ops : List (Operation R))
    → All (λ o. ¬ ((b - n ≤ o.layer) × (o.layer < b))) ops
    → All (λ o. blocking b n o ≡ false) ops
NoneBetween-blocking b n ops = All-imp (λ o h. ground arith) ops

blocking-NoneBetween :
    {R : Type 0} (b n : ℕ) (ops : List (Operation R))
    → All (λ o. blocking b n o ≡ false) ops
    → All (λ o. ¬ ((b - n ≤ o.layer) × (o.layer < b))) ops
blocking-NoneBetween b n ops = All-imp (λ o h. ground arith) ops

module _ ⦃c : Collation⦄ {R : Type 0} where
  pub in_order-insert_shift :
      (b n : ℕ) (x y : Operation R)
      → in_order (insert_shift b n x) (insert_shift b n y) ≡ in_order x y
  unfolding in_order insert_shift
  in_order-insert_shift b n x y = ground arith

  map-normalize_from :
      (b n index : ℕ) (ops : List (Operation R))
      → map (insert_shift b n) (normalize_from index ops)
        ≡ normalize_from index (map (insert_shift b n) ops)
  unfolding normalize_from insert_shift
  map-normalize_from b n index [] = refl
  map-normalize_from b n index (o ∷ os) =
      ap (insert_shift b n (normalize_operation o index) ∷◌) (map-normalize_from b n (suc index) os)

  map-insert_shift_zero : (b : ℕ) (ops : List (Operation R)) → map (insert_shift b 0) ops ≡ ops
  unfolding insert_shift
  map-insert_shift_zero b [] = refl
  map-insert_shift_zero b (o ∷ os) = ap₂ ◌∷◌ (ground arith) (map-insert_shift_zero b os)

  abbrev with_operations : CircuitModel R → List (Operation R) → CircuitModel R
  with_operations m ops = record { num_qubits = m.num_qubits; operations = ops }

  -- The operations after an insertion of n columns before column b, in terms of the normal form.
  pub operations-insert_columns_before :
      (m : CircuitModel R) (b n : ℕ)
      → insert_columns_before m (pos b) (pos n) ≡ record {
        num_qubits = m.num_qubits;
        operations = map (insert_shift b n) (normalize_circuit m).operations;
      }
  unfolding insert_columns_before
  operations-insert_columns_before m b zero =
      ap (with_operations m) (sym (map-insert_shift_zero b (normalize_circuit m).operations))
  operations-insert_columns_before m b (suc n) = rw (suc_test n) (
      ap (with_operations m) (
        sym (
          map-sort_operations (insert_shift b (suc n)) (in_order-insert_shift b (suc n))
            (normalize_from 0 m.operations)
          ∙ ap sort_operations (map-normalize_from b (suc n) 0 m.operations))))

  delete_shift-insert_shift :
      (b n : ℕ) (ops : List (Operation R))
      → map (delete_shift (b + n) n) (map (insert_shift b n) ops) ≡ ops
  unfolding delete_shift insert_shift
  delete_shift-insert_shift b n [] = refl
  delete_shift-insert_shift b n (o ∷ os) = ap₂ ◌∷◌ (ground arith) (delete_shift-insert_shift b n os)

  -- Over a range of columns that is empty and within the circuit, a deletion shifts what follows.
  pub delete_of_NoneBetween :
      (m : CircuitModel R) (b n : ℕ)
      → suc n ≤ b
      → NoneBetween b (suc n) m
      → delete_empty_columns_before m (pos b) (pos (suc n))
        ≡ deleted
            (normalize_circuit (with_operations m (map (delete_shift b (suc n)) m.operations)))
  unfolding delete_empty_columns_before
  delete_of_NoneBetween m b n h none_there =
      let inside : ltb b (suc n) ≡ false = ground arith in
      rw (
        suc_test n,
        inside,
        find_of_All _ m.operations (NoneBetween-blocking b (suc n) m.operations none_there),
      )

  -- No operation stands in a column that an insertion has made.
  insert_shift-NoneBetween :
      (b n : ℕ) (ops : List (Operation R))
      → All (λ o. ¬ ((b + n - n ≤ o.layer) × (o.layer < b + n))) (map (insert_shift b n) ops)
  unfolding insert_shift
  insert_shift-NoneBetween b n [] = tt
  insert_shift-NoneBetween b n (o ∷ os) = (ground arith, insert_shift-NoneBetween b n os)

  insert_zero :
      (m : CircuitModel R) (b : ℕ) → insert_columns_before m (pos b) (pos 0) ≡ normalize_circuit m
  unfolding insert_columns_before
  insert_zero m b = refl

  delete_zero :
      (m : CircuitModel R) (b : ℕ)
      → delete_empty_columns_before m (pos b) (pos 0) ≡ deleted (normalize_circuit m)
  unfolding delete_empty_columns_before
  delete_zero m b = refl

  -- Inserting n columns before column b and then deleting the n empty columns before column b + n
  -- gives the circuit in its normal form.
  pub delete-insert_columns :
      (m : CircuitModel R) (b n : ℕ)
      → delete_empty_columns_before (insert_columns_before m (pos b) (pos n)) (pos (b + n)) (pos n)
        ≡ deleted (normalize_circuit m)
  unfolding normalize_circuit
  delete-insert_columns m b zero =
      rw (insert_zero m b) (delete_zero (normalize_circuit m) (b + 0))
      ∙ ap deleted (normalize_circuit_idempotent m)
  delete-insert_columns m b (suc n) =
      let ops = (normalize_circuit m).operations in
      rw (operations-insert_columns_before m b (suc n)) (
        delete_of_NoneBetween (with_operations m (map (insert_shift b (suc n)) ops)) (b + suc n) n
          (omega arith) (insert_shift-NoneBetween b (suc n) ops)
        ∙ ap deleted (
            ap (λ os. normalize_circuit (with_operations m os))
              (delete_shift-insert_shift b (suc n) ops)
            ∙ normalize_circuit_idempotent m))

  -- When a deletion succeeds.
  abbrev pub CanDelete : CircuitModel R → ℤ → ℤ → Type 0
  CanDelete m b n =
      (pos_part n ≡ 0) ⊎ ((pos_part n ≤ pos_part b) × NoneBetween (pos_part b) (pos_part n) m)

  -- A deletion succeeds only where the range is empty of operations and within the circuit.
  pub deleted-CanDelete :
      (m m' : CircuitModel R) (b n : ℤ)
      → delete_empty_columns_before m b n ≡ deleted m'
      → CanDelete m b n
  unfolding delete_empty_columns_before
  deleted-CanDelete m m' b n e = ground (
    arith,
    find-none (blocking (pos_part b) (pos_part n)) m.operations,
    blocking-NoneBetween (pos_part b) (pos_part n) m.operations,
  )

  -- Where the count is 0, or the range is within the circuit and empty of operations, the deletion
  -- succeeds.
  pub CanDelete-deleted :
      (m : CircuitModel R) (b n : ℤ)
      → CanDelete m b n
      → (m' : CircuitModel R) × (delete_empty_columns_before m b n ≡ deleted m')
  unfolding delete_empty_columns_before
  CanDelete-deleted m b n (inl e) = (normalize_circuit m, ground arith)
  CanDelete-deleted m b n (inr (h, k)) = elim (Bool-cases (pos_part n == 0)) [
    | inl e ↦ (normalize_circuit m, ground arith)
    | inr e ↦ (
      normalize_circuit
          (with_operations m (map (delete_shift (pos_part b) (pos_part n)) m.operations)),
      ground (
        arith,
        find_of_All (blocking (pos_part b) (pos_part n)) m.operations
            (NoneBetween-blocking _ _ m.operations k),
      ),
    )
  ]
