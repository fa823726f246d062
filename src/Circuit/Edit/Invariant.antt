-- ===== src/Circuit/Edit/Invariant.antt =====
-- What every edit of the canvas keeps: each operation has an id and touches only the qubits that
-- the circuit has, and the number of qubits stays within the boundary.
use mvp_qcp.Base.{
  ℕ, ◌+◌, ◌-◌, ◌≡◌, ◌<◌, ◌≤◌, ◌++◌, Bool, not, Option, none, some, List, [], ◌∷◌, map, String,
  str_eq, arith, All, All-imp, All-append, All-map, All-append_left, All-append_right, filter,
  or_else, inl, inr, ◌⊎◌, if◌then◌else◌, Bool-cases, ◌==◌,
}
use mvp_qcp.Base.Int.{ℤ, pos_part}
use mvp_qcp.Circuit.{Operation, CircuitModel, QubitBoundary, Collation, InRange, touched_qubits}
use mvp_qcp.Circuit.Edit.{
  AddOperationInput, UpdateOperationInput, update_fields, normalize_circuit, insert_shift,
  delete_shift, add_operation, remove_operation, update_operation, insert_columns_before,
  delete_empty_columns_before, deleted, adjusted, increase_qubits, decrease_qubits,
}
use mvp_qcp.Circuit.Edit.Normal.{HasId, normalize_circuit-HasId, All-normalize_circuit}
use mvp_qcp.Circuit.Edit.Qubits.{decrease_qubits_iff, increase_qubits-eq, increase_qubits-lt}

abbrev pub Below : ℕ → List ℕ → Type 0
Below n qs = All (λ q. q < n) qs

module _ ⦃c : Collation⦄ {R : Type 0} (b : QubitBoundary) where
  -- The edits, as the functions of circuit-model.ts make them.
  pub data Step (m : CircuitModel R) : CircuitModel R → Type 0 where
    add : (input : AddOperationInput R) (fresh : String) → Step m (add_operation m input fresh)
    remove : (id : String) → Step m (remove_operation m id)
    update : (id : String) (input : UpdateOperationInput R) → Step m (update_operation m id input)
    insert : (before count : ℤ) → Step m (insert_columns_before m before count)
    delete :
        (before count : ℤ) {m' : CircuitModel R}
        → delete_empty_columns_before m before count ≡ deleted m'
        → Step m m'
    increase : {m' : CircuitModel R} → increase_qubits m b ≡ adjusted m' → Step m m'
    decrease : {m' : CircuitModel R} → decrease_qubits m b ≡ adjusted m' → Step m m'

  pub data Reach (m : CircuitModel R) : CircuitModel R → Type 0 where
    here : Reach m m
    next : {k l : CircuitModel R} → Reach m k → Step k l → Reach m l

  -- An operation that is added, and the targets and controls that an operation is given, are on the
  -- qubits of the circuit.
  abbrev pub StaysInside : {m m' : CircuitModel R} → Step m m' → Type 0
  StaysInside {m} (add input fresh) =
      Below m.num_qubits (input.targets ++ or_else input.controls [])
  StaysInside (remove id) = Unit
  StaysInside {m} (update id input) =
      Below m.num_qubits (or_else input.targets []) × Below m.num_qubits (or_else input.controls [])
  StaysInside (insert before count) = Unit
  StaysInside (delete before count e) = Unit
  StaysInside (increase e) = Unit
  StaysInside (decrease e) = Unit

  abbrev pub AllStayInside : {m m' : CircuitModel R} → Reach m m' → Type 0
  AllStayInside here = Unit
  AllStayInside (next r step) = AllStayInside r × StaysInside step

  pub record IsValid (m : CircuitModel R) : Type 0 where
    pub in_range : InRange m
    pub has_ids : All HasId m.operations
    pub enough : b.min_qubits ≤ m.num_qubits
    pub not_too_many : m.num_qubits ≤ b.max_qubits

  -- Where the operations fit, the normal form is valid.
  normalize-IsValid :
      (m : CircuitModel R)
      → InRange m
      → b.min_qubits ≤ m.num_qubits
      → m.num_qubits ≤ b.max_qubits
      → IsValid (normalize_circuit m)
  unfolding normalize_circuit
  normalize-IsValid m fits lo hi = record {
    in_range =
        All-normalize_circuit (λ o. Below m.num_qubits (touched_qubits o)) (λ o s p. p) m fits;
    has_ids = normalize_circuit-HasId m;
    enough = lo;
    not_too_many = hi;
  }

Below-mono : (n : ℕ) (qs : List ℕ) → Below n qs → Below (n + 1) qs
Below-mono n [] h = tt
Below-mono n (q ∷ qs) (p, h) = (omega arith, Below-mono n qs h)

All-filter {ℓ κ} :
    {A : Type ℓ} (P : A → Type κ) (p : A → Bool) (xs : List A) → All P xs → All P (filter p xs)
All-filter P p [] h = tt
All-filter P p (x ∷ xs) (q, h) = elim (Bool-cases (p x)) [
  | inl e ↦ rw e (q, All-filter P p xs h)
  | inr e ↦ rw e (All-filter P p xs h)
]

Below-or_else :
    (n : ℕ) (new : Option (List ℕ)) (old : List ℕ)
    → Below n (or_else new [])
    → Below n old
    → Below n (or_else new old)
Below-or_else n none old h k = k
Below-or_else n (some qs) old h k = h

Below-controls :
    (n : ℕ) (new old : Option (List ℕ))
    → Below n (or_else new [])
    → Below n (or_else old [])
    → Below n (or_else (elim new [ none ↦ old | some cs ↦ some cs ]) [])
Below-controls n none old h k = k
Below-controls n (some qs) old h k = h

module _ {R : Type 0} where
  update_fields-Below :
      (n : ℕ) (input : UpdateOperationInput R) (o : Operation R)
      → Below n (or_else input.targets [])
      → Below n (or_else input.controls [])
      → Below n (touched_qubits o)
      → Below n (touched_qubits (update_fields input o))
  unfolding update_fields
  update_fields-Below n input o t k h =
      All-append _ (or_else input.targets o.targets) _
        (Below-or_else n input.targets o.targets t (All-append_left _ o.targets _ h))
        (Below-controls n input.controls o.controls k (All-append_right _ o.targets _ h))

  update_one-Below :
      (n : ℕ) (id : String) (input : UpdateOperationInput R) (o : Operation R)
      → Below n (or_else input.targets [])
      → Below n (or_else input.controls [])
      → Below n (touched_qubits o)
      → Below n (touched_qubits (if not (str_eq o.id id) then o else update_fields input o))
  update_one-Below n id input o t k h = elim (Bool-cases (str_eq o.id id)) [
    | inl e ↦ rw e (update_fields-Below n input o t k h)
    | inr e ↦ rw e h
  ]

  insert_shift-InRange :
      (n b k : ℕ) (ops : List (Operation R))
      → All (λ o. Below n (touched_qubits o)) ops
      → All (λ o. Below n (touched_qubits o)) (map (insert_shift b k) ops)
  unfolding insert_shift
  insert_shift-InRange n b k ops h = All-map _ (insert_shift b k) ops h

  delete_shift-InRange :
      (n b k : ℕ) (ops : List (Operation R))
      → All (λ o. Below n (touched_qubits o)) ops
      → All (λ o. Below n (touched_qubits o)) (map (delete_shift b k) ops)
  unfolding delete_shift
  delete_shift-InRange n b k ops h = All-map _ (delete_shift b k) ops h

module _ ⦃c : Collation⦄ {R : Type 0} (b : QubitBoundary) where
  -- A record with other operations, on the qubits of a valid circuit.
  replaced-IsValid :
      (m : CircuitModel R) (ops : List (Operation R))
      → IsValid b m
      → All (λ o. Below m.num_qubits (touched_qubits o)) ops
      → IsValid b (normalize_circuit (record m { operations = ops }))
  replaced-IsValid m ops v h =
      normalize-IsValid b (record m { operations = ops }) h v.enough v.not_too_many

  insert-IsValid :
      (m : CircuitModel R) (before count : ℤ)
      → IsValid b m
      → IsValid b (insert_columns_before m before count)
  unfolding insert_columns_before
  insert-IsValid m before count v = elim (Bool-cases (pos_part count == 0)) [
    | inl e ↦ rw e (replaced-IsValid m m.operations v v.in_range)
    | inr e ↦
        rw e
          (replaced-IsValid m _ v (insert_shift-InRange m.num_qubits _ _ m.operations v.in_range))
  ]

  delete_empty_columns_before-eq :
      (m m' : CircuitModel R) (before count : ℤ)
      → delete_empty_columns_before m before count ≡ deleted m'
      → (m' ≡ normalize_circuit (record m { operations = m.operations }))
        ⊎ (m'
            ≡ normalize_circuit (record m {
              operations = map (delete_shift (pos_part before) (pos_part count)) m.operations;
            }))
  unfolding delete_empty_columns_before
  delete_empty_columns_before-eq m m' before count e = ground arith

  delete-IsValid :
      (m m' : CircuitModel R) (before count : ℤ)
      → IsValid b m
      → delete_empty_columns_before m before count ≡ deleted m'
      → IsValid b m'
  delete-IsValid m m' before count v e = elim (delete_empty_columns_before-eq m m' before count e) [
    | inl same ↦ rw same (replaced-IsValid m m.operations v v.in_range)
    | inr same ↦
        rw same
          (replaced-IsValid m _ v (delete_shift-InRange m.num_qubits _ _ m.operations v.in_range))
  ]

  pub Step-IsValid :
      {m m' : CircuitModel R} (step : Step b m m') → StaysInside b step → IsValid b m → IsValid b m'
  unfolding add_operation remove_operation update_operation
  Step-IsValid {m} (add input fresh) h v =
      replaced-IsValid m _ v (All-append _ m.operations _ v.in_range (h, tt))
  Step-IsValid {m} (remove id) i v = replaced-IsValid m _ v (All-filter _ _ m.operations v.in_range)
  Step-IsValid {m} (update id input) (t, k) v = replaced-IsValid m _ v (
      All-map _ _ m.operations
        (All-imp (λ o h. update_one-Below m.num_qubits id input o t k h) m.operations v.in_range))
  Step-IsValid {m} (insert before count) i v = insert-IsValid m before count v
  Step-IsValid {m} {m'} (delete before count e) i v = delete-IsValid m m' before count v e
  Step-IsValid {m} {m'} (increase e) i v = rw (increase_qubits-eq m m' b e) (
      normalize-IsValid b (record m { num_qubits = m.num_qubits + 1 })
        (All-imp (λ o h. Below-mono m.num_qubits (touched_qubits o) h) m.operations v.in_range)
        (omega (arith, v.enough)) (omega (arith, increase_qubits-lt m m' b e)))
  Step-IsValid {m} {m'} (decrease e) i v =
      let (lo, fits, same) = (decrease_qubits_iff m m' b).0 e in
      rw same (
        normalize-IsValid b (record m { num_qubits = m.num_qubits - 1 }) fits (omega arith)
          (omega (arith, v.not_too_many)))

  -- Whatever the sequence of edits, where each operation that is added, and the targets and controls
  -- that an operation is given, are on qubits that the circuit then has: a circuit whose operations
  -- have ids and touch only its qubits, and whose number of qubits is within the boundary, stays so.
  pub Reach-IsValid :
      {m m' : CircuitModel R} → IsValid b m → (r : Reach b m m') → AllStayInside b r → IsValid b m'
  Reach-IsValid v here i = v
  Reach-IsValid v (next r step) (before, i) = Step-IsValid step i (Reach-IsValid v r before)
