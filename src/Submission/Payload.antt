-- ===== src/Submission/Payload.antt =====
-- The payload of a whole circuit.
use mvp_qcp.Base.{
  ℕ, ◌≡◌, refl, sym, ap, ◌∙◌, String, some, List, [], ◌∷◌, ◌++◌, map, inl, inr, All, All-append,
}
use mvp_qcp.Base.Int.{pos}
use mvp_qcp.Circuit.{Operation, CircuitModel, Collation, sort_operations}
use mvp_qcp.Circuit.Order.{
  All-sort_operations, All-of_sort_operations, map-sort_operations, sort_operations_idempotent,
}
use mvp_qcp.Circuit.Edit.{
  normalize_from, AddOperationInput, normalize_circuit, insert_shift, insert_columns_before,
  add_operation,
}
use mvp_qcp.Circuit.Edit.Normal.{HasId, normalize_from_of_HasId, All-normalize_circuit}
use mvp_qcp.Circuit.Edit.Columns.{in_order-insert_shift, operations-insert_columns_before}
use mvp_qcp.Gate.{GateName}
use mvp_qcp.Placement.{PendingPlacement, create_pending_placement}
use mvp_qcp.Placement.Shape.{MatchesCatalog}
use mvp_qcp.Placement.Laws.{place, create-place-MatchesCatalog}
use mvp_qcp.Submission.{
  CircuitTaskOperationPayload, CircuitTaskPayload, throw, return, ◌>>=◌, normalize_operation,
  normalize_all, build_circuit_task_payload,
}
use mvp_qcp.Submission.Layer.{normalize_all-insert_shift}
use mvp_qcp.Submission.Settled.{Settled, return-Settled, drop-Settled, bind-Settled}
use mvp_qcp.Submission.Arity.{
  HasRequired, HasRequired-of_HasArity, submitted, normalize_operation-Settled,
}

module _ {R : Type 0} where
  normalize_all-Settled :
      (ops : List (Operation R))
      → Settled (All HasRequired ops) (normalize_all ops) (map submitted ops)
  unfolding normalize_all
  normalize_all-Settled [] = return-Settled []
  normalize_all-Settled (o ∷ os) =
      bind-Settled (HasRequired o) (All HasRequired os) (normalize_operation o) (submitted o)
        (λ first. normalize_all os >>= (λ rest. return (first ∷ rest))) _
        (normalize_operation-Settled o)
        (drop-Settled _ _ _ (
          bind-Settled (All HasRequired os) Unit (normalize_all os) (map submitted os)
            (λ rest. return (submitted o ∷ rest)) _ (normalize_all-Settled os) (return-Settled _)))

  abbrev pub payload_of :
      CircuitModel R → List (CircuitTaskOperationPayload R) → CircuitTaskPayload R
  payload_of m ops = record { num_qubits = m.num_qubits; operations = ops }

  abbrev moved : ℕ → ℕ → List (Operation R) → List (Operation R)
  moved b n ops = map (insert_shift b n) ops

  module _ ⦃c : Collation⦄ where
    -- Building the payload of a circuit returns its operations in the order of the layers and ids, each
    -- with its targets and those of its lists of controls and of parameters that the catalog asks for,
    -- where every operation has as many targets as the catalog says of its gate and, where the catalog
    -- asks for controls or parameters, as many of those; where one has not, it throws.
    pub build_circuit_task_payload-Settled :
        (m : CircuitModel R)
        → Settled
            (All HasRequired m.operations)
            (build_circuit_task_payload m)
            (payload_of m (map submitted (sort_operations m.operations)))
    unfolding build_circuit_task_payload
    build_circuit_task_payload-Settled m =
        let s = drop-Settled _ _ _ (
          bind-Settled (All HasRequired (sort_operations m.operations)) Unit
            (normalize_all (sort_operations m.operations)) _ (λ ops. return (payload_of m ops)) _
            (normalize_all-Settled (sort_operations m.operations)) (return-Settled _)) in
        elim s [
          | inl (h, e) ↦ inl (All-of_sort_operations HasRequired m.operations h, e)
          | inr (n, thrown) ↦ inr (λ h. n (All-sort_operations HasRequired m.operations h), thrown)
        ]

    sort-insert_columns :
        (m : CircuitModel R) (b n : ℕ)
        → All HasId m.operations
        → sort_operations (insert_columns_before m (pos b) (pos n)).operations
          ≡ moved b n (sort_operations m.operations)
    unfolding normalize_circuit
    sort-insert_columns m b n h =
        ap (λ m. sort_operations m.operations) (operations-insert_columns_before m b n)
        ∙ sym (
            map-sort_operations (insert_shift b n) (in_order-insert_shift b n)
              (normalize_circuit m).operations)
        ∙ ap (moved b n) (
            sort_operations_idempotent (normalize_from 0 m.operations)
            ∙ ap sort_operations (normalize_from_of_HasId 0 m.operations h))

    -- Empty columns do not show in the payload: inserting columns leaves it as it was.
    pub payload-insert_columns :
        (m : CircuitModel R) (b n : ℕ)
        → All HasId m.operations
        → build_circuit_task_payload (insert_columns_before m (pos b) (pos n))
          ≡ build_circuit_task_payload m
    unfolding build_circuit_task_payload
    payload-insert_columns m b n h =
        rw
          (
            sort-insert_columns m b n h,
            normalize_all-insert_shift b n (sort_operations m.operations),
            ap (λ m. m.num_qubits) (operations-insert_columns_before m b n),
          )
          refl

    abbrev added : AddOperationInput R → String → Operation R
    added input fresh = record {
      id = fresh;
      gate = input.gate;
      targets = input.targets;
      controls = input.controls;
      params = input.params;
      layer = input.layer;
    }

    add-HasRequired :
        (m : CircuitModel R) (input : AddOperationInput R) (fresh : String)
        → MatchesCatalog input
        → All HasRequired m.operations
        → All HasRequired (add_operation m input fresh).operations
    unfolding add_operation
    add-HasRequired m input fresh s h =
        let new : HasRequired (added input fresh) =
          HasRequired-of_HasArity (added input fresh)
            (s.targets_count, s.controls_count, s.params_count) in
        let grown : CircuitModel R = record m {
          operations = m.operations ++ added input fresh ∷ [];
        } in
        All-normalize_circuit HasRequired (λ o id a. a) grown
          (All-append HasRequired m.operations (added input fresh ∷ []) h (new, tt))

    returned-HasRequired :
        (m : CircuitModel R) {before : CircuitTaskPayload R}
        → build_circuit_task_payload m ≡ return before
        → All HasRequired m.operations
    returned-HasRequired m {before} g = elim (build_circuit_task_payload-Settled m) [
      | inl (h, _) ↦ h
      | inr (_, (err, e)) ↦ let clash : throw err ≡ return before = sym e ∙ g in cc
    ]

    pub returned_of_HasRequired :
        (m : CircuitModel R)
        → All HasRequired m.operations
        → (after : CircuitTaskPayload R) × (build_circuit_task_payload m ≡ return after)
    returned_of_HasRequired m h = elim (build_circuit_task_payload-Settled m) [
      | inl (_, e) ↦ (_, e)
      | inr (n, _) ↦ absurd (n h)
    ]

    -- An operation that a placement ends with can be submitted: the payload of a circuit that can be
    -- built can be built of the circuit with that operation added as well.
    pub place-add-payload :
        (m : CircuitModel R) (initial : R) (gate : GateName) (source layer : ℕ) (clicks : List ℕ)
        (fresh : String) {pending : PendingPlacement} {input : AddOperationInput R}
        {before : CircuitTaskPayload R}
        → create_pending_placement gate source layer ≡ some pending
        → place initial pending clicks ≡ some input
        → build_circuit_task_payload m ≡ return before
        → (after : CircuitTaskPayload R) × (build_circuit_task_payload (add_operation m input fresh)
            ≡ return after)
    place-add-payload m initial gate source layer clicks fresh {input = input} e f g =
        let matches = (create-place-MatchesCatalog initial gate source layer clicks e f).1 in
        let all = add-HasRequired m input fresh matches (returned-HasRequired m g) in
        returned_of_HasRequired (add_operation m input fresh) all
