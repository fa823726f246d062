-- ===== src/TimeStep/Laws.antt =====
-- The steps of the slider divide the circuit.
use mathlib.Core.Path.{ap₂}
use mvp_qcp.Base.{
  ℕ, zero, suc, ◌≡◌, ◌≤◌, refl, Option, none, some, List, [], ◌∷◌, ◌++◌, map, arith, length, take,
  drop, length-take, take-append-drop, All, Pairs,
}
use mvp_qcp.Base.Int.{ℤ, pos, negsuc}
use mvp_qcp.Circuit.{Operation, CircuitModel, Collation, sort_operations}
use mvp_qcp.Circuit.Order.{All-sort_operations, Pairs-sort_operations, length-sort_operations}
use mvp_qcp.Circuit.Edit.Normal.{HasId}
use mvp_qcp.Circuit.Validation.{validate_circuit_model}
use mvp_qcp.Circuit.Validation.Distinct.{DistinctQubits}
use mvp_qcp.Circuit.Validation.Measurement.{MeasuredLast, MeasuredLast-sym}
use mvp_qcp.Circuit.Validation.Laws.{
  SpansApart, SpansApart-sym, IsSound, validate_circuit_model_iff,
}
use mvp_qcp.TimeStep.{
  clamp_step, clone_operation, slice_circuit_by_simulation_step,
  get_future_operation_ids_at_simulation_step, clamp_simulation_step_on_circuit_change,
}

module _ {ℓ κ} {A : Type ℓ} where
  All-take : (P : A → Type κ) (n : ℕ) (xs : List A) → All P xs → All P (take n xs)
  All-take P zero xs h = tt
  All-take P (suc n) [] h = tt
  All-take P (suc n) (x ∷ xs) (p, h) = (p, All-take P n xs h)

  Pairs-take : (P : A → A → Type κ) (n : ℕ) (xs : List A) → Pairs P xs → Pairs P (take n xs)
  Pairs-take P zero xs h = tt
  Pairs-take P (suc n) [] h = tt
  Pairs-take P (suc n) (x ∷ xs) (p, h) = (All-take (P x) n xs p, Pairs-take P n xs h)

clamp_step_le : (step : ℤ) (n : ℕ) → clamp_step step n ≤ n
clamp_step_le (pos k) n = omega arith
clamp_step_le (negsuc k) n = omega arith

module _ {R : Type 0} where
  clone_operation_lem : (o : Operation R) → clone_operation o ≡ o
  clone_operation_lem o = go o.controls o.params
    where
      go :
          (controls : Option (List ℕ)) (params : Option (List R))
          → clone_operation (record {
            id = o.id;
            gate = o.gate;
            targets = o.targets;
            controls = controls;
            params = params;
            layer = o.layer;
          })
            ≡ record {
              id = o.id;
              gate = o.gate;
              targets = o.targets;
              controls = controls;
              params = params;
              layer = o.layer;
            }
      go none none = refl
      go none (some p) = refl
      go (some c) none = refl
      go (some c) (some p) = refl

  map-clone_operation : (ops : List (Operation R)) → map clone_operation ops ≡ ops
  map-clone_operation [] = refl
  map-clone_operation (o ∷ os) = ap₂ ◌∷◌ (clone_operation_lem o) (map-clone_operation os)

  module _ ⦃c : Collation⦄ where
    operations-slice :
        (m : CircuitModel R) (step : ℤ)
        → (slice_circuit_by_simulation_step m step).operations
          ≡ take (clamp_step step (length m.operations)) (sort_operations m.operations)
    unfolding slice_circuit_by_simulation_step
    operations-slice m step = rw (length-sort_operations m.operations) (
        map-clone_operation
          (take (clamp_step step (length m.operations)) (sort_operations m.operations)))

    -- The operations that are simulated at a step and some rest are together the circuit's operations
    -- in their order, each as it is in the circuit; the ids that are shown as future are the ids of the
    -- rest; and as many operations are simulated as the step says, within the bounds.
    pub slice_future_partition :
        (m : CircuitModel R) (step : ℤ)
        → (rest : List (Operation R)) × ((slice_circuit_by_simulation_step m step).operations
              ++ rest
            ≡ sort_operations m.operations)
          × (get_future_operation_ids_at_simulation_step m step ≡ map (λ o. o.id) rest)
          × (length (slice_circuit_by_simulation_step m step).operations
              ≡ clamp_step step (length m.operations))
    unfolding get_future_operation_ids_at_simulation_step
    slice_future_partition m step =
        let n = clamp_step step (length m.operations) in
        let sorted = sort_operations m.operations in
        (
          drop n sorted,
          rw (operations-slice m step) (take-append-drop n sorted),
          rw (length-sort_operations m.operations) refl,
          rw (operations-slice m step) (
              omega (
                arith,
                length-take n sorted,
                length-sort_operations m.operations,
                clamp_step_le step (length m.operations),
              )),
        )

    slice-IsSound :
        (m : CircuitModel R) (step : ℤ)
        → IsSound m.operations
        → IsSound (slice_circuit_by_simulation_step m step).operations
    slice-IsSound m step s =
        let n = clamp_step step (length m.operations) in
        let sorted = sort_operations m.operations in
        rw (operations-slice m step) (record {
          distinct =
              All-take DistinctQubits n sorted
                (All-sort_operations DistinctQubits m.operations s.distinct);
          apart =
              Pairs-take SpansApart n sorted
                (Pairs-sort_operations SpansApart SpansApart-sym m.operations s.apart);
          measured_last =
              Pairs-take MeasuredLast n sorted
                (Pairs-sort_operations MeasuredLast MeasuredLast-sym m.operations s.measured_last);
        })

    -- What a circuit that the validation accepts shows at any step is accepted as well.
    pub validate-slice :
        (m : CircuitModel R) (step : ℤ)
        → All HasId m.operations
        → validate_circuit_model m ≡ none
        → validate_circuit_model (slice_circuit_by_simulation_step m step) ≡ none
    validate-slice m step ids h =
        let n = clamp_step step (length m.operations) in
        let ids' : All HasId (slice_circuit_by_simulation_step m step).operations =
          rw (operations-slice m step) (
            All-take HasId n (sort_operations m.operations)
              (All-sort_operations HasId m.operations ids)) in
        (validate_circuit_model_iff (slice_circuit_by_simulation_step m step) ids').1
          (slice-IsSound m step ((validate_circuit_model_iff m ids).0 h))

-- The step after a run of changes of the circuit, each given by its number of operations.
abbrev pub step_after : ℕ → ℕ → List ℕ → ℕ
step_after step total [] = step
step_after step total (next ∷ totals) =
    step_after (clamp_simulation_step_on_circuit_change (pos step) total next) next totals

abbrev pub last_total : ℕ → List ℕ → ℕ
last_total total [] = total
last_total total (next ∷ totals) = last_total next totals

clamp_change :
    (step total next : ℕ)
    → step ≤ total
    → (clamp_simulation_step_on_circuit_change (pos step) total next ≤ next)
      × (step ≡ total → clamp_simulation_step_on_circuit_change (pos step) total next ≡ next)
unfolding clamp_simulation_step_on_circuit_change
clamp_change step total next h = (ground arith, λ e. ground arith)

-- Over any run of changes of the circuit, a step within its bounds stays within the bounds of the
-- circuit reached.
pub step_after_le :
    (step total : ℕ) (totals : List ℕ)
    → step ≤ total
    → step_after step total totals ≤ last_total total totals
step_after_le step total [] h = h
step_after_le step total (next ∷ totals) h =
    step_after_le (clamp_simulation_step_on_circuit_change (pos step) total next) next totals
      (clamp_change step total next h).0

-- Over any run of changes of the circuit, a slider at the end of the circuit stays at the end.
pub step_after_end :
    (total : ℕ) (totals : List ℕ) → step_after total total totals ≡ last_total total totals
step_after_end total [] = refl
step_after_end total (next ∷ totals) =
    rw ((clamp_change total total next (omega arith)).1 refl) (step_after_end next totals)
