-- ===== src/Examples/Validating.antt =====
-- The validation and the steps of the slider at concrete circuits.
use mvp_qcp.Base.{ℕ, List, ◌≡◌, ◌↔◌, ◌≤◌, ◌++◌, refl, none, [], ◌∷◌, map, length, arith}
use mvp_qcp.Base.Int.{pos}
use mvp_qcp.Circuit.{Operation, sort_operations}
use mvp_qcp.Circuit.Validation.{validate_circuit_model}
use mvp_qcp.Circuit.Validation.Laws.{IsSound, validate_circuit_model_iff}
use mvp_qcp.TimeStep.{
  slice_circuit_by_simulation_step, get_future_operation_ids_at_simulation_step, clamp_step,
}
use mvp_qcp.TimeStep.Laws.{
  slice_future_partition, validate-slice, step_after, last_total, step_after_le, step_after_end,
}
use mvp_qcp.Examples.{by_rank, bell, bell-HasId}

bell_accepted : validate_circuit_model bell ≡ none
unfolding validate_circuit_model
bell_accepted = refl

validate_circuit_model_iff_example : (validate_circuit_model bell ≡ none) ↔ IsSound bell.operations
validate_circuit_model_iff_example = validate_circuit_model_iff bell bell-HasId

slice_future_partition_example :
    (rest : List (Operation ℕ)) × ((slice_circuit_by_simulation_step bell (pos 2)).operations
        ++ rest
      ≡ sort_operations bell.operations)
    × (get_future_operation_ids_at_simulation_step bell (pos 2) ≡ map (λ o. o.id) rest)
    × (length (slice_circuit_by_simulation_step bell (pos 2)).operations
        ≡ clamp_step (pos 2) (length bell.operations))
slice_future_partition_example = slice_future_partition bell (pos 2)

future_ids : get_future_operation_ids_at_simulation_step bell (pos 2) ≡ "c" ∷ []
unfolding get_future_operation_ids_at_simulation_step
future_ids = refl

validate-slice_example :
    validate_circuit_model (slice_circuit_by_simulation_step bell (pos 2)) ≡ none
validate-slice_example = validate-slice bell (pos 2) bell-HasId bell_accepted

step_after_le_example : step_after 2 3 (5 ∷ 1 ∷ []) ≤ last_total 3 (5 ∷ 1 ∷ [])
step_after_le_example = step_after_le 2 3 (5 ∷ 1 ∷ []) (omega arith)

step_after_end_example : step_after 3 3 (5 ∷ 1 ∷ []) ≡ last_total 3 (5 ∷ 1 ∷ [])
step_after_end_example = step_after_end 3 (5 ∷ 1 ∷ [])
