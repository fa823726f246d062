-- ===== src/Examples/Submitting.antt =====
-- The payload of a concrete circuit.
use mvp_qcp.Base.{ℕ, ◌≡◌, refl, none, some, [], ◌∷◌, map, All}
use mvp_qcp.Base.Int.{pos}
use mvp_qcp.Gate.{GateName}
use mvp_qcp.Circuit.{Operation, sort_operations}
use mvp_qcp.Circuit.Edit.{insert_columns_before, add_operation}
use mvp_qcp.Submission.{
  CircuitTaskPayload, payload, return, normalize_operation, build_circuit_task_payload,
}
use mvp_qcp.Submission.Settled.{Settled}
use mvp_qcp.Submission.Arity.{HasRequired, submitted, normalize_operation-Settled}
use mvp_qcp.Submission.Payload.{
  payload_of, build_circuit_task_payload-Settled, payload-insert_columns, place-add-payload,
}
use mvp_qcp.Examples.{by_rank, bell, bell-HasId, operation}
use mvp_qcp.Examples.Placing.{placed_ccx, pending_ccx_lem, placed_ccx_lem}

-- A CP without its parameter.
abbrev incomplete : Operation ℕ
incomplete = operation "a" GateName.cp (1 ∷ []) (some (0 ∷ [])) 0

normalize_operation-Settled_example :
    Settled (HasRequired incomplete) (normalize_operation incomplete) (submitted incomplete)
normalize_operation-Settled_example = normalize_operation-Settled incomplete

build_circuit_task_payload-Settled_example :
    Settled
      (All HasRequired bell.operations)
      (build_circuit_task_payload bell)
      (payload_of bell (map submitted (sort_operations bell.operations)))
build_circuit_task_payload-Settled_example = build_circuit_task_payload-Settled bell

payload-insert_columns_example :
    build_circuit_task_payload (insert_columns_before bell (pos 1) (pos 3))
    ≡ build_circuit_task_payload bell
payload-insert_columns_example = payload-insert_columns bell 1 3 bell-HasId

abbrev bell_payload : CircuitTaskPayload ℕ
bell_payload = payload_of bell (
    payload GateName.h (0 ∷ []) none none
    ∷ payload GateName.cx (1 ∷ []) (some (0 ∷ [])) none
    ∷ payload GateName.m (1 ∷ []) none none
    ∷ [])

bell_payload_lem : build_circuit_task_payload bell ≡ return bell_payload
unfolding build_circuit_task_payload
bell_payload_lem = refl

place-add-payload_example :
    (after : CircuitTaskPayload ℕ) × (build_circuit_task_payload (add_operation bell placed_ccx "d")
      ≡ return after)
place-add-payload_example =
    place-add-payload bell 0 GateName.ccx 2 4 (0 ∷ 0 ∷ 1 ∷ []) "d" pending_ccx_lem placed_ccx_lem
      bell_payload_lem
