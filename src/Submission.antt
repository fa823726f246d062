-- ===== src/Submission.antt =====
-- frontend/src/features/circuit/submission/circuit-task-submit.ts: the payload in which a circuit is
-- submitted. An error keeps the gate and the number that its message names. The error for an
-- unsupported gate is left out, since every gate has a case.
use mvp_qcp.Base.{ℕ, ◌≡◌, Bool, not, Option, none, some, List, [], ◌∷◌, length, ◌==◌, if◌then◌else◌}
use mvp_qcp.Gate.{
  GateName, i, x, y, z, h, sx, sy, s, sdg, t, tdg, rx, ry, rz, u, p, cx, cy, ch, cp, cz, ccx, ccz,
  swap, cswap, rxx, ryy, rzz, rzx, m,
}
use mvp_qcp.Circuit.{Operation, CircuitModel, Collation, sort_operations}
pub mod Settled
pub mod Arity
pub mod Layer
pub mod Payload

pub record CircuitTaskOperationPayload (R : Type 0) : Type 0 where
  pub gate : GateName
  pub targets : List ℕ
  pub controls : Option (List ℕ)
  pub params : Option (List R)

pub record CircuitTaskPayload (R : Type 0) : Type 0 where
  pub num_qubits : ℕ
  pub operations : List (CircuitTaskOperationPayload R)

pub data SubmitError : Type 0 where
  expects_targets expects_parameters expects_controls : GateName → ℕ → SubmitError

-- What a function returns or throws.
pub data Thrown (A : Type 0) : Type 0 where
  throw : SubmitError → Thrown A
  return : A → Thrown A

infixl 5 ◌>>=◌
abbrev pub ◌>>=◌ : {A B : Type 0} → Thrown A → (A → Thrown B) → Thrown B
throw e >>= f = throw e
return a >>= f = f a

-- The body of `requireParams` and of `requireControls`: `!list || list.length !== expectedCount`.
abbrev pub required : {A : Type 0} → Option (List A) → ℕ → SubmitError → Thrown (List A)
required none expected_count error = throw error
required (some xs) expected_count error =
    if not (length xs == expected_count) then throw error else return xs

module _ {R : Type 0} where
  unfoldable pub require_targets : Operation R → ℕ → Thrown (List ℕ)
  require_targets operation expected_count =
      if not (length operation.targets == expected_count)
      then throw (expects_targets operation.gate expected_count)
      else return operation.targets

  unfoldable pub require_params : Operation R → ℕ → Thrown (List R)
  require_params operation expected_count =
      required operation.params expected_count (expects_parameters operation.gate expected_count)

  unfoldable pub require_controls : Operation R → ℕ → Thrown (List ℕ)
  require_controls operation expected_count =
      required operation.controls expected_count (expects_controls operation.gate expected_count)

  abbrev pub payload :
      GateName → List ℕ → Option (List ℕ) → Option (List R) → CircuitTaskOperationPayload R
  payload gate targets controls params = record {
    gate = gate;
    targets = targets;
    controls = controls;
    params = params;
  }

  -- the cases of the switch, by what they require
  abbrev pub plain : Operation R → ℕ → Thrown (CircuitTaskOperationPayload R)
  unfolding require_targets
  plain o target_count = do
    targets ← require_targets o target_count
    return (payload o.gate targets none none)

  abbrev pub with_params : Operation R → ℕ → ℕ → Thrown (CircuitTaskOperationPayload R)
  unfolding require_targets require_params
  with_params o target_count param_count = do
    targets ← require_targets o target_count
    params ← require_params o param_count
    return (payload o.gate targets none (some params))

  abbrev pub with_controls : Operation R → ℕ → ℕ → Thrown (CircuitTaskOperationPayload R)
  unfolding require_targets require_controls
  with_controls o target_count control_count = do
    targets ← require_targets o target_count
    controls ← require_controls o control_count
    return (payload o.gate targets (some controls) none)

  abbrev pub with_controls_and_params :
      Operation R → ℕ → ℕ → ℕ → Thrown (CircuitTaskOperationPayload R)
  unfolding require_targets require_controls require_params
  with_controls_and_params o target_count control_count param_count = do
    targets ← require_targets o target_count
    controls ← require_controls o control_count
    params ← require_params o param_count
    return (payload o.gate targets (some controls) (some params))

  unfoldable pub normalize_gate : GateName → Operation R → Thrown (CircuitTaskOperationPayload R)
  unfolding require_targets require_controls require_params
  normalize_gate swap o = plain o 2
  normalize_gate rxx o = with_params o 2 1
  normalize_gate ryy o = with_params o 2 1
  normalize_gate rzz o = with_params o 2 1
  normalize_gate rzx o = with_params o 2 1
  normalize_gate cswap o = with_controls o 2 1
  normalize_gate cx o = with_controls o 1 1
  normalize_gate cy o = with_controls o 1 1
  normalize_gate ch o = with_controls o 1 1
  normalize_gate cz o = with_controls o 1 1
  normalize_gate cp o = with_controls_and_params o 1 1 1
  normalize_gate ccx o = with_controls o 1 2
  normalize_gate ccz o = with_controls o 1 2
  normalize_gate rx o = with_params o 1 1
  normalize_gate ry o = with_params o 1 1
  normalize_gate rz o = with_params o 1 1
  normalize_gate p o = with_params o 1 1
  normalize_gate u o = with_params o 1 3
  normalize_gate i o = plain o 1
  normalize_gate x o = plain o 1
  normalize_gate y o = plain o 1
  normalize_gate z o = plain o 1
  normalize_gate h o = plain o 1
  normalize_gate sx o = plain o 1
  normalize_gate sy o = plain o 1
  normalize_gate s o = plain o 1
  normalize_gate sdg o = plain o 1
  normalize_gate t o = plain o 1
  normalize_gate tdg o = plain o 1
  normalize_gate m o = plain o 1

  -- `normalizeOperation`
  unfoldable pub normalize_operation : Operation R → Thrown (CircuitTaskOperationPayload R)
  unfolding normalize_gate
  normalize_operation o = normalize_gate o.gate o

  -- `map` with a function that throws
  unfoldable pub normalize_all : List (Operation R) → Thrown (List (CircuitTaskOperationPayload R))
  unfolding normalize_operation
  normalize_all [] = return []
  normalize_all (o ∷ os) = do
    first ← normalize_operation o
    rest ← normalize_all os
    return (first ∷ rest)

  unfoldable pub build_circuit_task_payload :
      ⦃c : Collation⦄ → CircuitModel R → Thrown (CircuitTaskPayload R)
  unfolding normalize_all sort_operations
  build_circuit_task_payload model = do
    operations ← normalize_all (sort_operations model.operations)
    return (record { num_qubits = model.num_qubits; operations = operations })
