-- ===== src/Qasm/Serializer.antt =====
-- frontend/src/features/circuit/qasm/qasm-bridge.ts. A line is the statement that it prints;
-- `requireTargets`, `requireParams` and `requireControls` are those of circuit-task-submit.ts, line
-- for line.
use mvp_qcp.Base.{ℕ, none, some, List, [], ◌∷◌, ◌++◌, map, String, get_elem?, or_else}
use mvp_qcp.Gate.{
  GateName, i, x, y, z, h, sx, sy, s, sdg, t, tdg, rx, ry, rz, u, p, cx, cy, ch, cp, cz, ccx, ccz,
  swap, cswap, rxx, ryy, rzz, rzx, m, gate_text,
}
use mvp_qcp.Circuit.{Operation, CircuitModel, Collation, sort_operations}
use mvp_qcp.Submission.{Thrown, return, ◌>>=◌, require_targets, require_params, require_controls}
use mvp_qcp.Qasm.{
  Operand, element, Statement, header, include, qubit_declaration, bit_declaration, measurement,
  application, Host,
}

-- An element of a list that `const [left, right] = …` names; the lists are long enough, since their
-- lengths are compared before.
abbrev pub nth : {A : Type 0} → A → List A → ℕ → A
nth default xs n = or_else (get_elem? xs n) default

-- `q[a], q[b]`
abbrev pub on : List ℕ → List Operand
on qubits = map (element "q") qubits

abbrev pub plain_line : String → List ℕ → Statement
plain_line name qubits = application name none (on qubits)

abbrev pub measure_line : ℕ → Statement
measure_line target = measurement "c" target "q" target

-- the lines that the cases of rzz, rxx, ryy and rzx print before and after those of `serializeRzz`
abbrev pub neither : ℕ → ℕ → List Statement
neither left right = []

abbrev pub both : String → ℕ → ℕ → List Statement
both name left right = plain_line name (left ∷ []) ∷ plain_line name (right ∷ []) ∷ []

abbrev pub to_y : ℕ → ℕ → List Statement
to_y left right = both "sdg" left right ++ both "h" left right

abbrev pub from_y : ℕ → ℕ → List Statement
from_y left right = both "h" left right ++ both "s" left right

abbrev pub right_h : ℕ → ℕ → List Statement
right_h left right = plain_line "h" (right ∷ []) ∷ []

module _ {R : Type 0} (host : Host R) where
  abbrev pub line_with : String → List R → List ℕ → Statement
  line_with name params qubits = application name (some (map host.format_number params)) (on qubits)

  unfoldable pub serialize_rzz : R → ℕ → ℕ → List Statement
  serialize_rzz theta left right =
      plain_line "cx" (left ∷ right ∷ [])
      ∷ line_with "rz" (theta ∷ []) (right ∷ [])
      ∷ plain_line "cx" (left ∷ right ∷ [])
      ∷ []

  -- the cases that print one line, by what they require
  unfoldable pub single : GateName → Operation R → Thrown (List Statement)
  unfolding require_targets gate_text
  single gate o = do
    targets ← require_targets o 1
    return (plain_line (gate_text gate) targets ∷ [])

  unfoldable pub single_with : GateName → Operation R → ℕ → Thrown (List Statement)
  unfolding require_targets require_params gate_text
  single_with gate o count = do
    targets ← require_targets o 1
    params ← require_params o count
    return (line_with (gate_text gate) params targets ∷ [])

  unfoldable pub controlled_line : GateName → Operation R → ℕ → ℕ → Thrown (List Statement)
  unfolding require_targets require_controls gate_text
  controlled_line gate o control_count target_count = do
    controls ← require_controls o control_count
    targets ← require_targets o target_count
    return (plain_line (gate_text gate) (controls ++ targets) ∷ [])

  -- the lines around `serializeRzz` in the cases of two targets and an angle
  unfoldable pub around :
      Operation R → (ℕ → ℕ → List Statement) → (ℕ → ℕ → List Statement) → Thrown (List Statement)
  unfolding require_targets require_params serialize_rzz
  around o before after = do
    targets ← require_targets o 2
    params ← require_params o 1
    let left = nth 0 targets 0
    let right = nth 0 targets 1
    return (
        before left right
        ++ serialize_rzz (nth host.number_0 params 0) left right
        ++ after left right)

  unfoldable pub serialize_gate : GateName → Operation R → Thrown (List Statement)
  unfolding require_targets require_params require_controls single single_with controlled_line
      around
  serialize_gate i o = single i o
  serialize_gate x o = single x o
  serialize_gate y o = single y o
  serialize_gate z o = single z o
  serialize_gate h o = single h o
  serialize_gate sx o = single sx o
  serialize_gate s o = single s o
  serialize_gate sdg o = single sdg o
  serialize_gate t o = single t o
  serialize_gate tdg o = single tdg o
  serialize_gate sy o = do
    targets ← require_targets o 1
    return (line_with "ry" (host.half_pi ∷ []) targets ∷ [])
  serialize_gate rx o = single_with rx o 1
  serialize_gate ry o = single_with ry o 1
  serialize_gate rz o = single_with rz o 1
  serialize_gate p o = single_with p o 1
  serialize_gate u o = single_with u o 3
  serialize_gate cx o = controlled_line cx o 1 1
  serialize_gate cy o = controlled_line cy o 1 1
  serialize_gate ch o = controlled_line ch o 1 1
  serialize_gate cz o = controlled_line cz o 1 1
  serialize_gate cp o = do
    controls ← require_controls o 1
    targets ← require_targets o 1
    params ← require_params o 1
    return (line_with "cp" params (controls ++ targets) ∷ [])
  serialize_gate ccx o = controlled_line ccx o 2 1
  serialize_gate ccz o = do
    controls ← require_controls o 2
    targets ← require_targets o 1
    return (
        plain_line "h" targets
        ∷ plain_line "ccx" (controls ++ targets)
        ∷ plain_line "h" targets
        ∷ [])
  serialize_gate swap o = do targets ← require_targets o 2; return (plain_line "swap" targets ∷ [])
  serialize_gate cswap o = controlled_line cswap o 1 2
  serialize_gate rzz o = around o neither neither
  serialize_gate rxx o = around o (both "h") (both "h")
  serialize_gate ryy o = around o to_y from_y
  serialize_gate rzx o = around o right_h right_h
  serialize_gate m o = do
    targets ← require_targets o 1
    return (measure_line (nth 0 targets 0) ∷ [])

  -- `serializeOperation`
  unfoldable pub serialize_operation : Operation R → Thrown (List Statement)
  unfolding serialize_gate
  serialize_operation o = serialize_gate o.gate o

  unfoldable pub serialize_all : List (Operation R) → Thrown (List Statement)
  unfolding serialize_operation
  serialize_all [] = return []
  serialize_all (o ∷ os) = do
    first ← serialize_operation o
    rest ← serialize_all os
    return (first ++ rest)

  -- The lines of the result.
  unfoldable pub to_qasm3 : ⦃c : Collation⦄ → CircuitModel R → Thrown (List Statement)
  unfolding serialize_all sort_operations
  to_qasm3 model = do
    lines ← serialize_all (sort_operations model.operations)
    return (
        header
        ∷ include
        ∷ qubit_declaration model.num_qubits "q"
        ∷ bit_declaration model.num_qubits "c"
        ∷ lines)
