-- ===== src/Examples/Writing.antt =====
-- OpenQASM 3 texts of concrete circuits, on a host whose numbers are natural numbers of one digit.
use mvp_qcp.Base.{
  ℕ, ◌≡◌, refl, true, Option, none, some, List, [], ◌∷◌, ◌++◌, String, str_eq, All, if◌then◌else◌,
}
use mvp_qcp.Base.Decimal.{decimal}
use mvp_qcp.Gate.{GateName}
use mvp_qcp.Circuit.{CircuitModel, InRange}
use mvp_qcp.Circuit.Validation.{validate_circuit_model}
use mvp_qcp.Submission.{CircuitTaskPayload, return, build_circuit_task_payload}
use mvp_qcp.Submission.Arity.{HasArity}
use mvp_qcp.Qasm.{
  element, Statement, header, include, qubit_declaration, bit_declaration, measurement, application,
  StatementLine, Host, missing_declaration, create_qasm_parse_error,
}
use mvp_qcp.Qasm.Parser.{success, failure, parse_qasm3}
use mvp_qcp.Qasm.RoundTrip.{number_lines}
use mvp_qcp.Qasm.Accepted.{parse_qasm3-HasArity, parse_qasm3-InRange}
use mvp_qcp.Qasm.Missing.{parse_qasm3-missing}
use mvp_qcp.Examples.{by_rank, operation}

digit_of : String → Option ℕ
digit_of text =
    if str_eq text "0"
    then some 0
    else if str_eq text "2"
    then some 2
    else if str_eq text "5"
    then some 5
    else none

abbrev digits_host : Host ℕ
digits_host = record {
  is_allowed = λ text. true;
  evaluate = digit_of;
  is_finite = λ n. true;
  to_lower_case = λ text. text;
  format_number = decimal;
  number_0 = 0;
  half_pi = 2;
}

-- A measurement of qubit 1 after an RZZ between qubits 0 and 1; the list is not in order.
abbrev twisted : CircuitModel ℕ
twisted = record {
  num_qubits = 2;
  operations =
      operation "b" GateName.m (1 ∷ []) none 1
      ∷ record (operation "a" GateName.rzz (0 ∷ 1 ∷ []) none 0) { params = some (5 ∷ []) }
      ∷ [];
}

abbrev blank : Statement → String
blank statement = ""

-- A Bell pair, with a measurement.
abbrev bell_lines : List StatementLine
bell_lines = number_lines blank 1 (
    header
    ∷ qubit_declaration 2 "q"
    ∷ application "h" none (element "q" 0 ∷ [])
    ∷ application "cnot" none (element "q" 0 ∷ element "q" 1 ∷ [])
    ∷ measurement "c" 0 "q" 1
    ∷ [])

abbrev bell_read : CircuitModel ℕ
bell_read = record {
  num_qubits = 2;
  operations =
      operation "op-1" GateName.h (0 ∷ []) none 0
      ∷ operation "op-2" GateName.cx (1 ∷ []) (some (0 ∷ [])) 1
      ∷ operation "op-3" GateName.m (1 ∷ []) none 2
      ∷ [];
}

bell_lines_lem : parse_qasm3 digits_host bell_lines ≡ success bell_read
unfolding parse_qasm3 decimal
bell_lines_lem = refl

parse_qasm3-HasArity_example :
    (validate_circuit_model bell_read ≡ none)
    × All HasArity bell_read.operations
    × (payload : CircuitTaskPayload ℕ) × (build_circuit_task_payload bell_read ≡ return payload)
parse_qasm3-HasArity_example = parse_qasm3-HasArity digits_host bell_lines bell_lines_lem

parse_qasm3-InRange_example : (bell_read.num_qubits ≡ 2) × InRange bell_read
parse_qasm3-InRange_example =
    parse_qasm3-InRange digits_host 2 bell_lines (tt, (refl, (tt, (tt, (tt, tt))))) bell_lines_lem

-- A register of qubits that is declared again with fewer qubits leaves earlier operations out of
-- range: the operation on qubit 4 stands in a circuit of 2 qubits.
shrunk :
    parse_qasm3 digits_host (
      number_lines blank 1 (
        header
        ∷ qubit_declaration 5 "q"
        ∷ application "x" none (element "q" 4 ∷ [])
        ∷ qubit_declaration 2 "q"
        ∷ []))
    ≡ success
        (record { num_qubits = 2; operations = operation "op-1" GateName.x (4 ∷ []) none 0 ∷ [] })
unfolding parse_qasm3 decimal
shrunk = refl

parse_qasm3-missing_example :
    parse_qasm3 digits_host (
      number_lines blank 1 (header ∷ include ∷ bit_declaration 2 "c" ∷ [])
      ++ number_lines blank 4 (measurement "c" 0 "q" 0 ∷ header ∷ []))
    ≡ failure (create_qasm_parse_error missing_declaration 4 "")
parse_qasm3-missing_example =
    parse_qasm3-missing digits_host
      (number_lines blank 1 (header ∷ include ∷ bit_declaration 2 "c" ∷ []))
      (number_lines blank 4 (measurement "c" 0 "q" 0 ∷ header ∷ [])) (refl, (refl, (refl, tt))) refl
      refl
