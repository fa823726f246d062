-- ===== src/Qasm.antt =====
-- OpenQASM 3 in frontend/src/features/circuit/qasm: what qasm-parser.ts, qasm-parser-utils.ts and
-- qasm-bridge.ts share, the types of qasm-parser-types.ts and the errors of qasm-errors.ts.
--
-- A statement is what the regular expressions of qasm-parser-types.ts recognise in its text, tried
-- in the order of `parseStatements`; the texts of the gate's name and of the parameters are kept. The
-- message of an error is left out, and its column, which is 1.
use mvp_qcp.Base.{ℕ, Bool, ◌||◌, Option, none, some, List, [], ◌∷◌, String, str_eq, if◌then◌else◌}
use mvp_qcp.Gate.{GateName}
pub mod Statements
pub mod Parser
pub mod Serializer
pub mod Standard
pub mod Printing
pub mod Exact
pub mod Reading
pub mod Lines
pub mod Readable
pub mod MeasuredLast
pub mod RoundTrip
pub mod Specs
pub mod Parsed
pub mod Declared
pub mod Accepted
pub mod Missing

pub data QasmParseErrorCode : Type 0 where
  missing_header missing_declaration invalid_syntax invalid_circuit invalid_parameter
        invalid_operand unsupported_statement unsupported_gate :
      QasmParseErrorCode

pub record QasmParseError : Type 0 where
  pub error_code : QasmParseErrorCode
  pub line : ℕ
  pub excerpt : String

abbrev pub create_qasm_parse_error : QasmParseErrorCode → ℕ → String → QasmParseError
create_qasm_parse_error error_code line excerpt = record {
  error_code = error_code;
  line = line;
  excerpt = excerpt;
}

-- An operand is `name[index]`, or a text that OPERAND_RE does not match.
pub data Operand : Type 0 where
  element : String → ℕ → Operand
  other_operand : Operand

-- HEADER_RE, INCLUDE_RE, QUBIT_DECL_RE, BIT_DECL_RE, MEASURE_RE and GATE_RE, with the groups that
-- they capture, and the text that none of them matches.
pub data Statement : Type 0 where
  header include : Statement
  qubit_declaration bit_declaration : ℕ → String → Statement
  measurement : String → ℕ → String → ℕ → Statement
  application : String → Option (List String) → List Operand → Statement
  other_statement : Statement

pub record StatementLine : Type 0 where
  pub line : ℕ
  pub statement : Statement
  pub excerpt : String

pub record RegisterState : Type 0 where
  pub name : String
  pub size : ℕ

pub record GateSpec : Type 0 where
  pub gate : GateName
  pub param_count : ℕ
  pub operand_count : ℕ
  pub control_count : ℕ

-- What the parser and the serializer call of JavaScript: the test of an expression's characters,
-- `Function`, which throws on a text that is no expression, `Number.isFinite`, `toLowerCase`, the
-- text that `formatNumber` makes of a number, and the numbers 0 and Math.PI / 2.
pub record Host (R : Type 0) : Type 0 where
  pub is_allowed : String → Bool
  pub evaluate : String → Option R
  pub is_finite : R → Bool
  pub to_lower_case : String → String
  pub format_number : R → String
  pub number_0 : R
  pub half_pi : R

abbrev spec : GateName → ℕ → ℕ → ℕ → GateSpec
spec gate params operands controls = record {
  gate = gate;
  param_count = params;
  operand_count = operands;
  control_count = controls;
}

abbrev pub gate_specs : List (String × GateSpec)
gate_specs =
    ("i", spec GateName.i 0 1 0)
    ∷ ("x", spec GateName.x 0 1 0)
    ∷ ("y", spec GateName.y 0 1 0)
    ∷ ("z", spec GateName.z 0 1 0)
    ∷ ("h", spec GateName.h 0 1 0)
    ∷ ("sx", spec GateName.sx 0 1 0)
    ∷ ("s", spec GateName.s 0 1 0)
    ∷ ("sdg", spec GateName.sdg 0 1 0)
    ∷ ("t", spec GateName.t 0 1 0)
    ∷ ("tdg", spec GateName.tdg 0 1 0)
    ∷ ("rx", spec GateName.rx 1 1 0)
    ∷ ("ry", spec GateName.ry 1 1 0)
    ∷ ("rz", spec GateName.rz 1 1 0)
    ∷ ("u", spec GateName.u 3 1 0)
    ∷ ("p", spec GateName.p 1 1 0)
    ∷ ("cx", spec GateName.cx 0 2 1)
    ∷ ("cnot", spec GateName.cx 0 2 1)
    ∷ ("cy", spec GateName.cy 0 2 1)
    ∷ ("ch", spec GateName.ch 0 2 1)
    ∷ ("cp", spec GateName.cp 1 2 1)
    ∷ ("cz", spec GateName.cz 0 2 1)
    ∷ ("ccx", spec GateName.ccx 0 3 2)
    ∷ ("swap", spec GateName.swap 0 2 0)
    ∷ ("cswap", spec GateName.cswap 0 3 1)
    ∷ []

-- `GATE_SPECS[name]`, of the object's own properties.
abbrev pub spec_named : String → List (String × GateSpec) → Option GateSpec
spec_named name [] = none
spec_named name ((key, s) ∷ rest) = if str_eq key name then some s else spec_named name rest

-- The properties in lower case that every object inherits: `GATE_SPECS[name]` finds them as well.
abbrev pub is_inherited : String → Bool
is_inherited name = str_eq name "constructor" || str_eq name "__proto__"
