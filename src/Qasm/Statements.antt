-- ===== src/Qasm/Statements.antt =====
-- How frontend/src/features/circuit/qasm/qasm-parser-utils.ts and qasm-parser.ts read one statement.
use Prim.Native.String.{◌++◌ as str_append}
use mvp_qcp.Base.{
  ℕ, ◌-◌, Bool, true, false, not, ◌||◌, Option, none, some, List, [], ◌∷◌, String, str_eq, ltb, leb,
  ◌==◌, if◌then◌else◌, length, take, drop, or_else,
}
use mvp_qcp.Base.Decimal.{decimal}
use mvp_qcp.Gate.{GateName}
use mvp_qcp.Circuit.{Operation}
use mvp_qcp.Qasm.{
  QasmParseErrorCode, invalid_parameter, invalid_operand, unsupported_gate, QasmParseError,
  create_qasm_parse_error, Operand, element, other_operand, StatementLine, RegisterState, GateSpec,
  Host, gate_specs, spec_named, is_inherited,
}

-- What is thrown: an error of the parser, or another one, which `Function` throws.
pub data ParseException : Type 0 where
  parse_error : QasmParseError → ParseException
  host_error : ParseException

pub data Parsing (A : Type 0) : Type 0 where
  raise : ParseException → Parsing A
  done : A → Parsing A

infixl 5 ◌>>=◌
abbrev pub ◌>>=◌ : {A B : Type 0} → Parsing A → (A → Parsing B) → Parsing B
raise e >>= f = raise e
done a >>= f = f a

infixl 5 ◌>>◌
abbrev pub ◌>>◌ : {A B : Type 0} → Parsing A → Parsing B → Parsing B
a >> b = a >>= (λ _. b)

-- `throwParseException` of an error at a statement
abbrev pub throw_at : {A : Type 0} → QasmParseErrorCode → StatementLine → Parsing A
throw_at error_code item =
    raise (parse_error (create_qasm_parse_error error_code item.line item.excerpt))

abbrev pub require : Bool → QasmParseErrorCode → StatementLine → Parsing (Unit {0})
require true error_code item = done tt
require false error_code item = throw_at error_code item

-- `map` with a function that throws
abbrev pub map_parsing : {A B : Type 0} → (A → Parsing B) → List A → Parsing (List B)
map_parsing f [] = done []
map_parsing f (x ∷ xs) = do first ← f x; rest ← map_parsing f xs; done (first ∷ rest)

-- `registerName !== qubit.name || index >= qubit.size`
abbrev pub is_outside : RegisterState → String → ℕ → Bool
is_outside register name index = not (str_eq name register.name) || leb register.size index

-- The qubit of an operand.
unfoldable pub parse_operand_index : RegisterState → StatementLine → Operand → Parsing ℕ
parse_operand_index qubit item other_operand = throw_at invalid_operand item
parse_operand_index qubit item (element register_name index) =
    if is_outside qubit register_name index then throw_at invalid_operand item else done index

pub record Resolved (R : Type 0) : Type 0 where
  pub gate : GateName
  pub params : List R
  pub spec : GateSpec

abbrev pub to_alias_gate_spec : {R : Type 0} → GateName → List R → Resolved R
to_alias_gate_spec gate params = record {
  gate = gate;
  params = params;
  spec = record { gate = gate; param_count = 3; operand_count = 1; control_count = 0 };
}

abbrev pub is_swap : GateName → Bool
is_swap GateName.swap = true
is_swap _ = false

-- `bit && (cName !== bit.name || cIndex >= bit.size)`
abbrev pub is_other_bit : Option RegisterState → String → ℕ → Bool
is_other_bit none name index = false
is_other_bit (some bit) name index = is_outside bit name index

-- `params.length > 0 ? params : undefined`
abbrev pub if_any : {A : Type 0} → List A → Option (List A)
if_any [] = none
if_any (x ∷ xs) = some (x ∷ xs)

module _ {R : Type 0} (host : Host R) where
  unfoldable pub parse_numeric_expression : StatementLine → String → Parsing R
  parse_numeric_expression item expression =
      if not (host.is_allowed expression)
      then throw_at invalid_parameter item
      else elim (host.evaluate expression) [
        | none ↦ raise host_error
        | some value ↦
            if not (host.is_finite value) then throw_at invalid_parameter item else done value
      ]

  -- A list that is absent or blank is empty.
  unfoldable pub parse_parameter_list : Option (List String) → StatementLine → Parsing (List R)
  unfolding parse_numeric_expression
  parse_parameter_list raw item = map_parsing (parse_numeric_expression item) (or_else raw [])

  -- An inherited property is no specification: its `paramCount` is undefined, so the comparison
  -- with the number of parameters, which comes next in `parseGateStatement`, fails.
  unfoldable pub resolve_gate : String → List R → StatementLine → Parsing (Resolved R)
  resolve_gate gate_raw params item =
      let lower = host.to_lower_case gate_raw in
      if str_eq lower "u1"
      then done (to_alias_gate_spec GateName.u (host.number_0 ∷ host.number_0 ∷ params))
      else if str_eq lower "u2"
      then done (to_alias_gate_spec GateName.u (host.half_pi ∷ params))
      else if str_eq lower "u3"
      then done (to_alias_gate_spec GateName.u params)
      else elim (spec_named lower gate_specs) [
        | some s ↦ done (record { gate = s.gate; params = params; spec = s })
        | none ↦ throw_at (if is_inherited lower then invalid_parameter else unsupported_gate) item
      ]

module _ {R : Type 0} where
  -- `take 2` and `take 1` are the first operands: the number of operands was compared before.
  unfoldable pub to_operation : GateName → GateSpec → List R → List ℕ → ℕ → Operation R
  to_operation gate s params operand_indexes op_index =
      if ltb 0 s.control_count
      then record {
        id = str_append "op-" (decimal op_index);
        gate = gate;
        layer = op_index - 1;
        controls = some (take s.control_count operand_indexes);
        targets = drop s.control_count operand_indexes;
        params = if_any params;
      }
      else if is_swap gate
      then record {
        id = str_append "op-" (decimal op_index);
        gate = gate;
        layer = op_index - 1;
        controls = none;
        targets = take 2 operand_indexes;
        params = none;
      }
      else record {
        id = str_append "op-" (decimal op_index);
        gate = gate;
        layer = op_index - 1;
        controls = none;
        targets = take 1 operand_indexes;
        params = if_any params;
      }

  abbrev pub measure_operation : ℕ → ℕ → Operation R
  measure_operation qubit operation_index = record {
    id = str_append "op-" (decimal operation_index);
    gate = GateName.m;
    layer = operation_index - 1;
    controls = none;
    targets = qubit ∷ [];
    params = none;
  }

  -- `parseMeasureStatement` of a text that MEASURE_RE matches
  unfoldable pub parse_measure_statement :
      StatementLine
      → RegisterState
      → Option RegisterState
      → ℕ
      → String
      → ℕ
      → String
      → ℕ
      → Parsing (Operation R)
  parse_measure_statement item qubit bit operation_index c_name c_index q_name q_index = do
    require (not (is_other_bit bit c_name c_index)) invalid_operand item
    require (not (is_outside qubit q_name q_index)) invalid_operand item
    done (measure_operation q_index operation_index)

-- `parseGateStatement` of a text that GATE_RE matches
unfoldable pub parse_gate_statement :
    {R : Type 0}
    → Host R
    → StatementLine
    → RegisterState
    → ℕ
    → String
    → Option (List String)
    → List Operand
    → Parsing (Operation R)
unfolding parse_parameter_list resolve_gate parse_operand_index to_operation
parse_gate_statement host item qubit operation_index raw_gate raw_params operands = do
  params ← parse_parameter_list host raw_params item
  resolved ← resolve_gate host raw_gate params item
  require (length resolved.params == resolved.spec.param_count) invalid_parameter item
  require (length operands == resolved.spec.operand_count) invalid_operand item
  operand_indexes ← map_parsing (parse_operand_index qubit item) operands
  done (to_operation resolved.gate resolved.spec resolved.params operand_indexes operation_index)
