-- ===== src/Qasm/Parser.antt =====
-- frontend/src/features/circuit/qasm/qasm-parser.ts.
use mvp_qcp.Base.{
  ◌+◌, Bool, true, false, not, Option, none, some, List, [], ◌∷◌, ◌++◌, String, str_eq,
  if◌then◌else◌, length,
}
use mvp_qcp.Circuit.{Operation, CircuitModel, Collation}
use mvp_qcp.Circuit.Validation.{
  CircuitValidationError, invalid_multi_qubit_operation, cell_conflict, non_terminal_measurement,
  validate_circuit_model,
}
use mvp_qcp.Qasm.{
  missing_header, missing_declaration, invalid_syntax, invalid_circuit, unsupported_statement,
  QasmParseError, create_qasm_parse_error, Statement, header, include, qubit_declaration,
  bit_declaration, measurement, application, other_statement, StatementLine, RegisterState, Host,
}
use mvp_qcp.Qasm.Statements.{
  Parsing, ◌>>=◌, throw_at, parse_measure_statement, parse_gate_statement, raise, done, parse_error,
  host_error,
}

-- The variables of `parseStatements`; the map from ids to statements is a list of pairs, the oldest
-- first, since the ids that are set are all different.
pub record ParserState (R : Type 0) : Type 0 where
  pub has_header : Bool
  pub qubit : Option RegisterState
  pub bit : Option RegisterState
  pub operations : List (Operation R)
  pub lines_by_operation_id : List (String × StatementLine)

abbrev pub initial_parser_state : {R : Type 0} → ParserState R
initial_parser_state = record {
  has_header = false;
  qubit = none;
  bit = none;
  operations = [];
  lines_by_operation_id = [];
}

abbrev pub source_of : String → List (String × StatementLine) → Option StatementLine
source_of id [] = none
source_of id ((key, item) ∷ rest) = if str_eq key id then some item else source_of id rest

abbrev pub operation_id_of : CircuitValidationError → String
operation_id_of (invalid_multi_qubit_operation id) = id
operation_id_of (cell_conflict layer qubit id) = id
operation_id_of (non_terminal_measurement id) = id

-- The id of an error of the validation is one of an operation that was parsed, so not empty.
unfoldable pub to_invalid_circuit_error :
    List (String × StatementLine) → CircuitValidationError → QasmParseError
to_invalid_circuit_error sources e = elim (source_of (operation_id_of e) sources) [
  | none ↦ create_qasm_parse_error invalid_circuit 1 ""
  | some item ↦ create_qasm_parse_error invalid_circuit item.line item.excerpt
]

unfoldable pub ensure_header_and_qubit :
    Bool → Option RegisterState → StatementLine → Parsing RegisterState
ensure_header_and_qubit false qubit item = throw_at missing_header item
ensure_header_and_qubit true none item = throw_at missing_declaration item
ensure_header_and_qubit true (some qubit) item = done qubit

abbrev pub push_operation :
    {R : Type 0} → ParserState R → StatementLine → Operation R → ParserState R
push_operation state item operation = record state {
  operations = state.operations ++ operation ∷ [];
  lines_by_operation_id = state.lines_by_operation_id ++ (operation.id, item) ∷ [];
}

module _ {R : Type 0} (host : Host R) where
  -- One round of the loop of `parseStatements`, by what the statement is.
  unfoldable pub parse_item : ParserState R → StatementLine → Statement → Parsing (ParserState R)
  unfolding ensure_header_and_qubit parse_measure_statement parse_gate_statement
  parse_item state item header = done (record state { has_header = true })
  parse_item state item include = done state
  parse_item state item (qubit_declaration size name) =
      done (record state { qubit = some (record { name = name; size = size }) })
  parse_item state item (bit_declaration size name) =
      done (record state { bit = some (record { name = name; size = size }) })
  parse_item state item (measurement c_name c_index q_name q_index) = do
    qubit ← ensure_header_and_qubit state.has_header state.qubit item
    operation ←
        parse_measure_statement item qubit state.bit (length state.operations + 1) c_name c_index
          q_name q_index
    done (push_operation state item operation)
  parse_item state item (application raw_gate raw_params operands) = do
    qubit ← ensure_header_and_qubit state.has_header state.qubit item
    operation ←
        parse_gate_statement host item qubit (length state.operations + 1) raw_gate raw_params
          operands
    done (push_operation state item operation)
  parse_item state item other_statement = do
    qubit ← ensure_header_and_qubit state.has_header state.qubit item
    throw_at unsupported_statement item

  unfoldable pub parse_items : ParserState R → List StatementLine → Parsing (ParserState R)
  unfolding parse_item
  parse_items state [] = done state
  parse_items state (item ∷ items) = do
    next ← parse_item state item item.statement
    parse_items next items

-- What follows the loop.
unfoldable pub finish : ⦃c : Collation⦄ {R : Type 0} → ParserState R → Parsing (CircuitModel R)
unfolding validate_circuit_model to_invalid_circuit_error
finish state =
    if not state.has_header
    then raise (parse_error (create_qasm_parse_error missing_header 1 ""))
    else elim state.qubit [
      | none ↦ raise (parse_error (create_qasm_parse_error missing_declaration 1 ""))
      | some qubit ↦
          let model : CircuitModel _ = record {
            num_qubits = qubit.size;
            operations = state.operations;
          } in
          elim (validate_circuit_model model) [
            | none ↦ done model
            | some e ↦ raise (parse_error (to_invalid_circuit_error state.lines_by_operation_id e))
          ]
    ]

unfoldable pub parse_statements :
    ⦃c : Collation⦄ {R : Type 0} → Host R → List StatementLine → Parsing (CircuitModel R)
unfolding parse_items finish
parse_statements host items = parse_items host initial_parser_state items >>= finish

pub data ParseQasmResult (R : Type 0) : Type 0 where
  success : CircuitModel R → ParseQasmResult R
  failure : QasmParseError → ParseQasmResult R

-- The `catch` of `parseQasm3`; the excerpt of an error that is not the parser's is that error's text,
-- which is left out.
unfoldable pub parse_qasm3 :
    ⦃c : Collation⦄ {R : Type 0} → Host R → List StatementLine → ParseQasmResult R
unfolding parse_statements
parse_qasm3 host items = elim (parse_statements host items) [
  | done model ↦ success model
  | raise (parse_error e) ↦ failure e
  | raise host_error ↦ failure (create_qasm_parse_error invalid_syntax 1 "")
]
