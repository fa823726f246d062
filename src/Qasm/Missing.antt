-- ===== src/Qasm/Missing.antt =====
-- Which error `parseStatements` throws of a text without a header or without a register of qubits.
use mvp_qcp.Base.{
  ℕ, ◌≡◌, refl, Bool, true, false, ◌&&◌, ◌||◌, Option, none, some, List, [], ◌∷◌, ◌++◌, String,
  arith, any, All, if◌then◌else◌,
}
use mvp_qcp.Circuit.{Collation}
use mvp_qcp.Qasm.{
  Statement, header, include, qubit_declaration, bit_declaration, measurement, application,
  other_statement, Host, RegisterState, StatementLine, missing_header, missing_declaration,
  create_qasm_parse_error, QasmParseError,
}
use mvp_qcp.Qasm.Statements.{raise, done, parse_error, ◌>>=◌}
use mvp_qcp.Qasm.Parser.{
  ParserState, initial_parser_state, ensure_header_and_qubit, parse_item, parse_items, finish,
  parse_statements, failure, parse_qasm3,
}

-- The header, an include or a declaration, which no other statement has to stand before.
abbrev pub is_preamble : Statement → Bool
is_preamble header = true
is_preamble include = true
is_preamble (qubit_declaration size name) = true
is_preamble (bit_declaration size name) = true
is_preamble _ = false

abbrev pub is_header : Statement → Bool
is_header header = true
is_header _ = false

abbrev pub is_qubit_declaration : Statement → Bool
is_qubit_declaration (qubit_declaration size name) = true
is_qubit_declaration _ = false

abbrev pub some_statement : (Statement → Bool) → List StatementLine → Bool
some_statement test items = any (λ item. test item.statement) items

-- Where the error is reported: at the first statement that needs a header and a register, or at the
-- beginning.
abbrev pub error_line : List StatementLine → ℕ
error_line [] = 1
error_line (item ∷ items) = item.line

abbrev pub error_excerpt : List StatementLine → String
error_excerpt [] = ""
error_excerpt (item ∷ items) = item.excerpt

abbrev pub UsesFirst : List StatementLine → Type 0
UsesFirst [] = Unit
UsesFirst (item ∷ items) = is_preamble item.statement ≡ false

abbrev is_some : Option RegisterState → Bool
is_some none = false
is_some (some r) = true

abbrev missing_error : Bool → List StatementLine → QasmParseError
missing_error declared_header rest =
    create_qasm_parse_error (if declared_header then missing_declaration else missing_header)
      (error_line rest) (error_excerpt rest)

ensure-missing :
    (h : Bool) (qubit : Option RegisterState) (item : StatementLine) (items : List StatementLine)
    → (h && is_some qubit) ≡ false
    → ensure_header_and_qubit h qubit item ≡ raise (parse_error (missing_error h (item ∷ items)))
unfolding ensure_header_and_qubit
ensure-missing false qubit item items e = refl
ensure-missing true none item items e = refl
ensure-missing true (some r) item items e = cc

module _ {R : Type 0} (host : Host R) where
  -- A statement of the preamble is read, whatever the state.
  preamble-item :
      (state : ParserState R) (item : StatementLine) (st : Statement)
      → is_preamble st ≡ true
      → (next : ParserState R) × (parse_item host state item st ≡ done next)
        × (next.has_header ≡ (is_header st || state.has_header))
        × (is_some next.qubit ≡ (is_qubit_declaration st || is_some state.qubit))
  unfolding parse_item
  preamble-item state item header e = (_, refl, refl, refl)
  preamble-item state item include e = (_, refl, refl, refl)
  preamble-item state item (qubit_declaration size name) e = (_, refl, refl, refl)
  preamble-item state item (bit_declaration size name) e = (_, refl, refl, refl)
  preamble-item state item (measurement c i q j) e = cc
  preamble-item state item (application raw ps os) e = cc
  preamble-item state item other_statement e = cc

  preamble-items :
      (state : ParserState R) (before rest : List StatementLine)
      → All (λ item. is_preamble item.statement ≡ true) before
      → (next : ParserState R) × (parse_items host state (before ++ rest)
          ≡ parse_items host next rest)
        × (next.has_header ≡ (some_statement is_header before || state.has_header))
        × (is_some next.qubit ≡ (some_statement is_qubit_declaration before || is_some state.qubit))
  unfolding parse_items
  preamble-items state [] rest e = (state, refl, refl, refl)
  preamble-items state (item ∷ before) rest (e, es) =
      let (mid, read, h1, q1) = preamble-item state item item.statement e in
      let (next, run, h2, q2) = preamble-items mid before rest es in
      (next, rw read run, ground (arith, h1, h2), ground (arith, q1, q2))

  use-item :
      (state : ParserState R) (item : StatementLine) (items : List StatementLine) (st : Statement)
      → is_preamble st ≡ false
      → (state.has_header && is_some state.qubit) ≡ false
      → parse_item host state item st
        ≡ raise (parse_error (missing_error state.has_header (item ∷ items)))
  unfolding parse_item
  use-item state item items (measurement c i q j) e n =
      rw (ensure-missing state.has_header state.qubit item items n) refl
  use-item state item items (application raw ps os) e n =
      rw (ensure-missing state.has_header state.qubit item items n) refl
  use-item state item items other_statement e n =
      rw (ensure-missing state.has_header state.qubit item items n) refl
  use-item state item items header e n = cc
  use-item state item items include e n = cc
  use-item state item items (qubit_declaration size name) e n = cc
  use-item state item items (bit_declaration size name) e n = cc

  finish-missing :
      ⦃c : Collation⦄ (h : Bool) (state : ParserState R) (qubit : Option RegisterState)
      → state.has_header ≡ h
      → state.qubit ≡ qubit
      → (h && is_some qubit) ≡ false
      → finish state ≡ raise (parse_error (missing_error h []))
  unfolding finish
  finish-missing false state qubit eh eq n = rw (eh, finish) refl
  finish-missing true state none eh eq n = rw (eh, eq, finish) refl
  finish-missing true state (some r) eh eq n = cc

  rest-missing :
      ⦃c : Collation⦄ (state : ParserState R) (rest : List StatementLine)
      → UsesFirst rest
      → (state.has_header && is_some state.qubit) ≡ false
      → (parse_items host state rest >>= finish)
        ≡ raise (parse_error (missing_error state.has_header rest))
  unfolding parse_items
  rest-missing state [] u n = finish-missing state.has_header state state.qubit refl refl n
  rest-missing state (item ∷ items) u n = rw (use-item state item items item.statement u n) refl

  -- Where the statements before the first measurement, gate or unknown statement, or all statements
  -- of a text that has none of these, do not hold both the header and a register of qubits, the text
  -- is refused whatever follows: with MISSING_HEADER where the header is missing and otherwise with
  -- MISSING_DECLARATION, at the line of that first statement, or at line 1 where there is none.
  pub parse_qasm3-missing :
      ⦃c : Collation⦄ (before rest : List StatementLine)
      → All (λ item. is_preamble item.statement ≡ true) before
      → UsesFirst rest
      → (some_statement is_header before && some_statement is_qubit_declaration before) ≡ false
      → parse_qasm3 host (before ++ rest)
        ≡ failure (
            create_qasm_parse_error
              (if some_statement is_header before then missing_declaration else missing_header)
              (error_line rest)
              (error_excerpt rest))
  unfolding parse_qasm3 parse_statements
  parse_qasm3-missing before rest e u n =
      let (next, run, h, q) = preamble-items initial_parser_state before rest e in
      let header_is : next.has_header ≡ some_statement is_header before = ground (arith, h) in
      let missing : (next.has_header && is_some next.qubit) ≡ false = ground (arith, h, q, n) in
      let thrown = rw header_is at (rest-missing next rest u missing) in
      rw (run, thrown, parse_qasm3, parse_statements) refl
