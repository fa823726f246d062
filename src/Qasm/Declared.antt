-- ===== src/Qasm/Declared.antt =====
-- What the statements before the end of a text leave of the registers and the operations.
use mvp_qcp.Base.{
  ℕ, ◌+◌, ◌≡◌, refl, ap, ◌∙◌, sym, Bool, true, false, Bool-cases, Option-cases, inl, inr, Option,
  none, some, List, [], ◌∷◌, length, All, All-of_forall, ◌⊎◌, All-append,
}
use mvp_qcp.Circuit.{Operation, CircuitModel, Collation}
use mvp_qcp.Circuit.Validation.{validate_circuit_model}
use mvp_qcp.Qasm.{
  Statement, header, include, qubit_declaration, bit_declaration, measurement, application,
  other_statement, Host, RegisterState, StatementLine, QasmParseError, unsupported_statement,
}
use mvp_qcp.Qasm.Statements.{
  Parsing, done, raise, parse_error, host_error, throw_at, parse_gate_statement,
  parse_measure_statement,
}
use mvp_qcp.Qasm.Parser.{
  ParserState, initial_parser_state, push_operation, ensure_header_and_qubit, parse_item,
  parse_items, finish, parse_statements, success, failure, parse_qasm3,
}
use mvp_qcp.Qasm.Parsed.{
  FitsRegister, done-inj, add_one, parse_gate-FitsRegister, parse_measure-FitsRegister,
}
use mvp_qcp.Qasm.Specs.{bind-done}

ensure-done :
    (has_header : Bool) (qubit : Option RegisterState) (item : StatementLine) {q : RegisterState}
    → ensure_header_and_qubit has_header qubit item ≡ done q
    → (has_header ≡ true) × (qubit ≡ some q)
unfolding ensure_header_and_qubit
ensure-done false qubit item e = cc
ensure-done true none item e = cc
ensure-done true (some r) item {q} e = (refl, ap some (done-inj e))

success-inj : {R : Type 0} {m m' : CircuitModel R} → success m ≡ success m' → m ≡ m'
success-inj e = cc

Parsing-cases :
    {A : Type 0} (r : Parsing A)
    → ((a : A) × (r ≡ done a))
      ⊎ (((x : QasmParseError) × (r ≡ raise (parse_error x))) ⊎ (r ≡ raise host_error))
Parsing-cases (done a) = inl (a, refl)
Parsing-cases (raise (parse_error x)) = inr (inl (x, refl))
Parsing-cases (raise host_error) = inr (inr refl)

-- A register that the statement declares has a size of which B holds.
abbrev pub Declares : (ℕ → Type 0) → Statement → Type 0
Declares B (qubit_declaration size name) = B size
Declares B _ = Unit

abbrev OfSize : (ℕ → Type 0) → Option RegisterState → Type 0
OfSize B none = Unit
OfSize B (some r) = B r.size

pub anything_declared :
    (items : List StatementLine) → All (λ item. Declares (λ n. Unit {0}) item.statement) items
anything_declared items = All-of_forall _ (λ item. declared item.statement) items
  where
    declared : (st : Statement) → Declares (λ n. Unit {0}) st
    declared (qubit_declaration size name) = tt
    declared (bit_declaration size name) = tt
    declared header = tt
    declared include = tt
    declared (measurement c i q j) = tt
    declared (application raw ps os) = tt
    declared other_statement = tt

module _ {R : Type 0} (host : Host R) (B : ℕ → Type 0) where
  -- The operation fits a register of a size of which B holds.
  abbrev pub Fits : Operation R → Type 0
  Fits o = (size : ℕ) × B size × FitsRegister size o

  record IsGood (state : ParserState R) : Type 0 where
    register : OfSize B state.qubit
    all_fit : All Fits state.operations

  push-IsGood :
      (state : ParserState R) (item : StatementLine) (qubit : RegisterState) (o : Operation R)
      → IsGood state
      → state.qubit ≡ some qubit
      → FitsRegister qubit.size o
      → IsGood (push_operation state item o)
  push-IsGood state item qubit o g e f =
      let size : B qubit.size = rw e at g.register in
      record {
        register = g.register;
        all_fit = All-append Fits state.operations (o ∷ []) g.all_fit ((qubit.size, size, f), tt);
      }

  parse_item-IsGood :
      (state : ParserState R) (item : StatementLine) (st : Statement) {next : ParserState R}
      → parse_item host state item st ≡ done next
      → Declares B st
      → IsGood state
      → IsGood next
  unfolding parse_item
  parse_item-IsGood state item header e d g =
      rw⁻¹ (done-inj e) (record { register = g.register; all_fit = g.all_fit })
  parse_item-IsGood state item include e d g = rw⁻¹ (done-inj e) g
  parse_item-IsGood state item (qubit_declaration size name) e d g =
      rw⁻¹ (done-inj e) (record { register = d; all_fit = g.all_fit })
  parse_item-IsGood state item (bit_declaration size name) e d g =
      rw⁻¹ (done-inj e) (record { register = g.register; all_fit = g.all_fit })
  parse_item-IsGood state item (measurement c i q j) e d g =
      let (qubit, eq, e1) =
        bind-done (ensure_header_and_qubit state.has_header state.qubit item) _ e in
      let (o, eo, e2) =
        bind-done
          (parse_measure_statement item qubit state.bit (length state.operations + 1) c i q j) _
          e1 in
      let declared = (ensure-done state.has_header state.qubit item eq).1 in
      rw⁻¹ (done-inj e2) (
        push-IsGood state item qubit o g declared
          (parse_measure-FitsRegister host item qubit state.bit _ c i q j eo))
  parse_item-IsGood state item (application raw ps os) e d g =
      let (qubit, eq, e1) =
        bind-done (ensure_header_and_qubit state.has_header state.qubit item) _ e in
      let (o, eo, e2) =
        bind-done (parse_gate_statement host item qubit (length state.operations + 1) raw ps os) _
          e1 in
      let declared = (ensure-done state.has_header state.qubit item eq).1 in
      let eo' = rw (add_one (length state.operations)) at eo in
      rw⁻¹ (done-inj e2) (
        push-IsGood state item qubit o g declared
          (parse_gate-FitsRegister host item qubit (length state.operations) raw ps os eo'))
  parse_item-IsGood state item other_statement {next} e d g =
      let (qubit, _, thrown) =
        bind-done (ensure_header_and_qubit state.has_header state.qubit item)
          (λ _. throw_at unsupported_statement item) {b = next} e in
      let clash : throw_at unsupported_statement item ≡ done next = thrown in cc

  parse_items-IsGood :
      (state : ParserState R) (items : List StatementLine) {last : ParserState R}
      → parse_items host state items ≡ done last
      → All (λ item. Declares B item.statement) items
      → IsGood state
      → IsGood last
  unfolding parse_items
  parse_items-IsGood state [] e d g = rw⁻¹ (done-inj e) g
  parse_items-IsGood state (item ∷ items) e (d, ds) g =
      let (next, en, e') = bind-done (parse_item host state item item.statement) _ e in
      parse_items-IsGood next items e' ds (parse_item-IsGood state item item.statement en d g)

  finish-done :
      ⦃c : Collation⦄ (state : ParserState R) {m : CircuitModel R}
      → finish state ≡ done m
      → (qubit : RegisterState) × (state.qubit ≡ some qubit)
        × (m ≡ record { num_qubits = qubit.size; operations = state.operations })
        × (validate_circuit_model m ≡ none)
  unfolding finish
  finish-done state {m} e = elim (Bool-cases state.has_header) [
    | inr no_header ↦ let thrown : raise _ ≡ done m = rw (no_header, finish) at e in cc
    | inl header' ↦ elim (Option-cases state.qubit) [
      | inl no_qubit ↦ let thrown : raise _ ≡ done m = rw (header', no_qubit, finish) at e in cc
      | inr (qubit, declared) ↦
          let model : CircuitModel R = record {
            num_qubits = qubit.size;
            operations = state.operations;
          } in
          elim (Option-cases (validate_circuit_model model)) [
            | inr (x, refused) ↦
                let thrown : raise _ ≡ done m = rw (header', declared, refused, finish) at e in cc
            | inl accepted ↦
                let returned : done model ≡ done m =
                  rw (header', declared, accepted, finish) at e in
                let same : model ≡ m = done-inj returned in
                (qubit, declared, sym same, rw⁻¹ same accepted)
          ]
    ]
  ]

  success-done :
      ⦃c : Collation⦄ (items : List StatementLine) {m : CircuitModel R}
      → parse_qasm3 host items ≡ success m
      → parse_statements host items ≡ done m
  unfolding parse_qasm3
  success-done items {m} e = elim (Parsing-cases (parse_statements host items)) [
    | inl (model, returned) ↦
        let same : success model ≡ success m = rw (returned, parse_qasm3) at e in
        returned ∙ ap done (success-inj same)
    | inr (inl (x, thrown)) ↦
        let failed : failure x ≡ success m = rw (thrown, parse_qasm3) at e in cc
    | inr (inr thrown) ↦ let failed : failure _ ≡ success m = rw (thrown, parse_qasm3) at e in cc
  ]

  pub parsed :
      ⦃c : Collation⦄ (items : List StatementLine) {m : CircuitModel R}
      → All (λ item. Declares B item.statement) items
      → parse_qasm3 host items ≡ success m
      → B m.num_qubits × All Fits m.operations × (validate_circuit_model m ≡ none)
  unfolding parse_statements
  parsed items {m} d e =
      let (last, el, ef) =
        bind-done (parse_items host initial_parser_state items) _ (success-done items e) in
      let g : IsGood last =
        parse_items-IsGood initial_parser_state items el d
          (record { register = tt; all_fit = tt }) in
      let (qubit, declared, same, accepted) = finish-done last ef in
      let size : B qubit.size = rw declared at g.register in
      (rw same size, rw same g.all_fit, accepted)
