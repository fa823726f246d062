-- ===== src/Qasm/Parsed.antt =====
-- What holds of each operation that `parseGateStatement` or `parseMeasureStatement` returns.
use mvp_qcp.Base.{
  ℕ, zero, suc, ◌≡◌, refl, ap, ◌∙◌, ◌<◌, ◌≤◌, true, Option, none, some, List, [], ◌∷◌, ◌++◌, String,
  arith, length, take, drop, length-take, length-drop, take-append-drop, All, All-append,
  All-append_left, All-append_right, or_else, ◌+◌, sym, not, ◌==◌, ==_iff,
}
use mvp_qcp.Gate.{GateName, catalog_item}
use mvp_qcp.Circuit.{Operation, touched_qubits}
use mvp_qcp.Submission.Arity.{HasArity}
use mvp_qcp.Qasm.{Operand, Host, RegisterState, StatementLine}
use mvp_qcp.Qasm.Statements.{
  done, map_parsing, require, is_outside, if_any, parse_operand_index, resolve_gate, to_operation,
  is_other_bit, parse_parameter_list, parse_gate_statement, measure_operation,
  parse_measure_statement,
}
use mvp_qcp.Qasm.Exact.{IsKnown, Exactly, length-Exactly, catalog_spec, Restores-known}
use mvp_qcp.Qasm.Specs.{bind-done, require-done, parse_operands-in_range, resolve_gate-FitsCatalog}

-- `toOperation` of as many parameters and operands as the catalog says.
controls_in : ℕ → List ℕ → Option (List ℕ)
controls_in zero operands = none
controls_in (suc n) operands = some (take (suc n) operands)

controls_in-Exactly :
    (n : ℕ) (operands : List ℕ) → n ≤ length operands → Exactly (controls_in n operands) n
unfolding controls_in
controls_in-Exactly zero operands l = tt
controls_in-Exactly (suc n) operands l = length-take (suc n) operands ∙ omega arith

controls_in-drop :
    (n : ℕ) (operands : List ℕ) → or_else (controls_in n operands) [] ++ drop n operands ≡ operands
unfolding controls_in
controls_in-drop zero operands = refl
controls_in-drop (suc n) operands = take-append-drop (suc n) operands

Exactly-if_any : {A : Type 0} (xs : List A) (n : ℕ) → length xs ≡ n → Exactly (if_any xs) n
Exactly-if_any [] zero e = tt
Exactly-if_any [] (suc n) e = absurd (omega arith)
Exactly-if_any (x ∷ xs) zero e = absurd (omega arith)
Exactly-if_any (x ∷ xs) (suc n) e = e

or_else-if_any : {A : Type 0} (xs : List A) → or_else (if_any xs) [] ≡ xs
or_else-if_any [] = refl
or_else-if_any (x ∷ xs) = refl

-- An operation that was parsed has the shape of its gate and touches only qubits of the register.
abbrev pub FitsRegister : {R : Type 0} → ℕ → Operation R → Type 0
FitsRegister size o = HasArity o × All (λ q. q < size) (touched_qubits o)

pub to_operation-FitsRegister :
    {R : Type 0} (size : ℕ) (gate : GateName) (params : List R) (operands : List ℕ) (k : ℕ)
    → IsKnown gate
    → length params ≡ (catalog_spec gate).param_count
    → length operands ≡ (catalog_spec gate).operand_count
    → All (λ q. q < size) operands
    → FitsRegister size (to_operation gate (catalog_spec gate) params operands (suc k))
to_operation-FitsRegister {R} size gate params operands k known ps os inside =
    let item = catalog_item gate in
    let controls = controls_in item.control_count operands in
    let targets = drop item.control_count operands in
    let parts : or_else controls [] ++ targets ≡ operands =
      controls_in-drop item.control_count operands in
    let targets_count : length targets ≡ item.target_count =
      length-drop item.control_count operands ∙ omega (arith, os) in
    let controls_count = controls_in-Exactly item.control_count operands (omega (arith, os)) in
    let params_count = Exactly-if_any params _ ps in
    let same =
      rw (parts, or_else-if_any params) at
        (Restores-known R gate known targets controls (if_any params) k targets_count controls_count
          params_count) in
    let inside' : All (λ q. q < size) (or_else controls [] ++ targets) = rw parts inside in
    rw same (
      (
        targets_count,
        length-Exactly controls _ controls_count,
        length-Exactly (if_any params) _ params_count,
      ),
      All-append (λ q. q < size) targets (or_else controls [])
          (All-append_right (λ q. q < size) (or_else controls []) targets inside')
          (All-append_left (λ q. q < size) (or_else controls []) targets inside'),
    )

pub add_one : (k : ℕ) → k + 1 ≡ suc k
add_one k = omega arith

pub done-inj : {A : Type 0} {a b : A} → done a ≡ done b → a ≡ b
done-inj e = cc

is_inside :
    (register : RegisterState) (name : String) (index : ℕ)
    → not (is_outside register name index) ≡ true
    → index < register.size
is_inside register name index e = ground arith

module _ {R : Type 0} (host : Host R) where
  pub parse_gate-FitsRegister :
      (item : StatementLine) (qubit : RegisterState) (k : ℕ) (raw : String)
      (raw_params : Option (List String)) (operands : List Operand) {o : Operation R}
      → parse_gate_statement host item qubit (suc k) raw raw_params operands ≡ done o
      → FitsRegister qubit.size o
  unfolding parse_gate_statement
  parse_gate-FitsRegister item qubit k raw raw_params operands {o} e =
      let (params, _, e1) = bind-done (parse_parameter_list host raw_params item) _ e in
      let (r, er, e2) = bind-done (resolve_gate host raw params item) _ e1 in
      let (u, ep, e3) = bind-done (require (length r.params == r.spec.param_count) _ item) _ e2 in
      let (v, eo, e4) = bind-done (require (length operands == r.spec.operand_count) _ item) _ e3 in
      let (qs, eq, e5) = bind-done (map_parsing (parse_operand_index qubit item) operands) _ e4 in
      let (known, fits) = resolve_gate-FitsCatalog host raw params item er in
      let (count, inside) = parse_operands-in_range qubit item operands eq in
      let params_count : length r.params ≡ (catalog_spec r.gate).param_count =
        (==_iff _ _).0 (require-done _ _ item ep) ∙ ap (λ s. s.param_count) fits in
      let operands_count : length qs ≡ (catalog_spec r.gate).operand_count =
        count ∙ ((==_iff _ _).0 (require-done _ _ item eo) ∙ ap (λ s. s.operand_count) fits) in
      let returned : to_operation r.gate (catalog_spec r.gate) r.params qs (suc k) ≡ o =
        ap (λ s. to_operation r.gate s r.params qs (suc k)) (sym fits) ∙ done-inj e5 in
      rw⁻¹ returned (
        to_operation-FitsRegister qubit.size r.gate r.params qs k known params_count operands_count
          inside)

  pub parse_measure-FitsRegister :
      (item : StatementLine) (qubit : RegisterState) (bit : Option RegisterState) (k : ℕ)
      (c_name : String) (c_index : ℕ) (q_name : String) (q_index : ℕ) {o : Operation R}
      → parse_measure_statement item qubit bit k c_name c_index q_name q_index ≡ done o
      → FitsRegister qubit.size o
  unfolding parse_measure_statement catalog_item
  parse_measure-FitsRegister item qubit bit k c_name c_index q_name q_index {o} e =
      let (u, _, e1) = bind-done (require (not (is_other_bit bit c_name c_index)) _ item) _ e in
      let (v, inside, e2) =
        bind-done (require (not (is_outside qubit q_name q_index)) _ item) _ e1 in
      let small : q_index < qubit.size =
        is_inside qubit q_name q_index (require-done _ _ item inside) in
      let returned : measure_operation q_index k ≡ o = done-inj e2 in
      rw⁻¹ returned ((refl, refl, refl), (small, tt))
