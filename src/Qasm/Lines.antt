-- ===== src/Qasm/Lines.antt =====
-- How the loop of `parseStatements` reads the lines of standard gates and measurements.
use mathlib.Core.Option
use mvp_qcp.Base.{
  ℕ, suc, ◌+◌, ◌-◌, ◌≡◌, refl, ap, ◌∙◌, ◌<◌, true, false, inl, inr, ◌⊎◌, Option, none, some, List,
  [], ◌∷◌, ◌++◌, map, arith, length, length-append, length-map, All, String, or_else, ◌==◌, ==_iff,
  leb,
}
use mvp_qcp.Gate.{GateName, gate_text, catalog_item}
use mvp_qcp.Circuit.{Operation}
use mvp_qcp.Circuit.Validation.{is_measurement}
use mvp_qcp.Circuit.Validation.Distinct.{AllDistinct}
use mvp_qcp.Template.{Added, numbered}
use mvp_qcp.Qasm.{Host, StatementLine}
use mvp_qcp.Qasm.Statements.{done, parse_gate_statement, measure_operation, parse_measure_statement}
use mvp_qcp.Qasm.Parser.{ParserState, push_operation, ensure_header_and_qubit, parse_item}
use mvp_qcp.Qasm.Serializer.{on}
use mvp_qcp.Qasm.Standard.{line_of}
use mvp_qcp.Qasm.Exact.{IsKnown, Exactly, length-Exactly, Restores-known}
use mvp_qcp.Qasm.Reading.{
  KeepsNames, ReadsBack, register, parse_operands-on, resolve_gate-known, read_back, texts,
  parse_parameter_list-texts, Exactly-map,
}

-- The fields of a measurement.
measurement-fields :
    {R : Type 0} (gate : GateName) (targets : List ℕ) (controls : Option (List ℕ))
    (params : Option (List R))
    → is_measurement gate ≡ true
    → length targets ≡ (catalog_item gate).target_count
    → Exactly controls (catalog_item gate).control_count
    → Exactly params (length (catalog_item gate).parameter_labels)
    → (gate ≡ GateName.m) × (t : ℕ) × (targets ≡ t ∷ []) × (controls ≡ none) × (params ≡ none)
unfolding catalog_item
measurement-fields GateName.m (t ∷ []) none none e one c p = (refl, t, refl, refl, refl)
measurement-fields GateName.m [] cs ps e one c p = absurd (omega arith)
measurement-fields GateName.m (t ∷ q ∷ qs) cs ps e one c p = absurd (omega arith)
measurement-fields GateName.m (t ∷ []) (some cs) ps e one c p = absurd c
measurement-fields GateName.m (t ∷ []) none (some ps) e one c p = absurd p
measurement-fields _ ts cs ps e one c p = cc

known-measurement : (gate : GateName) → IsKnown gate → is_measurement gate ≡ false
known-measurement GateName.m e = absurd e
known-measurement _ e = refl

pred-suc : (k : ℕ) → suc k - 1 ≡ k
pred-suc k = omega arith

add_one : (k : ℕ) → k + 1 ≡ suc k
add_one k = omega arith

module _ {R : Type 0} where
  -- The state in which the lines of the operations are read.
  abbrev pub reading : ℕ → List (Operation R) → List (String × StatementLine) → ParserState R
  reading n operations sources = record {
    has_header = true;
    qubit = some (register n);
    bit = some (record { name = "c"; size = n });
    operations = operations;
    lines_by_operation_id = sources;
  }

  -- The operation that the line of a is read as, after k others.
  abbrev pub reread : (R → R) → ℕ → Added R → Operation R
  reread rounded k a = numbered "op-" (suc k) k (read_back rounded a)

module _ {R : Type 0} (host : Host R) (rounded : R → R) where
  -- A standard gate or measurement on n qubits whose line can be read.
  pub record IsReadable (n : ℕ) (a : Added R) : Type 0 where
    pub known : (is_measurement a.gate ≡ true) ⊎ IsKnown a.gate
    pub targets_count : length a.targets ≡ (catalog_item a.gate).target_count
    pub controls_count : Exactly a.controls (catalog_item a.gate).control_count
    pub params_count : Exactly a.params (length (catalog_item a.gate).parameter_labels)
    pub in_range : All (λ q. q < n) (or_else a.controls [] ++ a.targets)
    pub reads : All (ReadsBack host rounded) (or_else a.params [])
    pub distinct : AllDistinct (a.targets ++ or_else a.controls [])

  module _ (names : KeepsNames host) (n : ℕ) where
    parse_gate-reads :
        (a : Added R) (item : StatementLine) (k : ℕ)
        → IsKnown a.gate
        → IsReadable n a
        → parse_gate_statement host item
            (register n)
            (suc k)
            (gate_text a.gate)
            (texts host a.params)
            (on (or_else a.controls [] ++ a.targets))
          ≡ done (numbered "op-" (suc k) k (read_back rounded a))
    unfolding parse_gate_statement catalog_item
    parse_gate-reads a item k known r =
        let values = or_else (Option.map (map rounded) a.params) [] in
        let operands = or_else a.controls [] ++ a.targets in
        let params_ok : (length values == length (catalog_item a.gate).parameter_labels) ≡ true =
          (==_iff _ _).1 (length-Exactly _ _ (Exactly-map rounded a.params _ r.params_count)) in
        let controls_length = length-Exactly _ _ r.controls_count in
        let operands_length : length (on operands)
            ≡ (catalog_item a.gate).control_count + (catalog_item a.gate).target_count =
          length-map _ operands
          ∙ omega (
            arith,
            length-append (or_else a.controls []) a.targets,
            controls_length,
            r.targets_count,
          ) in
        let operands_ok : (length (on operands)
              == ((catalog_item a.gate).control_count + (catalog_item a.gate).target_count))
            ≡ true =
          (==_iff _ _).1 operands_length in
        rw
          (
            parse_parameter_list-texts host rounded item a.params r.reads,
            resolve_gate-known host names a.gate values item known,
            params_ok,
            operands_ok,
            parse_operands-on n item operands r.in_range,
          )
          (ap done (
            Restores-known R a.gate known a.targets a.controls (Option.map (map rounded) a.params) k
              r.targets_count r.controls_count (Exactly-map rounded a.params _ r.params_count)))

    measure-reads :
        (t k : ℕ) (item : StatementLine)
        → t < n
        → parse_measure_statement item
            (register n)
            (some (record { name = "c"; size = n }))
            (suc k)
            "c"
            t
            "q"
            t
          ≡ done (measure_operation {R = R} t (suc k))
    unfolding parse_measure_statement
    measure-reads t k item l = let inside : leb n t ≡ false = ground arith in rw inside refl

    pub item-reads :
        (a : Added R) (item : StatementLine) (ops : List (Operation R))
        (sources : List (String × StatementLine))
        → IsReadable n a
        → parse_item host (reading n ops sources) item (line_of host a)
          ≡ done (push_operation (reading n ops sources) item (reread rounded (length ops) a))
    unfolding parse_item ensure_header_and_qubit
    item-reads a item ops sources r = elim r.known [
      | inr known ↦
          rw
            (
              known-measurement a.gate known,
              add_one (length ops),
              parse_gate-reads a item (length ops) known r,
            )
            refl
      | inl measured ↦
          let (eg, t, et, ec, ep) =
            measurement-fields a.gate a.targets a.controls a.params measured r.targets_count
              r.controls_count r.params_count in
          let l : All (λ q. q < n) (t ∷ []) = rw (ec, et) at r.in_range in
          rw
            (
              eg,
              et,
              ec,
              ep,
              add_one (length ops),
              measure-reads t (length ops) item l.0,
              pred-suc (length ops),
            )
            refl
    ]
