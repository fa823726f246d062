-- ===== src/Qasm/Reading.antt =====
-- How the parser reads the line of one standard gate or measurement.
use mathlib.Core.Option
use mvp_qcp.Base.{
  ℕ, zero, suc, ◌≡◌, refl, ◌∙◌, ◌<◌, true, false, Option, none, some, List, [], ◌∷◌, map, arith,
  length-map, All, String, or_else, leb,
}
use mvp_qcp.Gate.{
  GateName, i, x, y, z, h, sx, sy, s, sdg, t, tdg, rx, ry, rz, u, p, cx, cy, ch, cp, cz, ccx, ccz,
  swap, cswap, rxx, ryy, rzz, rzx, m, gate_text, catalog_item,
}
use mvp_qcp.Template.{Added}
use mvp_qcp.Qasm.{Host, RegisterState, StatementLine}
use mvp_qcp.Qasm.Statements.{
  done, map_parsing, parse_operand_index, parse_numeric_expression, parse_parameter_list,
  resolve_gate,
}
use mvp_qcp.Qasm.Serializer.{on}
use mvp_qcp.Qasm.Exact.{IsKnown, Exactly, catalog_spec}

-- What the host is asked for: it leaves the names of the gates, which are in lower case.
abbrev pub KeepsNames : {R : Type 0} → Host R → Type 0
KeepsNames host = (gate : GateName) → host.to_lower_case (gate_text gate) ≡ gate_text gate

-- The text that is printed of a number is read as that number, to the places that are printed.
pub record ReadsBack {R : Type 0} (host : Host R) (rounded : R → R) (value : R) : Type 0 where
  pub allowed : host.is_allowed (host.format_number value) ≡ true
  pub evaluated : host.evaluate (host.format_number value) ≡ some (rounded value)
  pub finite : host.is_finite (rounded value) ≡ true

abbrev pub register : ℕ → RegisterState
register n = record { name = "q"; size = n }

pub parse_operands-on :
    (n : ℕ) (item : StatementLine) (qubits : List ℕ)
    → All (λ q. q < n) qubits
    → map_parsing (parse_operand_index (register n) item) (on qubits) ≡ done qubits
unfolding parse_operand_index
parse_operands-on n item [] tt' = refl
parse_operands-on n item (q ∷ qs) (l, ls) =
    let inside : leb n q ≡ false = ground arith in rw (inside, parse_operands-on n item qs ls) refl

module _ {R : Type 0} (host : Host R) (names : KeepsNames host) where
  pub resolve_gate-known :
      (gate : GateName) (params : List R) (item : StatementLine)
      → IsKnown gate
      → resolve_gate host (gate_text gate) params item
        ≡ done (record { gate = gate; params = params; spec = catalog_spec gate })
  unfolding resolve_gate gate_text catalog_item
  resolve_gate-known i params item _ = rw (names i) refl
  resolve_gate-known x params item _ = rw (names x) refl
  resolve_gate-known y params item _ = rw (names y) refl
  resolve_gate-known z params item _ = rw (names z) refl
  resolve_gate-known h params item _ = rw (names h) refl
  resolve_gate-known sx params item _ = rw (names sx) refl
  resolve_gate-known s params item _ = rw (names s) refl
  resolve_gate-known sdg params item _ = rw (names sdg) refl
  resolve_gate-known t params item _ = rw (names t) refl
  resolve_gate-known tdg params item _ = rw (names tdg) refl
  resolve_gate-known rx params item _ = rw (names rx) refl
  resolve_gate-known ry params item _ = rw (names ry) refl
  resolve_gate-known rz params item _ = rw (names rz) refl
  resolve_gate-known u params item _ = rw (names u) refl
  resolve_gate-known p params item _ = rw (names p) refl
  resolve_gate-known cx params item _ = rw (names cx) refl
  resolve_gate-known cy params item _ = rw (names cy) refl
  resolve_gate-known ch params item _ = rw (names ch) refl
  resolve_gate-known cp params item _ = rw (names cp) refl
  resolve_gate-known cz params item _ = rw (names cz) refl
  resolve_gate-known ccx params item _ = rw (names ccx) refl
  resolve_gate-known swap params item _ = rw (names swap) refl
  resolve_gate-known cswap params item _ = rw (names cswap) refl
  resolve_gate-known sy params item e = absurd e
  resolve_gate-known ccz params item e = absurd e
  resolve_gate-known rxx params item e = absurd e
  resolve_gate-known ryy params item e = absurd e
  resolve_gate-known rzz params item e = absurd e
  resolve_gate-known rzx params item e = absurd e
  resolve_gate-known m params item e = absurd e

-- The operation with the numbers that its parameters are read as.
abbrev pub read_back : {R : Type 0} → (R → R) → Added R → Added R
read_back rounded a = record a { params = Option.map (map rounded) a.params }

pub Exactly-map :
    {A B : Type 0} (f : A → B) (xs : Option (List A)) (n : ℕ)
    → Exactly xs n
    → Exactly (Option.map (map f) xs) n
Exactly-map f none zero e = tt
Exactly-map f none (suc n) e = absurd e
Exactly-map f (some xs) zero e = absurd e
Exactly-map f (some xs) (suc n) e = length-map f xs ∙ e

module _ {R : Type 0} (host : Host R) where
  abbrev pub texts : Option (List R) → Option (List String)
  texts none = none
  texts (some params) = some (map host.format_number params)

  module _ (rounded : R → R) where
    parse_numbers :
        (item : StatementLine) (values : List R)
        → All (ReadsBack host rounded) values
        → map_parsing (parse_numeric_expression host item) (map host.format_number values)
          ≡ done (map rounded values)
    unfolding parse_numeric_expression
    parse_numbers item [] tt' = refl
    parse_numbers item (v ∷ vs) (r, rs) =
        rw (r.allowed, r.evaluated, r.finite, parse_numbers item vs rs) refl

    pub parse_parameter_list-texts :
        (item : StatementLine) (params : Option (List R))
        → All (ReadsBack host rounded) (or_else params [])
        → parse_parameter_list host (texts params) item
          ≡ done (or_else (Option.map (map rounded) params) [])
    unfolding parse_parameter_list
    parse_parameter_list-texts item none r = refl
    parse_parameter_list-texts item (some params) r = parse_numbers item params r
