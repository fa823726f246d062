-- ===== src/Qasm/Specs.antt =====
-- What the steps of `parseGateStatement` ensure where they return.
use mvp_qcp.Base.{
  ℕ, suc, ◌≡◌, refl, ap, ◌<◌, Bool, true, false, Bool-cases, Option-cases, inl, inr, some, List, [],
  ◌∷◌, String, str_eq, arith, length, All,
}
use mvp_qcp.Gate.{GateName, catalog_item}
use mvp_qcp.Qasm.{
  Operand, element, other_operand, GateSpec, Host, RegisterState, StatementLine, gate_specs,
  spec_named, QasmParseErrorCode,
}
use mvp_qcp.Qasm.Statements.{
  Parsing, done, raise, ◌>>=◌, throw_at, map_parsing, require, is_outside, Resolved,
  to_alias_gate_spec, parse_operand_index, resolve_gate,
}
use mvp_qcp.Qasm.Exact.{IsKnown, catalog_spec}

-- A sequence returns where its parts do.
pub bind-done :
    {A B : Type 0} (r : Parsing A) (f : A → Parsing B) {b : B}
    → (r >>= f) ≡ done b
    → (a : A) × (r ≡ done a) × (f a ≡ done b)
bind-done (done a) f e = (a, refl, e)
bind-done (raise x) f e = cc

pub require-done :
    (b : Bool) (error_code : QasmParseErrorCode) (item : StatementLine) {u : Unit {0}}
    → require b error_code item ≡ done u
    → b ≡ true
require-done true error_code item e = refl
require-done false error_code item e = cc

parse_operand-in_range :
    (qubit : RegisterState) (item : StatementLine) (operand : Operand) {q : ℕ}
    → parse_operand_index qubit item operand ≡ done q
    → q < qubit.size
unfolding parse_operand_index
parse_operand-in_range qubit item other_operand e = cc
parse_operand-in_range qubit item (element name index) {q} e =
    elim (Bool-cases (is_outside qubit name index)) [
      | inl out ↦ let e' : throw_at _ item ≡ done q = rw out at e in cc
      | inr inside ↦
          let e' : done index ≡ done q = rw inside at e in
          let same : index ≡ q = cc in
          let smaller : q < qubit.size = ground (arith, same) in smaller
    ]

pub parse_operands-in_range :
    (qubit : RegisterState) (item : StatementLine) (operands : List Operand) {qs : List ℕ}
    → map_parsing (parse_operand_index qubit item) operands ≡ done qs
    → (length qs ≡ length operands) × All (λ q. q < qubit.size) qs
parse_operands-in_range qubit item [] {qs} e = let same : [] ≡ qs = cc in rw⁻¹ same (refl, tt)
parse_operands-in_range qubit item (o ∷ os) {qs} e =
    let (q, eq, e') = bind-done (parse_operand_index qubit item o) _ e in
    let (rest, er, e'') = bind-done (map_parsing (parse_operand_index qubit item) os) _ e' in
    let (l, a) = parse_operands-in_range qubit item os er in
    let same : q ∷ rest ≡ qs = cc in
    rw⁻¹ same (ap suc l, (parse_operand-in_range qubit item o eq, a))

-- The specification of a gate says what the catalog says of it.
abbrev FitsCatalog : String × GateSpec → Type 0
FitsCatalog (name, sp) = IsKnown sp.gate × (sp ≡ catalog_spec sp.gate)

gate_specs-FitsCatalog : All FitsCatalog gate_specs
unfolding catalog_item
gate_specs-FitsCatalog = (
  (tt, refl),
  (
    (tt, refl),
    (
      (tt, refl),
      (
        (tt, refl),
        (
          (tt, refl),
          (
            (tt, refl),
            (
              (tt, refl),
              (
                (tt, refl),
                (
                  (tt, refl),
                  (
                    (tt, refl),
                    (
                      (tt, refl),
                      (
                        (tt, refl),
                        (
                          (tt, refl),
                          (
                            (tt, refl),
                            (
                              (tt, refl),
                              (
                                (tt, refl),
                                (
                                  (tt, refl),
                                  (
                                    (tt, refl),
                                    (
                                      (tt, refl),
                                      (
                                        (tt, refl),
                                        ((tt, refl), ((tt, refl), ((tt, refl), ((tt, refl), tt)))),
                                      ),
                                    ),
                                  ),
                                ),
                              ),
                            ),
                          ),
                        ),
                      ),
                    ),
                  ),
                ),
              ),
            ),
          ),
        ),
      ),
    ),
  ),
)

spec_named-FitsCatalog :
    (name : String) (specs : List (String × GateSpec)) {sp : GateSpec}
    → All FitsCatalog specs
    → spec_named name specs ≡ some sp
    → IsKnown sp.gate × (sp ≡ catalog_spec sp.gate)
spec_named-FitsCatalog name [] fits e = cc
spec_named-FitsCatalog name ((key, s') ∷ rest) {sp} (fit, fits) e =
    elim (Bool-cases (str_eq key name)) [
      | inl found ↦
          let e' : some s' ≡ some sp = rw found at e in let same : s' ≡ sp = cc in rw⁻¹ same fit
      | inr other ↦ spec_named-FitsCatalog name rest fits (rw other at e)
    ]

module _ {R : Type 0} (host : Host R) where
  own_spec :
      (raw : String) (params : List R) (item : StatementLine) {r : Resolved R}
      → str_eq (host.to_lower_case raw) "u1" ≡ false
      → str_eq (host.to_lower_case raw) "u2" ≡ false
      → str_eq (host.to_lower_case raw) "u3" ≡ false
      → resolve_gate host raw params item ≡ done r
      → IsKnown r.gate × (r.spec ≡ catalog_spec r.gate)
  unfolding resolve_gate
  own_spec raw params item {r} not_u1 not_u2 not_u3 e =
      let lower = host.to_lower_case raw in
      elim (Option-cases (spec_named lower gate_specs)) [
        | inl missing ↦
            let thrown : throw_at _ item ≡ done r =
              rw (not_u1, not_u2, not_u3, missing, resolve_gate) at e in
            cc
        | inr (sp, found) ↦
            let found' : Resolved R = record { gate = sp.gate; params = params; spec = sp } in
            let returned : done found' ≡ done r =
              rw (not_u1, not_u2, not_u3, found, resolve_gate) at e in
            let same : found' ≡ r = cc in
            rw⁻¹ same (spec_named-FitsCatalog lower gate_specs gate_specs-FitsCatalog found)
      ]

  pub resolve_gate-FitsCatalog :
      (raw : String) (params : List R) (item : StatementLine) {r : Resolved R}
      → resolve_gate host raw params item ≡ done r
      → IsKnown r.gate × (r.spec ≡ catalog_spec r.gate)
  unfolding resolve_gate catalog_item
  resolve_gate-FitsCatalog raw params item {r} e =
      let lower = host.to_lower_case raw in
      elim (Bool-cases (str_eq lower "u1")) [
        | inl u1 ↦ alias (rw u1 at e)
        | inr not_u1 ↦ elim (Bool-cases (str_eq lower "u2")) [
          | inl u2 ↦ alias (rw (not_u1, u2) at e)
          | inr not_u2 ↦ elim (Bool-cases (str_eq lower "u3")) [
            | inl u3 ↦ alias (rw (not_u1, not_u2, u3) at e)
            | inr not_u3 ↦ own_spec raw params item not_u1 not_u2 not_u3 e
          ]
        ]
      ]
    where
      alias :
          {params : List R}
          → done (to_alias_gate_spec GateName.u params) ≡ done r
          → IsKnown r.gate × (r.spec ≡ catalog_spec r.gate)
      alias {params} e =
          let same : to_alias_gate_spec GateName.u params ≡ r = cc in rw⁻¹ same (tt, refl)
