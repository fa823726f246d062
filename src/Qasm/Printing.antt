-- ===== src/Qasm/Printing.antt =====
-- `serializeOperation` prints the standard gates of an operation.
use mathlib.Core.List.{map-append}
use mvp_qcp.Base.{
  ℕ, suc, ◌≡◌, refl, ◌∙◌, Option, none, some, List, [], ◌∷◌, ◌++◌, map, arith, length, All,
}
use mvp_qcp.Gate.{
  GateName, i, x, y, z, h, sx, sy, s, sdg, t, tdg, rx, ry, rz, u, p, cx, cy, ch, cp, cz, ccx, ccz,
  swap, cswap, rxx, ryy, rzz, rzx, m, gate_text, catalog_item,
}
use mvp_qcp.Circuit.{Operation}
use mvp_qcp.Submission.{return, require_targets, require_params, require_controls}
use mvp_qcp.Submission.Settled.{Takes}
use mvp_qcp.Submission.Arity.{HasRequired, HasRequiredOf}
use mvp_qcp.Qasm.{Statement, Host}
use mvp_qcp.Qasm.Serializer.{nth, serialize_rzz, serialize_gate, serialize_operation, serialize_all}
use mvp_qcp.Qasm.Standard.{line_of, rzz_gates, standard_gates, standard, standard_all}
use mvp_qcp.Qasm.Serializer.{
  plain_line, line_with, single, single_with, controlled_line, around, neither, both, to_y, from_y,
  right_h,
}

given :
    {A : Type 0} (xs : Option (List A)) (n : ℕ)
    → Takes xs (suc n)
    → (ys : List A) × (xs ≡ some ys) × (length ys ≡ suc n)
given none n e = absurd e
given (some ys) n e = (ys, refl, e)

module _ {R : Type 0} where
  targets_lem :
      (o : Operation R) (n : ℕ) → length o.targets ≡ n → require_targets o n ≡ return o.targets
  unfolding require_targets
  targets_lem o n e = ground arith

  params_lem :
      (o : Operation R) (n : ℕ) (ys : List R)
      → o.params ≡ some ys
      → length ys ≡ n
      → require_params o n ≡ return ys
  unfolding require_params
  params_lem o n ys e l = rw e (ground arith)

  controls_lem :
      (o : Operation R) (n : ℕ) (ys : List ℕ)
      → o.controls ≡ some ys
      → length ys ≡ n
      → require_controls o n ≡ return ys
  unfolding require_controls
  controls_lem o n ys e l = rw e (ground arith)

module _ {R : Type 0} (host : Host R) where
  abbrev Prints : GateName → Operation R → Type 0
  Prints gate o =
      HasRequiredOf (catalog_item gate) o
      → serialize_gate host gate o ≡ return (map (line_of host) (standard_gates host gate o))

  single_lem :
      (gate : GateName) (o : Operation R)
      → length o.targets ≡ 1
      → single host gate o ≡ return (plain_line (gate_text gate) o.targets ∷ [])
  unfolding single
  single_lem gate o e = rw (targets_lem o 1 e)

  single_with_lem :
      (gate : GateName) (o : Operation R) (n : ℕ)
      → length o.targets ≡ 1
      → Takes o.params (suc n)
      → (ps : List R) × (o.params ≡ some ps)
        × (single_with host gate o (suc n)
            ≡ return (line_with host (gate_text gate) ps o.targets ∷ []))
  unfolding single_with
  single_with_lem gate o n e a =
      let (ps, ep, lp) = given o.params n a in
      (ps, ep, rw (targets_lem o 1 e, params_lem o (suc n) ps ep lp))

  controlled_lem :
      (gate : GateName) (o : Operation R) (n k : ℕ)
      → Takes o.controls (suc n)
      → length o.targets ≡ k
      → (cs : List ℕ) × (o.controls ≡ some cs)
        × (controlled_line host gate o (suc n) k
            ≡ return (plain_line (gate_text gate) (cs ++ o.targets) ∷ []))
  unfolding controlled_line
  controlled_lem gate o n k a e =
      let (cs, ec, lc) = given o.controls n a in
      (cs, ec, rw (targets_lem o k e, controls_lem o (suc n) cs ec lc))

  around_lem :
      (o : Operation R) (before after : ℕ → ℕ → List Statement)
      → length o.targets ≡ 2
      → Takes o.params 1
      → let left = nth 0 o.targets 0 in
        let right = nth 0 o.targets 1 in
        around host o before after
        ≡ return (before left right ++ map (line_of host) (rzz_gates host o) ++ after left right)
  unfolding around serialize_rzz gate_text
  around_lem o before after e a =
      let (ps, ep, lp) = given o.params 0 a in rw (targets_lem o 2 e, params_lem o 1 ps ep lp, ep)

  gate-Prints : (gate : GateName) (o : Operation R) → Prints gate o
  unfolding gate_text catalog_item serialize_gate
  gate-Prints i o a = single_lem i o a.0
  gate-Prints x o a = single_lem x o a.0
  gate-Prints y o a = single_lem y o a.0
  gate-Prints z o a = single_lem z o a.0
  gate-Prints h o a = single_lem h o a.0
  gate-Prints sx o a = single_lem sx o a.0
  gate-Prints s o a = single_lem s o a.0
  gate-Prints sdg o a = single_lem sdg o a.0
  gate-Prints t o a = single_lem t o a.0
  gate-Prints tdg o a = single_lem tdg o a.0
  gate-Prints sy o a = rw (targets_lem o 1 a.0)
  gate-Prints rx o a = let (ps, ep, e) = single_with_lem rx o 0 a.0 a.1.1 in e ∙ rw ep refl
  gate-Prints ry o a = let (ps, ep, e) = single_with_lem ry o 0 a.0 a.1.1 in e ∙ rw ep refl
  gate-Prints rz o a = let (ps, ep, e) = single_with_lem rz o 0 a.0 a.1.1 in e ∙ rw ep refl
  gate-Prints p o a = let (ps, ep, e) = single_with_lem p o 0 a.0 a.1.1 in e ∙ rw ep refl
  gate-Prints u o a = let (ps, ep, e) = single_with_lem u o 2 a.0 a.1.1 in e ∙ rw ep refl
  gate-Prints cx o a = let (cs, ec, e) = controlled_lem cx o 0 1 a.1.0 a.0 in e ∙ rw ec refl
  gate-Prints cy o a = let (cs, ec, e) = controlled_lem cy o 0 1 a.1.0 a.0 in e ∙ rw ec refl
  gate-Prints ch o a = let (cs, ec, e) = controlled_lem ch o 0 1 a.1.0 a.0 in e ∙ rw ec refl
  gate-Prints cz o a = let (cs, ec, e) = controlled_lem cz o 0 1 a.1.0 a.0 in e ∙ rw ec refl
  gate-Prints ccx o a = let (cs, ec, e) = controlled_lem ccx o 1 1 a.1.0 a.0 in e ∙ rw ec refl
  gate-Prints cswap o a = let (cs, ec, e) = controlled_lem cswap o 0 2 a.1.0 a.0 in e ∙ rw ec refl
  gate-Prints cp o a =
      let (cs, ec, lc) = given o.controls 0 a.1.0 in
      let (ps, ep, lp) = given o.params 0 a.1.1 in
      rw (targets_lem o 1 a.0, controls_lem o 1 cs ec lc, params_lem o 1 ps ep lp, ec, ep)
  gate-Prints ccz o a =
      let (cs, ec, lc) = given o.controls 1 a.1.0 in
      rw (targets_lem o 1 a.0, controls_lem o 2 cs ec lc, ec)
  gate-Prints swap o a = rw (targets_lem o 2 a.0)
  gate-Prints rzz o a = around_lem o neither neither a.0 a.1.1
  gate-Prints rxx o a = around_lem o (both "h") (both "h") a.0 a.1.1
  gate-Prints ryy o a = around_lem o to_y from_y a.0 a.1.1
  gate-Prints rzx o a = around_lem o right_h right_h a.0 a.1.1
  gate-Prints m o a = rw (targets_lem o 1 a.0)

  pub serialize_operation-standard :
      (o : Operation R)
      → HasRequired o
      → serialize_operation host o ≡ return (map (line_of host) (standard host o))
  unfolding serialize_operation standard
  serialize_operation-standard o a = gate-Prints o.gate o a

  pub serialize_all-standard :
      (ops : List (Operation R))
      → All HasRequired ops
      → serialize_all host ops ≡ return (map (line_of host) (standard_all host ops))
  unfolding serialize_all standard_all
  serialize_all-standard [] a = refl
  serialize_all-standard (o ∷ os) (a, as_all) =
      rw
        (
          serialize_operation-standard o a,
          serialize_all-standard os as_all,
          map-append (line_of host) (standard host o) (standard_all host os),
        )
        refl
