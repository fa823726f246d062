-- ===== src/Qasm/MeasuredLast.antt =====
-- The lines of the measurements stand after those of the gates.
use mvp_qcp.Base.{
  ◌≡◌, ◌∙◌, sym, refl, Bool, true, inl, inr, List, [], ◌∷◌, arith, All, All-imp, Pairs, Bool-cases,
}
use mvp_qcp.Base.Apart.{Across, Across-nil, Across-append, Pairs-append}
use mvp_qcp.Base.Sorting.{IsSorted}
use mvp_qcp.Gate.{
  GateName, i, x, y, z, h, sx, sy, s, sdg, t, tdg, rx, ry, rz, u, p, cx, cy, ch, cp, cz, ccx, ccz,
  swap, cswap, rxx, ryy, rzz, rzx, m,
}
use mvp_qcp.Circuit.{Operation, Collation, in_order, sort_operations}
use mvp_qcp.Circuit.Order.{sort_operations-IsSorted, Pairs-sort_operations}
use mvp_qcp.Circuit.Validation.{is_measurement}
use mvp_qcp.Circuit.Validation.Measurement.{MeasuredLast, MeasuredLast-sym}
use mvp_qcp.Template.{Added}
use mvp_qcp.Template.Numbered.{NotAfter}
use mvp_qcp.Qasm.{Host}
use mvp_qcp.Qasm.Standard.{standard_gates, standard, standard_all}

module _ {R : Type 0} (host : Host R) where
  -- The standard gates of a measurement are measurements, and those of a gate are none.
  abbrev Alike : GateName → List (Added R) → Type 0
  Alike gate gs = All (λ a. is_measurement a.gate ≡ is_measurement gate) gs

  gates-Alike : (gate : GateName) (o : Operation R) → Alike gate (standard_gates host gate o)
  gates-Alike i o = (refl, tt)
  gates-Alike x o = (refl, tt)
  gates-Alike y o = (refl, tt)
  gates-Alike z o = (refl, tt)
  gates-Alike h o = (refl, tt)
  gates-Alike sx o = (refl, tt)
  gates-Alike sy o = (refl, tt)
  gates-Alike s o = (refl, tt)
  gates-Alike sdg o = (refl, tt)
  gates-Alike t o = (refl, tt)
  gates-Alike tdg o = (refl, tt)
  gates-Alike rx o = (refl, tt)
  gates-Alike ry o = (refl, tt)
  gates-Alike rz o = (refl, tt)
  gates-Alike u o = (refl, tt)
  gates-Alike p o = (refl, tt)
  gates-Alike cx o = (refl, tt)
  gates-Alike cy o = (refl, tt)
  gates-Alike ch o = (refl, tt)
  gates-Alike cp o = (refl, tt)
  gates-Alike cz o = (refl, tt)
  gates-Alike ccx o = (refl, tt)
  gates-Alike ccz o = (refl, (refl, (refl, tt)))
  gates-Alike swap o = (refl, tt)
  gates-Alike cswap o = (refl, tt)
  gates-Alike rxx o = (refl, (refl, (refl, (refl, (refl, (refl, (refl, tt)))))))
  gates-Alike ryy o =
      (refl, (refl, (refl, (refl, (refl, (refl, (refl, (refl, (refl, (refl, (refl, tt)))))))))))
  gates-Alike rzz o = (refl, (refl, (refl, tt)))
  gates-Alike rzx o = (refl, (refl, (refl, (refl, (refl, tt)))))
  gates-Alike m o = (refl, tt)

  -- Of two operations in order, the second is a measurement if the first is.
  abbrev InTurn : Operation R → Operation R → Type 0
  InTurn a b = is_measurement a.gate ≡ true → is_measurement b.gate ≡ true

  Alike-Across :
      (a b : Operation R) (gs bs : List (Added R))
      → Alike a.gate gs
      → Alike b.gate bs
      → InTurn a b
      → Across NotAfter gs bs
  Alike-Across a b [] bs ea eb turn = tt
  Alike-Across a b (c ∷ gs) bs (e, ea) eb turn = (
    All-imp {Q = NotAfter c}
        (λ d. λ (e' : is_measurement d.gate ≡ is_measurement b.gate) e''. e' ∙ turn (sym e ∙ e''))
        bs eb,
    Alike-Across a b gs bs ea eb turn,
  )

  Alike-after :
      (a : Operation R) (gs : List (Added R)) (os : List (Operation R))
      → Alike a.gate gs
      → All (InTurn a) os
      → Across NotAfter gs (standard_all host os)
  unfolding standard_all standard
  Alike-after a gs [] ea tt' = Across-nil NotAfter gs
  Alike-after a gs (b ∷ os) ea (turn, turns) =
      Across-append NotAfter gs (standard_gates host b.gate b) (standard_all host os)
        (Alike-Across a b gs (standard_gates host b.gate b) ea (gates-Alike b.gate b) turn)
        (Alike-after a gs os ea turns)

  all_alike :
      (b : Bool) (gates : List (Added R))
      → All (λ a. is_measurement a.gate ≡ b) gates
      → Pairs NotAfter gates
  all_alike b [] e = tt
  all_alike b (a ∷ gs) (e, es) = (
    All-imp {Q = NotAfter a} (λ c. λ (e' : is_measurement c.gate ≡ b) e''. e' ∙ (sym e ∙ e'')) gs
        es,
    all_alike b gs es,
  )

  standard_all-NotAfter :
      (ops : List (Operation R)) → Pairs InTurn ops → Pairs NotAfter (standard_all host ops)
  unfolding standard_all standard
  standard_all-NotAfter [] turns = tt
  standard_all-NotAfter (o ∷ os) (turn, turns) =
      Pairs-append NotAfter (standard_gates host o.gate o) (standard_all host os)
        (all_alike _ _ (gates-Alike o.gate o)) (standard_all-NotAfter os turns)
        (Alike-after o _ os (gates-Alike o.gate o) turn)

  sorted-InTurn :
      ⦃c : Collation⦄ (a b : Operation R) → in_order a b ≡ true → MeasuredLast a b → InTurn a b
  unfolding in_order
  sorted-InTurn a b e (l, _) measured = elim (Bool-cases (is_measurement b.gate)) [
    | inl e' ↦ e'
    | inr e' ↦ let before = l measured e' in ground arith
  ]

  Pairs-InTurn :
      ⦃c : Collation⦄ (ops : List (Operation R))
      → IsSorted in_order ops
      → Pairs MeasuredLast ops
      → Pairs InTurn ops
  Pairs-InTurn [] e l = tt
  Pairs-InTurn (o ∷ os) (e, es) (l, ls) = (each os e l, Pairs-InTurn os es ls)
    where
      each :
          (os : List (Operation R))
          → All (λ b. in_order o b ≡ true) os
          → All (MeasuredLast o) os
          → All (InTurn o) os
      each [] e l = tt
      each (b ∷ os) (e, es) (l, ls) = (sorted-InTurn o b e l, each os es ls)

  -- Where each measurement stands in a later layer than every gate, the standard gates of the sorted
  -- operations are followed by the measurements.
  pub sorted-NotAfter :
      ⦃c : Collation⦄ (ops : List (Operation R))
      → Pairs MeasuredLast ops
      → Pairs NotAfter (standard_all host (sort_operations ops))
  sorted-NotAfter ops l = standard_all-NotAfter (sort_operations ops) (
      Pairs-InTurn (sort_operations ops) (sort_operations-IsSorted ops).1
        (Pairs-sort_operations MeasuredLast MeasuredLast-sym ops l))
