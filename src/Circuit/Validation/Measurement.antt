-- ===== src/Circuit/Validation/Measurement.antt =====
-- The third check: measurements come last.
use mvp_qcp.Base.{
  ℕ, suc, ◌≡◌, ◌↔◌, ◌<◌, ◌≤◌, refl, true, false, not, ◌&&◌, List, [], ◌∷◌, arith, All, All-imp,
  All-both, All-filter, All-of_filter, filter, find-none, find_of_All, leb, min, Bool-cases, none,
  some, inl, inr, ◌⊎◌,
}
use mvp_qcp.Circuit.{Operation}
use mvp_qcp.Circuit.Validation.{is_measurement, first_layer, find_non_terminal_measurement}

module _ {R : Type 0} where
  abbrev IsMeasurement : Operation R → Type 0
  IsMeasurement o = is_measurement o.gate ≡ true

  -- Of two operations of which one is a measurement and the other is not, the other stands in an
  -- earlier layer.
  abbrev pub MeasuredLast : Operation R → Operation R → Type 0
  MeasuredLast a b =
      (is_measurement a.gate ≡ true → is_measurement b.gate ≡ false → b.layer < a.layer)
      × (is_measurement b.gate ≡ true → is_measurement a.gate ≡ false → a.layer < b.layer)

  pub MeasuredLast-sym : (a b : Operation R) → MeasuredLast a b → MeasuredLast b a
  MeasuredLast-sym a b (h, k) = (k, h)

  abbrev measurements : List (Operation R) → List (Operation R)
  measurements ops = filter (λ o. is_measurement o.gate) ops

  -- The `reduce` computes the least of the layers and of what it starts from.
  first_layer-some :
      (l : ℕ) (ops : List (Operation R))
      → (k : ℕ) × (first_layer (some l) ops ≡ some k)
        × ((bound : ℕ) → (bound ≤ k) ↔ ((bound ≤ l) × All (λ o. bound ≤ o.layer) ops))
  unfolding first_layer
  first_layer-some l [] = (l, refl, λ bound. (λ h. (h, tt), λ h. h.0))
  first_layer-some l (o ∷ os) =
      let (k, e, least) = first_layer-some (min l o.layer) os in
      (
        k,
        e,
        λ bound. (
          λ h. let (p, q) = (least bound).0 h in (omega arith, (omega arith, q)),
          λ (p, (q, r)). (least bound).1 (omega arith, r),
        ),
      )

  first_layer-cases :
      (ms : List (Operation R))
      → ((first_layer none ms ≡ none) × (ms ≡ []))
        ⊎ ((k : ℕ) × (first_layer none ms ≡ some k)
            × ((bound : ℕ) → (bound ≤ k) ↔ All (λ o. bound ≤ o.layer) ms))
  unfolding first_layer
  first_layer-cases [] = inl (refl, refl)
  first_layer-cases (o ∷ os) = inr (first_layer-some o.layer os)

  -- Without a measurement there is nothing to compare.
  unmeasured :
      (ops : List (Operation R))
      → All (λ o. ⊥) (measurements ops)
      → All (λ a. All (MeasuredLast a) ops) ops
  unmeasured ops h =
      let absent = All-of_filter (λ (o : Operation R). ⊥) (λ o. is_measurement o.gate) ops h in
      All-imp
        (λ a na. All-imp (λ b nb. (λ ma _. absurd (na ma), λ mb _. absurd (nb mb))) ops absent) ops
        absent

  -- Every operation that is no measurement stands below layer k.
  abbrev OthersBelow : ℕ → List (Operation R) → Type 0
  OthersBelow k ops = All (λ o. (not (is_measurement o.gate) && leb k o.layer) ≡ false) ops

  All-MeasuredLast :
      (k : ℕ) (ops : List (Operation R))
      → All (λ o. is_measurement o.gate ≡ true → k ≤ o.layer) ops
      → OthersBelow k ops
      → All (λ a. All (MeasuredLast a) ops) ops
  All-MeasuredLast k ops low below =
      let both = All-both _ _ ops low below in
      All-imp
        (λ a ha.
          All-imp (λ b hb. (λ ma nb. ground (arith, ha.0 ma), λ mb na. ground (arith, hb.0 mb))) ops
            both)
        ops both

  other_below :
      (k : ℕ) (b : Operation R) (ops : List (Operation R))
      → ((bound : ℕ) → All (λ o. bound ≤ o.layer) (measurements ops) → bound ≤ k)
      → All (MeasuredLast b) ops
      → (not (is_measurement b.gate) && leb k b.layer) ≡ false
  other_below k b ops least h = elim (Bool-cases (is_measurement b.gate)) [
    | inl e ↦ rw e
    | inr e ↦
        let low : suc b.layer ≤ k =
          least (suc b.layer) (All-filter _ _ ops (All-imp (λ a r ma. r.1 ma e) ops h)) in
        rw e (ground arith)
  ]

  others_below :
      (k : ℕ) (ops : List (Operation R))
      → ((bound : ℕ) → All (λ o. bound ≤ o.layer) (measurements ops) → bound ≤ k)
      → All (λ a. All (MeasuredLast a) ops) ops
      → OthersBelow k ops
  others_below k ops least last = All-imp (λ b h. other_below k b ops least h) ops last

  pub find_non_terminal-none :
      (ops : List (Operation R))
      → (find_non_terminal_measurement ops ≡ none) ↔ All (λ a. All (MeasuredLast a) ops) ops
  unfolding find_non_terminal_measurement
  find_non_terminal-none ops = elim (first_layer-cases (measurements ops)) [
    | inl (e, nothing) ↦
        (λ _. unmeasured ops (rw nothing tt), λ _. rw (e, find_non_terminal_measurement))
    | inr (k, e, least) ↦ (
      λ h.
          All-MeasuredLast k ops (All-of_filter _ _ ops ((least k).0 (omega arith)))
            (find-none _ ops (rw (e, find_non_terminal_measurement) at h)),
      λ h.
          rw (e, find_non_terminal_measurement)
            (find_of_All _ ops (others_below k ops (λ bound. (least bound).1) h)),
    )
  ]
