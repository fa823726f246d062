-- ===== src/Template/Qft.antt =====
-- The template of the quantum Fourier transform, on any number of qubits.
use text.Mathlib.TextLemmas.{append-eq-nil_iff, cons-ne-nil}
use mvp_qcp.Base.{
  ℕ, zero, suc, ◌+◌, ◌*◌, ◌/◌, ◌≡◌, ◌<◌, ◌≤◌, inr, refl, Bool, true, false, ◌||◌, none, List, [],
  ◌∷◌, ◌++◌, arith, All, All-imp, All-append, All-of_forall, Pairs, ltb, if◌then◌else◌,
}
use mvp_qcp.Base.Int.{pos}
use mvp_qcp.Gate.{GateName, catalog_item}
use mvp_qcp.Circuit.{Operation, CircuitModel, Collation, InRange, touched_qubits}
use mvp_qcp.Circuit.Edit.Normal.{HasId}
use mvp_qcp.Circuit.Validation.{is_measurement, validate_circuit_model}
use mvp_qcp.Circuit.Validation.Distinct.{DistinctQubits}
use mvp_qcp.Circuit.Validation.Laws.{IsSound, validate_circuit_model_iff}
use mvp_qcp.Submission.Arity.{HasArity}
use mvp_qcp.Template.{
  Added, numbered, add_all, rotations, transforms, swaps, each_qubit, qft_operations,
  create_qft_template,
}
use mvp_qcp.Template.Numbered.{Everywhere, All-add_all, NotAfter, add_all-IsSound}

module _ {R : Type 0} where
  -- What is asked of each operation of a circuit with n qubits.
  abbrev pub IsReady : ℕ → Operation R → Type 0
  IsReady n o = DistinctQubits o × (All (λ q. q < n) (touched_qubits o) × HasArity o)

  abbrev Step : Bool → ℕ → Added R → Type 0
  Step measures n a = (is_measurement a.gate ≡ measures) × Everywhere (IsReady n) "tpl-qft-" a

  rotations-Step :
      (angle : ℕ → R) (n target control rounds : ℕ)
      → target < control
      → control + rounds ≤ n
      → All (Step false n) (rotations angle target control rounds)
  unfolding rotations catalog_item
  rotations-Step angle n target control zero l h = tt
  rotations-Step angle n target control (suc rounds) l h = (
    (
      refl,
      λ i k. (
        (((λ e. omega arith), tt), (tt, tt)),
        ((omega arith, (omega arith, tt)), (refl, refl, refl)),
      ),
    ),
    rotations-Step angle n target (suc control) rounds (omega arith) (omega arith),
  )

  transforms-Step :
      (angle : ℕ → R) (n target rounds : ℕ)
      → target + rounds ≤ n
      → All (Step false n) (transforms angle target rounds)
  unfolding transforms catalog_item
  transforms-Step angle n target zero h = tt
  transforms-Step angle n target (suc rounds) h = (
    (refl, λ i k. ((tt, tt), ((omega arith, tt), (refl, refl, refl)))),
    All-append (Step false n) (rotations angle target (suc target) rounds)
        (transforms angle (suc target) rounds)
        (rotations-Step angle n target (suc target) rounds (omega arith) (omega arith))
        (transforms-Step angle n (suc target) rounds (omega arith)),
  )

swaps-Step :
    (R : Type 0) (n left rounds : ℕ)
    → 2 * (left + rounds) ≤ n
    → All (Step {R = R} false n) (swaps n left rounds)
unfolding swaps catalog_item
swaps-Step R n left zero h = tt
swaps-Step R n left (suc rounds) h = (
  (
    refl,
    λ i k. (
      (((λ e. omega arith), tt), (tt, tt)),
      ((omega arith, (omega arith, tt)), (refl, refl, refl)),
    ),
  ),
  swaps-Step R n (suc left) rounds (omega arith),
)

measures-Step :
    (R : Type 0) (n qubit rounds : ℕ)
    → qubit + rounds ≤ n
    → All (Step {R = R} true n) (each_qubit GateName.m qubit rounds)
unfolding each_qubit catalog_item
measures-Step R n qubit zero h = tt
measures-Step R n qubit (suc rounds) h = (
  (refl, λ i k. ((tt, tt), ((omega arith, tt), (refl, refl, refl)))),
  measures-Step R n (suc qubit) rounds (omega arith),
)

module _ {R : Type 0} where
  gates-Step :
      (angle : ℕ → R) (n : ℕ) (include_swaps : Bool)
      → All
          (Step false n)
          (transforms angle 0 n ++ (if include_swaps then swaps n 0 (n / 2) else []))
  gates-Step angle n true =
      All-append (Step false n) (transforms angle 0 n) _ (transforms-Step angle n 0 n (omega arith))
        (swaps-Step R n 0 (n / 2) (omega arith))
  gates-Step angle n false =
      All-append (Step false n) (transforms angle 0 n) _ (transforms-Step angle n 0 n (omega arith))
        tt

  -- Steps that do not measure, followed by steps that do.
  measured_last :
      (n : ℕ) (gates measures : List (Added R))
      → All (Step false n) gates
      → All (Step true n) measures
      → Pairs NotAfter (gates ++ measures)
  measured_last n [] [] h k = tt
  measured_last n [] (a ∷ rest) h (p, k) =
      let later : All (NotAfter a) rest =
        All-imp {Q = NotAfter a} (λ b. λ (s : Step true n b) e. s.0) rest k in
      (later, measured_last n [] rest tt k)
  measured_last n (a ∷ rest) measures (p, h) k = (
    All-of_forall (NotAfter a) (λ b e. let e' = p.0 in cc) (rest ++ measures),
    measured_last n rest measures h k,
  )

  qft-IsReady :
      (angle : ℕ → R) (n : ℕ) (include_swaps : Bool)
      → All (Everywhere (IsReady n) "tpl-qft-") (qft_operations angle n include_swaps)
  unfolding qft_operations
  qft-IsReady angle n include_swaps =
      All-append _ (transforms angle 0 n ++ (if include_swaps then swaps n 0 (n / 2) else []))
        (each_qubit GateName.m 0 n)
        (All-imp (λ a. λ (s : Step false n a). s.1) _ (gates-Step angle n include_swaps))
        (All-imp (λ a. λ (s : Step true n a). s.1) _ (measures-Step R n 0 n (omega arith)))

  qft-NotAfter :
      (angle : ℕ → R) (n : ℕ) (include_swaps : Bool)
      → Pairs NotAfter (qft_operations angle n include_swaps)
  unfolding qft_operations
  qft-NotAfter angle n include_swaps =
      measured_last n (transforms angle 0 n ++ (if include_swaps then swaps n 0 (n / 2) else [])) _
        (gates-Step angle n include_swaps) (measures-Step R n 0 n (omega arith))

  numbered-HasId : (index layer : ℕ) (a : Added R) → HasId (numbered "tpl-qft-" index layer a)
  numbered-HasId index layer a e = cons-ne-nil _ _ ((append-eq-nil_iff {p = "tpl-qft-"}).0 e).0

  -- On 2 to 32 qubits, with or without the swaps, the template is made, the validation accepts it,
  -- it touches only its own qubits, and each operation has exactly as many targets, controls and
  -- parameters as the catalog says of its gate.
  pub create_qft_template_lem :
      ⦃c : Collation⦄ (angle : ℕ → R) (n : ℕ) (include_swaps : Bool)
      → 2 ≤ n
      → n ≤ 32
      → (m : CircuitModel R) × (create_qft_template angle (pos n) include_swaps ≡ inr m)
        × (validate_circuit_model m ≡ none)
        × InRange m
        × All HasArity m.operations
  unfolding create_qft_template
  create_qft_template_lem angle n include_swaps lo hi =
      let steps = qft_operations angle n include_swaps in
      let ops = add_all "tpl-qft-" 1 0 steps in
      let m : CircuitModel R = record { num_qubits = n; operations = ops } in
      let ready : All (IsReady n) ops =
        All-add_all (IsReady n) "tpl-qft-" 1 0 steps (qft-IsReady angle n include_swaps) in
      let ids : All HasId ops =
        All-add_all HasId "tpl-qft-" 1 0 steps
          (All-of_forall _ (λ a i l. numbered-HasId i l a) steps) in
      let distinct : All (Everywhere DistinctQubits "tpl-qft-") steps =
        All-imp {Q = Everywhere DistinctQubits "tpl-qft-"}
          (λ a. λ (s : Everywhere (IsReady n) "tpl-qft-" a) i l. (s i l).0) steps
          (qft-IsReady angle n include_swaps) in
      let sound : IsSound ops =
        add_all-IsSound "tpl-qft-" 1 0 steps distinct (qft-NotAfter angle n include_swaps) in
      let accepted : (ltb n 2 || ltb 32 n) ≡ false = ground arith in
      (
        m,
        rw accepted refl,
        (validate_circuit_model_iff m ids).1 sound,
        All-imp (λ o. λ (s : IsReady n o). s.1.0) ops ready,
        All-imp (λ o. λ (s : IsReady n o). s.1.1) ops ready,
      )
