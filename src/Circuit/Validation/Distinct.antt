-- ===== src/Circuit/Validation/Distinct.antt =====
-- The first check: an operation may not touch a qubit twice.
use mvp_qcp.Base.{
  ℕ, ◌≡◌, ◌≢◌, ◌↔◌, ◌≤◌, refl, false, not, List, [], ◌∷◌, arith, All, All-imp, Pairs, length,
  filter, find-none, find_of_All, ◌==◌, none,
}
use mvp_qcp.Circuit.{Operation, touched_qubits}
use mvp_qcp.Circuit.Validation.{unique, find_invalid_multi_qubit_operation}

-- No two elements are equal.
abbrev pub AllDistinct : List ℕ → Type 0
AllDistinct qs = Pairs ◌≢◌ qs

abbrev without : ℕ → List ℕ → List ℕ
without q qs = filter (λ p. not (p == q)) qs

length-without : (q : ℕ) (qs : List ℕ) → length (without q qs) ≤ length qs
length-without q [] = omega arith
length-without q (p ∷ ps) = ground (arith, length-without q ps)

length-unique : (qs : List ℕ) → length (unique qs) ≤ length qs
unfolding unique
length-unique [] = omega arith
length-unique (q ∷ qs) = omega (arith, length-without q (unique qs), length-unique qs)

without_of_All : (q : ℕ) (qs : List ℕ) → All (λ p. q ≢ p) qs → without q qs ≡ qs
without_of_All q [] h = refl
without_of_All q (p ∷ ps) (e, h) = ground (arith, without_of_All q ps h)

unique_of_AllDistinct : (qs : List ℕ) → AllDistinct qs → unique qs ≡ qs
unfolding unique
unique_of_AllDistinct [] h = refl
unique_of_AllDistinct (q ∷ qs) (n, h) = rw (unique_of_AllDistinct qs h) (rw (without_of_All q qs n))

-- Where removing q removes nothing, q does not stand in the list.
All-of_length-without :
    (q : ℕ) (qs : List ℕ) → length (without q qs) ≡ length qs → All (λ p. q ≢ p) qs
All-of_length-without q [] h = tt
All-of_length-without q (p ∷ ps) h = ground (arith, length-without q ps, All-of_length-without q ps)

All-of_unique : (P : ℕ → Type 0) (qs : List ℕ) → unique qs ≡ qs → All P (unique qs) → All P qs
All-of_unique P qs e h = rw e at h

AllDistinct-of_length : (qs : List ℕ) → length (unique qs) ≡ length qs → AllDistinct qs
unfolding unique
AllDistinct-of_length [] h = tt
AllDistinct-of_length (q ∷ qs) h =
    let shorter = length-without q (unique qs) in
    let short = length-unique qs in
    let rest = AllDistinct-of_length qs (omega arith) in
    (
      All-of_unique (λ p. q ≢ p) qs (unique_of_AllDistinct qs rest)
          (All-of_length-without q (unique qs) (omega arith)),
      rest,
    )

distinct_test : (qs : List ℕ) → (not (length (unique qs) == length qs) ≡ false) ↔ AllDistinct qs
distinct_test qs = (
  λ h. AllDistinct-of_length qs (ground arith),
  λ h. rw (unique_of_AllDistinct qs h) (ground arith),
)

module _ {R : Type 0} where
  -- No operation touches a qubit twice.
  abbrev pub DistinctQubits : Operation R → Type 0
  DistinctQubits o = AllDistinct (touched_qubits o)

  pub find_invalid-none :
      (ops : List (Operation R))
      → (find_invalid_multi_qubit_operation ops ≡ none) ↔ All DistinctQubits ops
  unfolding find_invalid_multi_qubit_operation
  find_invalid-none ops = (
    λ h. All-imp (λ o. (distinct_test (touched_qubits o)).0) ops (find-none _ ops h),
    λ h. find_of_All _ ops (All-imp (λ o. (distinct_test (touched_qubits o)).1) ops h),
  )
