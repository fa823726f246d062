-- ===== src/Circuit/Validation/Span.antt =====
-- `toOccupiedQubits`: an operation holds every qubit between the outermost that it touches.
use mathlib.Core.Path.{ap₂}
use mvp_qcp.Base.{
  ℕ, zero, suc, ◌+◌, ◌≡◌, ◌≤◌, refl, ◌∙◌, ap, Bool, true, not, ◌&&◌, ◌||◌, List, [], ◌∷◌, arith,
  any, filter, includes, maximum, minimum, length, ltb, leb, ◌==◌, if◌then◌else◌, Bool-cases, inl,
  inr,
}
use mvp_qcp.Circuit.{Operation, touched_qubits}
use mvp_qcp.Circuit.Validation.{unique, range_from, span, to_touched_qubits, to_occupied_qubits}

any-without :
    (p : ℕ → Bool) (q : ℕ) (qs : List ℕ)
    → (p q || any p (filter (λ r. not (r == q)) qs)) ≡ (p q || any p qs)
any-without p q [] = refl
any-without p q (r ∷ rs) = elim (Bool-cases (r == q)) [
  | inl same ↦ let e : r ≡ q = ground arith in rw (same, e) (ground (arith, any-without p q rs))
  | inr other ↦ rw other (ground (arith, any-without p q rs))
]

any-unique : (p : ℕ → Bool) (qs : List ℕ) → any p (unique qs) ≡ any p qs
unfolding unique
any-unique p [] = refl
any-unique p (q ∷ qs) = any-without p q (unique qs) ∙ ap (p q ||◌) (any-unique p qs)

includes-range_from : (q lo n : ℕ) → includes q (range_from lo n) ≡ (leb lo q && ltb q (lo + n))
unfolding range_from
includes-range_from q lo zero = ground arith
includes-range_from q lo (suc n) = ground (arith, includes-range_from q (suc lo) n)

any-le-minimum : (q x : ℕ) (xs : List ℕ) → any (λ p. leb p q) (x ∷ xs) ≡ leb (minimum x xs) q
any-le-minimum q x [] = ground arith
any-le-minimum q x (y ∷ ys) = ground (arith, any-le-minimum q y ys)

any-ge-maximum : (q x : ℕ) (xs : List ℕ) → any (λ p. leb q p) (x ∷ xs) ≡ leb q (maximum x xs)
any-ge-maximum q x [] = ground arith
any-ge-maximum q x (y ∷ ys) = ground (arith, any-ge-maximum q y ys)

-- A qubit lies between two of the list.
abbrev pub between : ℕ → List ℕ → Bool
between q qs = any (λ p. leb p q) qs && any (λ p. leb q p) qs

minimum-le-maximum : (x : ℕ) (xs : List ℕ) → minimum x xs ≤ maximum x xs
minimum-le-maximum x [] = omega arith
minimum-le-maximum x (y ∷ ys) = omega (arith, minimum-le-maximum y ys)

includes-span : (q : ℕ) (qs : List ℕ) → includes q (span qs) ≡ between q qs
includes-span q [] = refl
includes-span q (x ∷ xs) =
    rw includes-range_from
      (ground (arith, any-le-minimum q x xs, any-ge-maximum q x xs, minimum-le-maximum x xs))

includes_short : (q : ℕ) (qs : List ℕ) → ltb (length qs) 2 ≡ true → includes q qs ≡ between q qs
includes_short q [] h = refl
includes_short q (x ∷ []) h = ground arith
includes_short q (x ∷ y ∷ ys) h = absurd (ground arith)

-- An operation holds a qubit exactly when the qubit lies between two that it touches.
pub includes-to_occupied_qubits :
    {R : Type 0} (o : Operation R) (q : ℕ)
    → includes q (to_occupied_qubits o) ≡ between q (touched_qubits o)
unfolding to_occupied_qubits
includes-to_occupied_qubits o q =
    between-occupied (to_touched_qubits o)
    ∙ ap₂ ◌&&◌ (any-unique (λ p. leb p q) (touched_qubits o))
        (any-unique (λ p. leb q p) (touched_qubits o))
  where
    between-occupied :
        (qs : List ℕ) → includes q (if ltb (length qs) 2 then qs else span qs) ≡ between q qs
    between-occupied qs = elim (Bool-cases (ltb (length qs) 2)) [
      | inl short ↦ rw short (includes_short q qs short)
      | inr long ↦ rw long (includes-span q qs)
    ]
