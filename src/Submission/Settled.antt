-- ===== src/Submission/Settled.antt =====
-- When a call returns and when it throws.
use mvp_qcp.Base.{
  ℕ, zero, suc, ◌≡◌, ◌≢◌, ◌⊎◌, refl, ap, ◌∙◌, Option, none, some, List, arith, length, ◌==◌,
  Bool-cases, inl, inr,
}
use mvp_qcp.Submission.{Thrown, throw, return, SubmitError, ◌>>=◌, required}

-- A call returns the value where the condition holds, and throws where it does not.
abbrev pub Settled : {A : Type 0} → Type 0 → Thrown A → A → Type 0
Settled P r v = (P × (r ≡ return v)) ⊎ ((P → ⊥) × ((e : SubmitError) × (r ≡ throw e)))

pub return-Settled : {A : Type 0} (v : A) → Settled (Unit {0}) (return v) v
return-Settled v = inl (tt, refl)

pub skip-Settled :
    {A : Type 0} (Q : Type 0) (r : Thrown A) (v : A) → Settled Q r v → Settled (Unit {0} × Q) r v
skip-Settled Q r v (inl (q, e)) = inl ((tt, q), e)
skip-Settled Q r v (inr (n, t)) = inr (λ q. n q.1, t)

pub drop-Settled :
    {A : Type 0} (Q : Type 0) (r : Thrown A) (v : A) → Settled (Q × Unit {0}) r v → Settled Q r v
drop-Settled Q r v (inl (q, e)) = inl (q.0, e)
drop-Settled Q r v (inr (n, t)) = inr (λ q. n (q, tt), t)

pub bind-Settled :
    {A B : Type 0} (P Q : Type 0) (r : Thrown A) (v : A) (f : A → Thrown B) (w : B)
    → Settled P r v
    → Settled Q (f v) w
    → Settled (P × Q) (r >>= f) w
bind-Settled P Q r v f w (inl (p, e)) (inl (q, e')) = inl ((p, q), ap (λ r. r >>= f) e ∙ e')
bind-Settled P Q r v f w (inl (p, e)) (inr (n, (err, e'))) =
    inr (λ pq. n pq.1, (err, ap (λ r. r >>= f) e ∙ e'))
bind-Settled P Q r v f w (inr (n, (err, e))) _ = inr (λ pq. n pq.0, (err, ap (λ r. r >>= f) e))

-- A list that the catalog asks for is there and has the length; one that it does not ask for does
-- not matter.
abbrev pub Takes : {A : Type 0} → Option (List A) → ℕ → Type 0
Takes xs zero = Unit
Takes none (suc n) = ⊥
Takes (some xs) (suc n) = length xs ≡ suc n

pub required-Settled :
    {A B : Type 0} (xs : Option (List A)) (n : ℕ) (err : SubmitError)
    (f : Option (List A) → Thrown B) (Q : Type 0) (w : B)
    → Settled Q (f xs) w
    → Settled (Takes xs (suc n) × Q) (required xs (suc n) err >>= (λ l. f (some l))) w
required-Settled none n err f Q w s = inr (λ h. h.0, (err, refl))
required-Settled (some xs) n err f Q w s = elim (Bool-cases (length xs == suc n)) [
  | inl e ↦ rw e (
      bind-Settled (length xs ≡ suc n) Q (return xs) xs (λ l. f (some l)) w
        (inl (ground arith, refl)) s)
  | inr e ↦
      inr (λ h. let different : length xs ≢ suc n = ground arith in different h.0, (err, rw e refl))
]
