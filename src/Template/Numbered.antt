-- ===== src/Template/Numbered.antt =====
-- Operations that are added one after the other stand in layers of their own.
use mvp_qcp.Base.{ℕ, suc, ◌≡◌, ◌<◌, true, List, [], ◌∷◌, String, arith, All, All-imp, Pairs}
use mvp_qcp.Circuit.{Operation}
use mvp_qcp.Circuit.Validation.{is_measurement}
use mvp_qcp.Circuit.Validation.Distinct.{DistinctQubits}
use mvp_qcp.Circuit.Validation.Measurement.{MeasuredLast}
use mvp_qcp.Circuit.Validation.Laws.{SpansApart, IsSound}
use mvp_qcp.Template.{Added, numbered, add_all}

module _ {R : Type 0} where
  -- What holds of an operation wherever it is added.
  abbrev pub Everywhere : (Operation R → Type 0) → String → Added R → Type 0
  Everywhere P prefix a = (index layer : ℕ) → P (numbered prefix index layer a)

  pub All-add_all :
      (P : Operation R → Type 0) (prefix : String) (index layer : ℕ) (steps : List (Added R))
      → All (Everywhere P prefix) steps
      → All P (add_all prefix index layer steps)
  unfolding add_all
  All-add_all P prefix index layer [] h = tt
  All-add_all P prefix index layer (a ∷ rest) (p, h) =
      (p index layer, All-add_all P prefix (suc index) (suc layer) rest h)

  -- Of two operations, the second is a measurement if the first is.
  abbrev pub NotAfter : Added R → Added R → Type 0
  NotAfter a b = is_measurement a.gate ≡ true → is_measurement b.gate ≡ true

  abbrev Later : Operation R → Operation R → Type 0
  Later a b = (a.layer < b.layer) × (is_measurement a.gate ≡ true → is_measurement b.gate ≡ true)

  Later-than :
      (prefix : String) (a : Operation R) (index layer : ℕ) (steps : List (Added R))
      → a.layer < layer
      → All (λ b. is_measurement a.gate ≡ true → is_measurement b.gate ≡ true) steps
      → All (Later a) (add_all prefix index layer steps)
  unfolding add_all
  Later-than prefix a index layer [] l h = tt
  Later-than prefix a index layer (b ∷ rest) l (p, h) =
      ((l, p), Later-than prefix a (suc index) (suc layer) rest (omega arith) h)

  Pairs-add_all :
      (prefix : String) (index layer : ℕ) (steps : List (Added R))
      → Pairs NotAfter steps
      → Pairs Later (add_all prefix index layer steps)
  unfolding add_all
  Pairs-add_all prefix index layer [] h = tt
  Pairs-add_all prefix index layer (a ∷ rest) (p, h) = (
    Later-than prefix (numbered prefix index layer a) (suc index) (suc layer) rest (omega arith) p,
    Pairs-add_all prefix (suc index) (suc layer) rest h,
  )

  Pairs-imp :
      (P Q : Operation R → Operation R → Type 0)
      → ((a b : Operation R) → P a b → Q a b)
      → (ops : List (Operation R)) → Pairs P ops
      → Pairs Q ops
  Pairs-imp P Q f [] h = tt
  Pairs-imp P Q f (o ∷ os) (h, hs) = (All-imp (λ a. f o a) os h, Pairs-imp P Q f os hs)

  Later-MeasuredLast : (a b : Operation R) → Later a b → MeasuredLast a b
  Later-MeasuredLast a b (l, k) = (λ m n. let e = k m in cc, λ m n. l)

  -- Where no operation touches a qubit twice and the measurements are added last, the operations
  -- added are sound.
  pub add_all-IsSound :
      (prefix : String) (index layer : ℕ) (steps : List (Added R))
      → All (Everywhere DistinctQubits prefix) steps
      → Pairs NotAfter steps
      → IsSound (add_all prefix index layer steps)
  add_all-IsSound prefix index layer steps d n =
      let later = Pairs-add_all prefix index layer steps n in
      record {
        distinct = All-add_all DistinctQubits prefix index layer steps d;
        apart =
            Pairs-imp Later SpansApart (λ a b. λ (h : Later a b) e q i j. absurd (omega arith)) _
              later;
        measured_last = Pairs-imp Later MeasuredLast Later-MeasuredLast _ later;
      }
