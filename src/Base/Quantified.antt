-- ===== src/Base/Quantified.antt =====
-- What holds of every element of a list, and of every two.
use mathlib.Core.Path.{◌≡◌, refl}
use mathlib.Core.Bool.{Bool, true, false}
use mathlib.Core.Option.{none, some}
use mathlib.Core.List.{List, [], ◌∷◌, ◌++◌, map, Memᴰ}
use native.Mathlib.Omega.{arith}
use mvp_qcp.Base.Tests.{Bool-cases}
use mathlib.Core.Logic.{inl, inr}
use mvp_qcp.Base.Lists.{filter, find, any}

abbrev pub All {ℓ κ} : {A : Type ℓ} → (A → Type κ) → List A → Type κ
All P [] = Unit
All P (x ∷ xs) = P x × All P xs

-- `R` holds of each element and each later one.
abbrev pub Pairs {ℓ κ} : {A : Type ℓ} → (A → A → Type κ) → List A → Type κ
Pairs R [] = Unit
Pairs R (x ∷ xs) = All (R x) xs × Pairs R xs

module _ {ℓ κ} {A : Type ℓ} (P : A → Type κ) where
  pub All-append : (xs ys : List A) → All P xs → All P ys → All P (xs ++ ys)
  All-append [] ys h k = k
  All-append (x ∷ xs) ys (p, h) k = (p, All-append xs ys h k)

  pub All-append_left : (xs ys : List A) → All P (xs ++ ys) → All P xs
  All-append_left [] ys h = tt
  All-append_left (x ∷ xs) ys (p, h) = (p, All-append_left xs ys h)

  pub All-append_right : (xs ys : List A) → All P (xs ++ ys) → All P ys
  All-append_right [] ys h = h
  All-append_right (x ∷ xs) ys (p, h) = All-append_right xs ys h

  pub All-of_forall : ((x : A) → P x) → (xs : List A) → All P xs
  All-of_forall f [] = tt
  All-of_forall f (x ∷ xs) = (f x, All-of_forall f xs)

  pub All-mem : (xs : List A) {x : A} → All P xs → Memᴰ x xs → P x
  All-mem [] _ m = elim m [ ]
  All-mem (y ∷ ys) (p, h) (Memᴰ.head e) = rw e p
  All-mem (y ∷ ys) (p, h) (Memᴰ.tail m) = All-mem ys h m

module _ {ℓ κ ι} {A : Type ℓ} {P : A → Type κ} {Q : A → Type ι} where
  pub All-imp : ((x : A) → P x → Q x) → (xs : List A) → All P xs → All Q xs
  All-imp f [] h = tt
  All-imp f (x ∷ xs) (p, h) = (f x p, All-imp f xs h)

module _ {ℓ κ ι} {A : Type ℓ} {B : Type κ} (P : B → Type ι) (f : A → B) where
  pub All-map : (xs : List A) → All (λ x. P (f x)) xs → All P (map f xs)
  All-map [] h = tt
  All-map (x ∷ xs) (p, h) = (p, All-map xs h)

  pub All-of_map : (xs : List A) → All P (map f xs) → All (λ x. P (f x)) xs
  All-of_map [] h = tt
  All-of_map (x ∷ xs) (p, h) = (p, All-of_map xs h)

module _ {ℓ} {A : Type ℓ} where
  -- `find` returns nothing exactly when the test fails everywhere.
  pub find-none : (p : A → Bool) (xs : List A) → find p xs ≡ none → All (λ x. p x ≡ false) xs
  find-none p [] h = tt
  find-none p (x ∷ xs) h = ground (arith, find-none p xs)

  pub find_of_All : (p : A → Bool) (xs : List A) → All (λ x. p x ≡ false) xs → find p xs ≡ none
  find_of_All p [] h = refl
  find_of_All p (x ∷ xs) (e, h) = rw e (find_of_All p xs h)

  pub find-some : (p : A → Bool) (xs : List A) {x : A} → find p xs ≡ some x → p x ≡ true
  find-some p [] h = cc
  find-some p (y ∷ ys) {x} h = ground (arith, find-some p ys {x = x})

  pub any-false : (p : A → Bool) (xs : List A) → any p xs ≡ false → All (λ x. p x ≡ false) xs
  any-false p [] h = tt
  any-false p (x ∷ xs) h = ground (arith, any-false p xs)

  pub any_of_All : (p : A → Bool) (xs : List A) → All (λ x. p x ≡ false) xs → any p xs ≡ false
  any_of_All p [] h = refl
  any_of_All p (x ∷ xs) (e, h) = rw e (any_of_All p xs h)

module _ {ℓ κ ι} {A : Type ℓ} (P : A → Type κ) (Q : A → Type ι) where
  pub All-both : (xs : List A) → All P xs → All Q xs → All (λ x. P x × Q x) xs
  All-both [] h k = tt
  All-both (x ∷ xs) (p, h) (q, k) = ((p, q), All-both xs h k)

module _ {ℓ κ} {A : Type ℓ} (P : A → Type κ) (p : A → Bool) where
  pub All-filter : (xs : List A) → All (λ x. p x ≡ true → P x) xs → All P (filter p xs)
  All-filter [] h = tt
  All-filter (x ∷ xs) (q, h) = elim (Bool-cases (p x)) [
    | inl e ↦ rw e (q e, All-filter xs h)
    | inr e ↦ rw e (All-filter xs h)
  ]

  pub All-of_filter : (xs : List A) → All P (filter p xs) → All (λ x. p x ≡ true → P x) xs
  All-of_filter [] h = tt
  All-of_filter (x ∷ xs) h = elim (Bool-cases (p x)) [
    | inl e ↦ let h' : P x × All P (filter p xs) = rw e at h in (λ _. h'.0, All-of_filter xs h'.1)
    | inr e ↦ let h' : All P (filter p xs) = rw e at h in (λ e'. cc, All-of_filter xs h')
  ]

-- Every two elements in both orders, or in the one in which they stand.
module _ {ℓ κ} {A : Type ℓ} (R : A → A → Type κ) where
  pub Pairs-of_All : (xs : List A) → All (λ x. All (R x) xs) xs → Pairs R xs
  Pairs-of_All [] h = tt
  Pairs-of_All (x ∷ xs) ((_, r), h) =
      (r, Pairs-of_All xs (All-imp (λ y. λ (k : All (R y) (x ∷ xs)). k.1) xs h))

  pub All-of_Pairs :
      ((x : A) → R x x)
      → ((x y : A) → R x y → R y x)
      → (xs : List A) → Pairs R xs
      → All (λ x. All (R x) xs) xs
  All-of_Pairs rfl sm [] h = tt
  All-of_Pairs rfl sm (x ∷ xs) (r, h) =
      ((rfl x, r), All-both _ _ xs (All-imp (λ y. sm x y) xs r) (All-of_Pairs rfl sm xs h))
