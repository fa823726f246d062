-- ===== src/Base/Sorting.antt =====
-- `Array.prototype.sort` with a comparator: a stable sort, by insertion from the right. `le x y`
-- stands for `compare(x, y) <= 0`.
use Prim.Native.Nat.{suc}
use mathlib.Core.Path.{◌≡◌, refl, ap, ◌∙◌}
use mathlib.Core.Bool.{Bool, true}
use mathlib.Core.Logic.{◌⊎◌, inl, inr}
use mathlib.Core.List.{List, [], ◌∷◌, map, Perm}
use mathlib.Core.List.Perm
use native.Mathlib.Omega.{arith}
use mvp_qcp.Base.Tests.{if◌then◌else◌, Bool-cases}
use mvp_qcp.Base.Lists.{length}
use mvp_qcp.Base.Quantified.{All, Pairs, All-imp}

module _ {ℓ} {A : Type ℓ} (le : A → A → Bool) where
  pub insert : A → List A → List A
  insert x [] = x ∷ []
  insert x (y ∷ ys) = let rest = insert x ys in if le x y then x ∷ y ∷ ys else y ∷ rest

  unfoldable pub sort : List A → List A
  unfolding insert
  sort [] = []
  sort (x ∷ xs) = insert x (sort xs)

  insert-perm : (x : A) (xs : List A) → Perm (insert x xs) (x ∷ xs)
  unfolding insert
  insert-perm x [] = Perm.refl _
  insert-perm x (y ∷ ys) = elim (Bool-cases (le x y)) [
    | inl e ↦ rw e (Perm.refl _)
    | inr e ↦ rw e (Perm.trans (Perm.cons y (insert-perm x ys)) (Perm.swap x y ys))
  ]

  pub sort-perm : (xs : List A) → Perm (sort xs) xs
  unfolding sort
  sort-perm [] = Perm.refl _
  sort-perm (x ∷ xs) = Perm.trans (insert-perm x (sort xs)) (Perm.cons x (sort-perm xs))

  length-insert : (x : A) (xs : List A) → length (insert x xs) ≡ length (x ∷ xs)
  unfolding insert
  length-insert x [] = refl
  length-insert x (y ∷ ys) = ground (arith, length-insert x ys)

  pub length-sort : (xs : List A) → length (sort xs) ≡ length xs
  unfolding sort
  length-sort [] = refl
  length-sort (x ∷ xs) = length-insert x (sort xs) ∙ ap suc (length-sort xs)

  -- Each element is in order with every later one.
  abbrev pub IsSorted : List A → Type 0
  IsSorted xs = Pairs (λ x y. le x y ≡ true) xs

  -- Inserting before a list that is in order already changes nothing.
  insert-least : (x : A) (xs : List A) → All (λ y. le x y ≡ true) xs → insert x xs ≡ x ∷ xs
  unfolding insert
  insert-least x [] h = refl
  insert-least x (y ∷ ys) (e, h) = rw e

  -- Sorting leaves a sorted list as it is: nothing is moved among equal keys.
  pub sort-of_IsSorted : (xs : List A) → IsSorted xs → sort xs ≡ xs
  unfolding sort
  sort-of_IsSorted [] h = refl
  sort-of_IsSorted (x ∷ xs) (b, h) = rw (sort-of_IsSorted xs h) (insert-least x xs b)

module _ {ℓ κ} {A : Type ℓ} (le : A → A → Bool) (P : A → Type κ) where
  pub All-insert : (x : A) (xs : List A) → P x → All P xs → All P (insert le x xs)
  unfolding insert
  All-insert x [] p h = (p, h)
  All-insert x (y ∷ ys) p (q, h) = elim (Bool-cases (le x y)) [
    | inl e ↦ rw e (p, (q, h))
    | inr e ↦ rw e (q, All-insert x ys p h)
  ]

  pub All-of_insert : (x : A) (xs : List A) → All P (insert le x xs) → All P (x ∷ xs)
  unfolding insert
  All-of_insert x [] h = h
  All-of_insert x (y ∷ ys) h = elim (Bool-cases (le x y)) [
    | inl e ↦ rw e at h
    | inr e ↦
        let h' : P y × All P (insert le x ys) = rw e at h in
        let rest = All-of_insert x ys h'.1 in (rest.0, (h'.0, rest.1))
  ]

  pub All-sort : (xs : List A) → All P xs → All P (sort le xs)
  unfolding sort
  All-sort [] h = tt
  All-sort (x ∷ xs) (p, h) = All-insert x (sort le xs) p (All-sort xs h)

  pub All-of_sort : (xs : List A) → All P (sort le xs) → All P xs
  unfolding sort
  All-of_sort [] h = tt
  All-of_sort (x ∷ xs) h = let (p, k) = All-of_insert x (sort le xs) h in (p, All-of_sort xs k)

-- A map that keeps the comparison commutes with sorting.
module _ {ℓ} {A : Type ℓ} (le : A → A → Bool) (f : A → A)
    (same : (x y : A) → le (f x) (f y) ≡ le x y) where
  map-insert : (x : A) (xs : List A) → map f (insert le x xs) ≡ insert le (f x) (map f xs)
  unfolding insert
  map-insert x [] = refl
  map-insert x (y ∷ ys) = elim (Bool-cases (le x y)) [
    | inl e ↦ rw (same x y, e)
    | inr e ↦ rw (same x y, e) (ap (f y ∷◌) (map-insert x ys))
  ]

  pub map-sort : (xs : List A) → map f (sort le xs) ≡ sort le (map f xs)
  unfolding sort
  map-sort [] = refl
  map-sort (x ∷ xs) = map-insert x (sort le xs) ∙ ap (insert le (f x)) (map-sort xs)

-- A relation that is symmetric holds of every two elements in any order.
module _ {ℓ κ} {A : Type ℓ} (le : A → A → Bool) (R : A → A → Type κ)
    (R_sym : (x y : A) → R x y → R y x) where
  Pairs-insert : (x : A) (xs : List A) → All (R x) xs → Pairs R xs → Pairs R (insert le x xs)
  unfolding insert
  Pairs-insert x [] b h = (tt, tt)
  Pairs-insert x (y ∷ ys) (r, b) (c, h) = elim (Bool-cases (le x y)) [
    | inl e ↦ rw e ((r, b), (c, h))
    | inr e ↦ rw e (All-insert le (R y) x ys (R_sym x y r) c, Pairs-insert x ys b h)
  ]

  Pairs-of_insert : (x : A) (xs : List A) → Pairs R (insert le x xs) → All (R x) xs × Pairs R xs
  unfolding insert
  Pairs-of_insert x [] h = (tt, tt)
  Pairs-of_insert x (y ∷ ys) h = elim (Bool-cases (le x y)) [
    | inl e ↦ rw e at h
    | inr e ↦
        let h' : All (R y) (insert le x ys) × Pairs R (insert le x ys) = rw e at h in
        let (yx, c) = All-of_insert le (R y) x ys h'.0 in
        let (b, k) = Pairs-of_insert x ys h'.1 in ((R_sym y x yx, b), (c, k))
  ]

  pub Pairs-sort : (xs : List A) → Pairs R xs → Pairs R (sort le xs)
  unfolding sort
  Pairs-sort [] h = tt
  Pairs-sort (x ∷ xs) (b, h) =
      Pairs-insert x (sort le xs) (All-sort le (R x) xs b) (Pairs-sort xs h)

  pub Pairs-of_sort : (xs : List A) → Pairs R (sort le xs) → Pairs R xs
  unfolding sort
  Pairs-of_sort [] h = tt
  Pairs-of_sort (x ∷ xs) h =
      let (b, k) = Pairs-of_insert x (sort le xs) h in
      (All-of_sort le (R x) xs b, Pairs-of_sort xs k)

-- Under a total and transitive comparator the result is in order.
module _ {ℓ} {A : Type ℓ} (le : A → A → Bool)
    (total : (x y : A) → (le x y ≡ true) ⊎ (le y x ≡ true))
    (trans : (x y z : A) → le x y ≡ true → le y z ≡ true → le x z ≡ true) where
  insert-IsSorted : (x : A) (xs : List A) → IsSorted le xs → IsSorted le (insert le x xs)
  unfolding insert
  insert-IsSorted x [] h = (tt, tt)
  insert-IsSorted x (y ∷ ys) (b, h) = elim (Bool-cases (le x y)) [
    | inl e ↦ rw e ((e, All-imp (λ z p. trans x y z e p) ys b), (b, h))
    | inr e ↦
        let yx : le y x ≡ true = ground (arith, total x y) in
        rw e (All-insert le (λ z. le y z ≡ true) x ys yx b, insert-IsSorted x ys h)
  ]

  pub sort-IsSorted : (xs : List A) → IsSorted le (sort le xs)
  unfolding sort
  sort-IsSorted [] = tt
  sort-IsSorted (x ∷ xs) = insert-IsSorted x (sort le xs) (sort-IsSorted xs)

  -- Sorting twice is sorting once.
  pub sort_idempotent : (xs : List A) → sort le (sort le xs) ≡ sort le xs
  sort_idempotent xs = sort-of_IsSorted le (sort le xs) (sort-IsSorted xs)
