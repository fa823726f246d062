-- ===== src/Base/Apart.antt =====
-- What holds of every two elements of two lists put together.
use mathlib.Core.List.{List, [], ◌∷◌, ◌++◌}
use mvp_qcp.Base.Quantified.{
  All, Pairs, All-append, All-append_left, All-append_right, All-imp, All-both, All-of_forall,
}

module _ {ℓ κ} {A : Type ℓ} (R : A → A → Type κ) where
  -- Each element of the one list and each of the other.
  abbrev pub Across : List A → List A → Type κ
  Across xs ys = All (λ x. All (R x) ys) xs

  pub Pairs-append : (xs ys : List A) → Pairs R xs → Pairs R ys → Across xs ys → Pairs R (xs ++ ys)
  Pairs-append [] ys h k c = k
  Pairs-append (x ∷ xs) ys (p, h) k (q, c) = (All-append (R x) xs ys p q, Pairs-append xs ys h k c)

  pub Pairs-of_append :
      (xs ys : List A) → Pairs R (xs ++ ys) → Pairs R xs × Pairs R ys × Across xs ys
  Pairs-of_append [] ys h = (tt, h, tt)
  Pairs-of_append (x ∷ xs) ys (p, h) =
      let (left, right, across) = Pairs-of_append xs ys h in
      ((All-append_left (R x) xs ys p, left), right, (All-append_right (R x) xs ys p, across))

  pub Across-nil : (xs : List A) → Across xs []
  Across-nil xs = All-of_forall (λ x. All (R x) []) (λ x. tt) xs

  pub Across-sym : ((x y : A) → R x y → R y x) → (xs ys : List A) → Across xs ys → Across ys xs
  Across-sym sm [] ys h = Across-nil ys
  Across-sym sm (x ∷ xs) ys (p, h) =
      All-both _ _ ys (All-imp (λ y. sm x y) ys p) (Across-sym sm xs ys h)

  pub Across-append : (xs ys zs : List A) → Across xs ys → Across xs zs → Across xs (ys ++ zs)
  Across-append [] ys zs h k = tt
  Across-append (x ∷ xs) ys zs (p, h) (q, k) =
      (All-append (R x) ys zs p q, Across-append xs ys zs h k)
