-- ===== src/Task/Stream/Blocks.antt =====
-- How a text divides into blocks, piece by piece.
use mvp_qcp.Base.{
  ℕ, ◌≡◌, refl, ap, sym, ◌∙◌, true, false, ◌&&◌, Bool-cases, inl, inr, ◌⊎◌, List, [], ◌∷◌, ◌++◌,
  ◌==◌,
}
use mvp_qcp.Task.Stream.{Text, newline, prefixed, split_blocks}

-- What is complete of a text, and then what is complete of the rest with more text behind it.
abbrev pub then_split : List Text × Text → Text → List Text × Text
then_split (blocks, rest) more =
    let (more_blocks, last) = split_blocks (rest ++ more) in (blocks ++ more_blocks, last)

abbrev cut : List Text × Text → List Text × Text
cut (blocks, rest) = ([] ∷ blocks, rest)

-- Two newlines end a block.
split-cut :
    (c d : ℕ) (text : Text)
    → (c == newline && d == newline) ≡ true
    → split_blocks (c ∷ d ∷ text) ≡ cut (split_blocks text)
unfolding split_blocks
split-cut c d text e = rw (e, split_blocks) refl

split-prefixed :
    (c d : ℕ) (text : Text)
    → (c == newline && d == newline) ≡ false
    → split_blocks (c ∷ d ∷ text) ≡ prefixed c (split_blocks (d ∷ text))
unfolding split_blocks
split-prefixed c d text e = rw (e, split_blocks) refl

prefixed-nil : (c : ℕ) (p : List Text × Text) → (prefixed c p).0 ≡ [] → p.0 ≡ []
prefixed-nil c ([], rest) e = refl
prefixed-nil c (block ∷ blocks, rest) e = cc

-- A text without a complete block is the rest.
split-whole : (text : Text) → (split_blocks text).0 ≡ [] → split_blocks text ≡ ([], text)
unfolding split_blocks
split-whole [] e = refl
split-whole (c ∷ []) e = refl
split-whole (c ∷ d ∷ text) e = elim (Bool-cases (c == newline && d == newline)) [
  | inl t ↦
      let some_block : [] ∷ (split_blocks text).0 ≡ [] =
        ap (λ p. p.0) (sym (split-cut c d text t)) ∙ e in
      cc
  | inr t ↦
      let none_later = prefixed-nil c _ (ap (λ p. p.0) (sym (split-prefixed c d text t)) ∙ e) in
      split-prefixed c d text t ∙ ap (prefixed c) (split-whole (d ∷ text) none_later)
]

List-cases : {A : Type 0} (xs : List A) → (xs ≡ []) ⊎ ((y : A) × (ys : List A) × (xs ≡ y ∷ ys))
List-cases [] = inl refl
List-cases (x ∷ xs) = inr (x, xs, refl)

then_split-prefixed :
    (c : ℕ) (p : List Text × Text) (more : Text) {block : Text} {blocks : List Text}
    → p.0 ≡ block ∷ blocks
    → prefixed c (then_split p more) ≡ then_split (prefixed c p) more
then_split-prefixed c ([], rest) more e = cc
then_split-prefixed c (block ∷ blocks, rest) more e = refl

-- Text that comes later does not change the blocks that are complete.
pub split_blocks-append :
    (text more : Text) → split_blocks (text ++ more) ≡ then_split (split_blocks text) more
unfolding split_blocks
split_blocks-append [] more = refl
split_blocks-append (c ∷ []) more = refl
split_blocks-append (c ∷ d ∷ text) more = elim (Bool-cases (c == newline && d == newline)) [
  | inl e ↦
      split-cut c d (text ++ more) e
      ∙ (ap cut (split_blocks-append text more)
          ∙ ap (λ p. then_split p more) (sym (split-cut c d text e)))
  | inr e ↦ elim (List-cases (split_blocks (d ∷ text)).0) [
    | inl none_later ↦
        let whole : split_blocks (c ∷ d ∷ text) ≡ ([], c ∷ d ∷ text) =
          split-prefixed c d text e ∙ ap (prefixed c) (split-whole (d ∷ text) none_later) in
        ap (λ p. then_split p more) (sym whole)
    | inr (block, blocks, some_later) ↦
        split-prefixed c d (text ++ more) e
        ∙ (ap (prefixed c) (split_blocks-append (d ∷ text) more)
            ∙ (then_split-prefixed c (split_blocks (d ∷ text)) more some_later
                ∙ ap (λ p. then_split p more) (sym (split-prefixed c d text e))))
  ]
]

prefixed-rest :
    (c : ℕ) (p : List Text × Text) {block : Text} {blocks : List Text}
    → p.0 ≡ block ∷ blocks
    → (prefixed c p).1 ≡ p.1
prefixed-rest c ([], rest) e = cc
prefixed-rest c (block ∷ blocks, rest) e = refl

-- The rest holds no complete block.
pub split-rest : (text : Text) → split_blocks (split_blocks text).1 ≡ ([], (split_blocks text).1)
unfolding split_blocks
split-rest [] = refl
split-rest (c ∷ []) = refl
split-rest (c ∷ d ∷ text) = elim (Bool-cases (c == newline && d == newline)) [
  | inl e ↦ rw (ap (λ p. p.1) (split-cut c d text e)) (split-rest text)
  | inr e ↦ elim (List-cases (split_blocks (d ∷ text)).0) [
    | inl none_later ↦
        let whole : split_blocks (c ∷ d ∷ text) ≡ ([], c ∷ d ∷ text) =
          split-prefixed c d text e ∙ ap (prefixed c) (split-whole (d ∷ text) none_later) in
        let rest : (split_blocks (c ∷ d ∷ text)).1 ≡ c ∷ d ∷ text = ap (λ p. p.1) whole in
        rw rest whole
    | inr (block, blocks, some_later) ↦
        let rest : (split_blocks (c ∷ d ∷ text)).1 ≡ (split_blocks (d ∷ text)).1 =
          ap (λ p. p.1) (split-prefixed c d text e)
          ∙ prefixed-rest c (split_blocks (d ∷ text)) some_later in
        rw rest (split-rest (d ∷ text))
  ]
]
