-- ===== src/Circuit/Validation/Cells.antt =====
-- The second check: two operations with different ids do not hold one cell.
use mvp_qcp.Base.{
  ℕ, ◌≡◌, ◌≢◌, ◌⊎◌, refl, sym, true, false, ◌&&◌, List, [], ◌∷◌, String, eq_iff, arith, All,
  All-imp, All-both, All-of_forall, Pairs, includes, ◌==◌, if◌then◌else◌, Bool-cases, Option-cases,
  none, some, inl, inr,
}
use mvp_qcp.Circuit.{Operation}
use mvp_qcp.Circuit.Edit.Normal.{HasId}
use mvp_qcp.Circuit.Validation.{
  Cell, holder_of, is_taken, Scan, conflict, clear, occupy, scan_cells, to_occupied_qubits,
}

-- The cell is free, or held under the id.
abbrev FreeFor : List Cell → ℕ → ℕ → String → Type 0
FreeFor cells l q id = (holder_of cells l q ≡ none) ⊎ (holder_of cells l q ≡ some id)

-- No cell is held under the empty id.
abbrev Named : List Cell → Type 0
Named cells = All (λ c. c.holder ≢ "") cells

holder-Named :
    (cells : List Cell) (l q : ℕ) {id : String}
    → Named cells
    → holder_of cells l q ≡ some id
    → id ≢ ""
unfolding holder_of
holder-Named [] l q h e = cc
holder-Named (c ∷ cs) l q {id} (p, h) e = ground (arith, holder-Named cs l q {id = id} h)

free_test :
    (cells : List Cell) (l q : ℕ) (id : String)
    → Named cells
    → is_taken (holder_of cells l q) id ≡ false
    → FreeFor cells l q id
free_test cells l q id h e = elim (Option-cases (holder_of cells l q)) [
  | inl free ↦ inl free
  | inr (s, held) ↦ ground (arith, eq_iff s "", eq_iff s id, holder-Named cells l q {id = s} h held)
]

untaken :
    (cells : List Cell) (l q : ℕ) (id : String)
    → FreeFor cells l q id
    → is_taken (holder_of cells l q) id ≡ false
untaken cells l q id (inl free) = rw free
untaken cells l q id (inr held) = rw held (ground (arith, eq_iff id "", eq_iff id id))

pub Scan-cases :
    (s : Scan)
    → ((c : List Cell) × (s ≡ clear c))
      ⊎ ((l : ℕ) × (q : ℕ) × (id : String) × (s ≡ conflict l q id))
Scan-cases (clear c) = inl (c, refl)
Scan-cases (conflict l q id) = inr (l, q, id, refl)

module _ {R : Type 0} where
  abbrev cell : Operation R → ℕ → Cell
  cell o q = record { layer = o.layer; qubit = q; holder = o.id }

  -- The map after one operation has marked its qubits.
  abbrev mark : Operation R → List ℕ → List Cell → List Cell
  mark o [] cells = cells
  mark o (q ∷ qs) cells = mark o qs (cell o q ∷ cells)

  mark-Named :
      (o : Operation R) (qs : List ℕ) (cells : List Cell)
      → HasId o
      → Named cells
      → Named (mark o qs cells)
  mark-Named o [] cells p h = h
  mark-Named o (q ∷ qs) cells p h = mark-Named o qs (cell o q ∷ cells) p (p, h)

  -- A marked cell is held by the operation, and the other cells are as before.
  holder-mark :
      (o : Operation R) (qs : List ℕ) (cells : List Cell) (l q : ℕ)
      → holder_of (mark o qs cells) l q
        ≡ (if o.layer == l && includes q qs then some o.id else holder_of cells l q)
  unfolding holder_of
  holder-mark o [] cells l q = ground arith
  holder-mark o (p ∷ ps) cells l q = ground (arith, holder-mark o ps (cell o p ∷ cells) l q)

  FreeFor-cell :
      (o : Operation R) (q q' : ℕ) (cells : List Cell)
      → FreeFor cells o.layer q' o.id
      → FreeFor (cell o q ∷ cells) o.layer q' o.id
  unfolding holder_of
  FreeFor-cell o q q' cells f = ground arith

  FreeFor-of_cell :
      (o : Operation R) (q q' : ℕ) (cells : List Cell)
      → FreeFor cells o.layer q o.id
      → ((q == q') ≡ false → FreeFor (cell o q ∷ cells) o.layer q' o.id)
      → FreeFor cells o.layer q' o.id
  unfolding holder_of
  FreeFor-of_cell o q q' cells f g = elim (Bool-cases (q == q')) [
    | inl same ↦ let e : q ≡ q' = ground arith in rw e at f
    | inr other ↦ ground (arith, g other)
  ]

  -- One operation passes exactly when each of its cells is free for it.
  occupy-clear :
      (o : Operation R) (qs : List ℕ) (cells : List Cell)
      → HasId o
      → Named cells
      → ((q : ℕ) → includes q qs ≡ true → FreeFor cells o.layer q o.id)
      → occupy o qs cells ≡ clear (mark o qs cells)
  unfolding occupy
  occupy-clear o [] cells p h f = refl
  occupy-clear o (q ∷ qs) cells p h f = rw (untaken cells o.layer q o.id (f q (ground arith))) (
      occupy-clear o qs (cell o q ∷ cells) p (p, h)
        (λ q' i. FreeFor-cell o q q' cells (f q' (ground arith))))

  occupy-FreeFor :
      (o : Operation R) (qs : List ℕ) (cells cells' : List Cell)
      → HasId o
      → Named cells
      → occupy o qs cells ≡ clear cells'
      → (cells' ≡ mark o qs cells) × ((q : ℕ) → includes q qs ≡ true → FreeFor cells o.layer q o.id)
  unfolding occupy
  occupy-FreeFor o [] cells cells' p h e = (cc, λ q i. cc)
  occupy-FreeFor o (q ∷ qs) cells cells' p h e =
      elim (Bool-cases (is_taken (holder_of cells o.layer q) o.id)) [
        | inl taken ↦ let e' : conflict o.layer q o.id ≡ clear cells' = rw taken at e in cc
        | inr free ↦
            let (same, rest) =
              occupy-FreeFor o qs (cell o q ∷ cells) cells' p (p, h) (rw free at e) in
            let here = free_test cells o.layer q o.id h free in
            (same, λ q' i. FreeFor-of_cell o q q' cells here (λ j. rest q' (ground arith)))
      ]

  abbrev Holds : Operation R → ℕ → Type 0
  Holds o q = includes q (to_occupied_qubits o) ≡ true

  -- Two operations that hold one cell have one id.
  abbrev pub NoConflict : Operation R → Operation R → Type 0
  NoConflict a b = a.layer ≡ b.layer → (q : ℕ) → Holds a q → Holds b q → a.id ≡ b.id

  pub NoConflict-sym : (a b : Operation R) → NoConflict a b → NoConflict b a
  NoConflict-sym a b h e q i j = sym (h (sym e) q j i)

  abbrev Agrees : List Cell → Operation R → Type 0
  Agrees cells o = (q : ℕ) → Holds o q → FreeFor cells o.layer q o.id

  pub Agrees-at_first : (ops : List (Operation R)) → All (Agrees []) ops
  unfolding holder_of
  Agrees-at_first ops = All-of_forall (Agrees []) (λ o q i. inl refl) ops

  abbrev marked : Operation R → List Cell → List Cell
  marked o cells = mark o (to_occupied_qubits o) cells

  -- After one operation has marked its cells, another agrees exactly when it agreed before and does
  -- not conflict with the one.
  Agrees-of_marked :
      (o a : Operation R) (cells : List Cell)
      → Agrees cells o
      → Agrees (marked o cells) a
      → Agrees cells a × NoConflict o a
  Agrees-of_marked o a cells f g = (
    λ q i. ground (arith, g q i, f q, holder-mark o (to_occupied_qubits o) cells a.layer q),
    λ e q i j. ground (arith, g q j, holder-mark o (to_occupied_qubits o) cells a.layer q),
  )

  Agrees-marked :
      (o a : Operation R) (cells : List Cell)
      → Agrees cells a
      → NoConflict o a
      → Agrees (marked o cells) a
  Agrees-marked o a cells f n q i = ground (
    arith,
    f q i,
    λ (e : o.layer ≡ a.layer) (h : Holds o q). n e q h i,
    holder-mark o (to_occupied_qubits o) cells a.layer q,
  )

  -- The scan finds no conflict exactly when each operation agrees with the cells held before, and
  -- no two operations conflict.
  pub scan-Agrees :
      (ops : List (Operation R)) (cells cells' : List Cell)
      → All HasId ops
      → Named cells
      → scan_cells ops cells ≡ clear cells'
      → All (Agrees cells) ops × Pairs NoConflict ops
  unfolding scan_cells
  scan-Agrees [] cells cells' p h e = (tt, tt)
  scan-Agrees (o ∷ os) cells cells' (p, ps) h e =
      elim (Scan-cases (occupy o (to_occupied_qubits o) cells)) [
        | inl (c, passed) ↦
            let (same, f) = occupy-FreeFor o (to_occupied_qubits o) cells c p h passed in
            let rest : scan_cells os (marked o cells) ≡ clear cells' =
              rw same at (rw (passed, scan_cells) at e) in
            let (later, pairs) =
              scan-Agrees os (marked o cells) cells' ps
                (mark-Named o (to_occupied_qubits o) cells p h) rest in
            (
              (f, All-imp (λ a g. (Agrees-of_marked o a cells f g).0) os later),
              (All-imp (λ a g. (Agrees-of_marked o a cells f g).1) os later, pairs),
            )
        | inr (l, q, id, stopped) ↦
            let e' : conflict l q id ≡ clear cells' = rw (stopped, scan_cells) at e in cc
      ]

  pub Agrees-scan :
      (ops : List (Operation R)) (cells : List Cell)
      → All HasId ops
      → Named cells
      → All (Agrees cells) ops
      → Pairs NoConflict ops
      → (cells' : List Cell) × (scan_cells ops cells ≡ clear cells')
  unfolding scan_cells
  Agrees-scan [] cells p h f n = (cells, refl)
  Agrees-scan (o ∷ os) cells (p, ps) h (f, fs) (n, ns) =
      let passed = occupy-clear o (to_occupied_qubits o) cells p h f in
      let (cells', e) =
        Agrees-scan os (marked o cells) ps (mark-Named o (to_occupied_qubits o) cells p h)
          (All-imp (λ a. λ (g : Agrees cells a × NoConflict o a). Agrees-marked o a cells g.0 g.1)
            os (All-both _ _ os fs n))
          ns in
      (cells', rw (passed, scan_cells) e)
