-- ===== src/Placement/Shape.antt =====
-- The operation that is built when all qubits are selected.
use mvp_qcp.Base.{
  ℕ, zero, suc, ◌+◌, ◌≡◌, ◌≢◌, refl, sym, ap, true, false, none, some, List, [], ◌∷◌, ◌++◌, arith,
  length, take, drop, includes, ltb, ◌==◌, ==_iff, if◌then◌else◌, or_else, All, All-imp, any-false,
  any_of_All, length-take, length-drop, take-append-drop,
}
use mvp_qcp.Base.Apart.{Pairs-append, Pairs-of_append, Across-sym}
use mvp_qcp.Gate.{GateName, catalog_item}
use mvp_qcp.Gate.Every.{every_gate}
use mvp_qcp.Circuit.Edit.{AddOperationInput}
use mvp_qcp.Circuit.Validation.Distinct.{AllDistinct}
use mvp_qcp.Placement.{PendingPlacement, get_default_params, build_operation_from_pending}

module _ {R : Type 0} where
  -- The operation has as many targets, controls and parameters as the catalog says, and touches no
  -- qubit twice.
  pub record MatchesCatalog (o : AddOperationInput R) : Type 0 where
    pub targets_count : length o.targets ≡ (catalog_item o.gate).target_count
    pub controls_count : length (or_else o.controls []) ≡ (catalog_item o.gate).control_count
    pub params_count : length (or_else o.params []) ≡ length (catalog_item o.gate).parameter_labels
    pub distinct : AllDistinct (o.targets ++ or_else o.controls [])

  default-params-test :
      (initial : R) (gate : GateName)
      → (length (or_else (get_default_params initial gate) [])
          == length (catalog_item gate).parameter_labels)
        ≡ true
  unfolding get_default_params catalog_item
  default-params-test initial gate =
      every_gate
        (λ g.
          length (or_else (get_default_params initial g) [])
          == length (catalog_item g).parameter_labels)
        refl gate

includes-false : (q : ℕ) (qs : List ℕ) → includes q qs ≡ false → All (λ p. p ≢ q) qs
includes-false q qs e =
    All-imp (λ p. λ (k : (p == q) ≡ false). ground arith) qs (any-false (λ p. p == q) qs e)

pub includes-of_All : (q : ℕ) (qs : List ℕ) → All (λ p. p ≢ q) qs → includes q qs ≡ false
includes-of_All q qs h =
    any_of_All (λ p. p == q) qs (All-imp (λ p. λ (k : p ≢ q). ground arith) qs h)

pub distinct-last :
    (q : ℕ) (qs : List ℕ) → AllDistinct qs → includes q qs ≡ false → AllDistinct (qs ++ q ∷ [])
distinct-last q qs h e =
    Pairs-append ◌≢◌ qs (q ∷ []) h (tt, tt)
      (All-imp (λ p. λ (k : p ≢ q). (k, tt)) qs (includes-false q qs e))

distinct-swap : (xs ys : List ℕ) → AllDistinct (xs ++ ys) → AllDistinct (ys ++ xs)
distinct-swap xs ys h =
    let (left, right, across) = Pairs-of_append ◌≢◌ xs ys h in
    Pairs-append ◌≢◌ ys xs right left (Across-sym ◌≢◌ (λ x y n e. n (sym e)) xs ys across)

-- A list that is given where it is not empty.
pub or_else-given : (xs : List ℕ) → or_else (if ltb 0 (length xs) then some xs else none) [] ≡ xs
or_else-given [] = refl
or_else-given (x ∷ xs) = let e : ltb 0 (length (x ∷ xs)) ≡ true = ground arith in rw e refl

pub take_all : (n : ℕ) (qs : List ℕ) → n ≡ length qs → take n qs ≡ qs
take_all zero [] e = refl
take_all zero (q ∷ qs) e = absurd (omega arith)
take_all (suc n) [] e = refl
take_all (suc n) (q ∷ qs) e = ap (q ∷◌) (take_all n qs (omega arith))

module _ {R : Type 0} (initial : R) where
  pub build-MatchesCatalog :
      (pending : PendingPlacement)
      → pending.control_count ≡ (catalog_item pending.gate).control_count
      → pending.target_count ≡ (catalog_item pending.gate).target_count
      → length pending.selected_qubits ≡ pending.control_count + pending.target_count
      → AllDistinct pending.selected_qubits
      → MatchesCatalog (build_operation_from_pending initial pending)
  unfolding build_operation_from_pending
  build-MatchesCatalog pending ec et full distinct =
      let qs = pending.selected_qubits in
      let cn = pending.control_count in
      let tn = pending.target_count in
      record {
        targets_count = omega (arith, length-take tn (drop cn qs), length-drop cn qs, et, full);
        controls_count =
            rw (or_else-given (take cn qs)) (omega (arith, length-take cn qs, ec, full));
        params_count =
            (==_iff (length (or_else (get_default_params initial pending.gate) []))
                (length (catalog_item pending.gate).parameter_labels)).0
              (default-params-test initial pending.gate);
        distinct =
            rw
              (
                or_else-given (take cn qs),
                take_all tn (drop cn qs) (omega (arith, length-drop cn qs, full)),
              )
              (distinct-swap (take cn qs) (drop cn qs) (rw (take-append-drop cn qs) distinct));
      }
