-- ===== src/Qasm/Exact.antt =====
-- `toOperation` of as many operands and parameters as the catalog says of a gate.
use mvp_qcp.Base.{
  ℕ, zero, suc, ◌+◌, ◌-◌, ◌≡◌, refl, ◌∙◌, sym, true, false, Option, none, some, List, [], ◌∷◌, ◌++◌,
  arith, length, take-append, drop-append, or_else, ltb,
}
use mvp_qcp.Gate.{
  GateName, i, x, y, z, h, sx, sy, s, sdg, t, tdg, rx, ry, rz, u, p, cx, cy, ch, cp, cz, ccx, ccz,
  swap, cswap, rxx, ryy, rzz, rzx, m, catalog_item,
}
use mvp_qcp.Circuit.{Operation}
use mvp_qcp.Template.{numbered}
use mvp_qcp.Qasm.{GateSpec}
use mvp_qcp.Qasm.Statements.{is_swap, if_any, to_operation}

-- The gates of `GATE_SPECS`.
abbrev pub IsKnown : GateName → Type 0
IsKnown sy = ⊥
IsKnown ccz = ⊥
IsKnown rxx = ⊥
IsKnown ryy = ⊥
IsKnown rzz = ⊥
IsKnown rzx = ⊥
IsKnown m = ⊥
IsKnown _ = Unit

-- There are n of what the list holds: a list that is empty is left out.
abbrev pub Exactly : {A : Type 0} → Option (List A) → ℕ → Type 0
Exactly none zero = Unit
Exactly none (suc n) = ⊥
Exactly (some xs) zero = ⊥
Exactly (some xs) (suc n) = length xs ≡ suc n

abbrev pub catalog_spec : GateName → GateSpec
catalog_spec gate = record {
  gate = gate;
  param_count = length (catalog_item gate).parameter_labels;
  operand_count = (catalog_item gate).control_count + (catalog_item gate).target_count;
  control_count = (catalog_item gate).control_count;
}

pred-suc : (k : ℕ) → suc k - 1 ≡ k
pred-suc k = omega arith

pub length-Exactly :
    {A : Type 0} (xs : Option (List A)) (n : ℕ) → Exactly xs n → length (or_else xs []) ≡ n
length-Exactly none zero e = refl
length-Exactly none (suc n) e = absurd e
length-Exactly (some xs) zero e = absurd e
length-Exactly (some xs) (suc n) e = e

if_any-Exactly :
    {A : Type 0} (xs : Option (List A)) (n : ℕ) → Exactly xs n → if_any (or_else xs []) ≡ xs
if_any-Exactly none n e = refl
if_any-Exactly (some []) zero e = absurd e
if_any-Exactly (some []) (suc n) e = absurd (omega arith)
if_any-Exactly (some (x' ∷ xs)) n e = refl

module _ {R : Type 0} where
  abbrev pub operation_of : GateName → List ℕ → Option (List ℕ) → Option (List R) → ℕ → Operation R
  operation_of gate targets controls params k =
      numbered "op-" (suc k) k
        (record { gate = gate; targets = targets; controls = controls; params = params })

-- `toOperation` gives the operands and parameters back to the gate.
abbrev pub Restores : Type 0 → GateName → Type 0
Restores R gate =
    (targets : List ℕ) (controls : Option (List ℕ)) (params : Option (List R)) (k : ℕ)
    → length targets ≡ (catalog_item gate).target_count
    → Exactly controls (catalog_item gate).control_count
    → Exactly params (length (catalog_item gate).parameter_labels)
    → to_operation gate (catalog_spec gate) (or_else params []) (or_else controls [] ++ targets)
        (suc k)
      ≡ operation_of gate targets controls params k

module _ {R : Type 0} where
  controlled-Restores :
      (gate : GateName) (sp : GateSpec) (targets : List ℕ) (controls : Option (List ℕ))
      (params : Option (List R)) (k n l : ℕ)
      → sp.control_count ≡ suc n
      → Exactly controls (suc n)
      → Exactly params l
      → to_operation gate sp (or_else params []) (or_else controls [] ++ targets) (suc k)
        ≡ operation_of gate targets controls params k
  unfolding to_operation
  controlled-Restores gate sp targets none params k n l e c' p' = absurd c'
  controlled-Restores gate sp targets (some cs) params k n l e c' p' =
      let count : sp.control_count ≡ length cs = e ∙ sym c' in
      let positive : ltb 0 (length cs) ≡ true = ground arith in
      rw
        (
          count,
          positive,
          take-append cs targets,
          drop-append cs targets,
          if_any-Exactly params l p',
          pred-suc k,
        )
        refl

  single-Restores :
      (gate : GateName) (sp : GateSpec) (targets : List ℕ) (controls : Option (List ℕ))
      (params : Option (List R)) (k l : ℕ)
      → sp.control_count ≡ 0
      → is_swap gate ≡ false
      → length targets ≡ 1
      → Exactly controls 0
      → Exactly params l
      → to_operation gate sp (or_else params []) (or_else controls [] ++ targets) (suc k)
        ≡ operation_of gate targets controls params k
  unfolding to_operation
  single-Restores gate sp targets (some cs) params k l e n' one c' p' = absurd c'
  single-Restores gate sp [] none params k l e n' one c' p' = absurd (omega arith)
  single-Restores gate sp (q ∷ r ∷ qs) none params k l e n' one c' p' = absurd (omega arith)
  single-Restores gate sp (q ∷ []) none params k l e n' one c' p' =
      rw (e, n', if_any-Exactly params l p', pred-suc k) refl

swap-Restores : (R : Type 0) → Restores R swap
unfolding to_operation catalog_item
swap-Restores R (q ∷ r ∷ []) none none k two c' p' = rw (pred-suc k) refl
swap-Restores R [] controls params k two c' p' = absurd (omega arith)
swap-Restores R (q ∷ []) controls params k two c' p' = absurd (omega arith)
swap-Restores R (q ∷ r ∷ v ∷ qs) controls params k two c' p' = absurd (omega arith)
swap-Restores R (q ∷ r ∷ []) (some cs) params k two c' p' = absurd c'
swap-Restores R (q ∷ r ∷ []) none (some ps) k two c' p' = absurd p'

pub Restores-known : (R : Type 0) (gate : GateName) → IsKnown gate → Restores R gate
unfolding catalog_item
Restores-known R i _ ts cs ps k l c' p' =
    single-Restores i (catalog_spec i) ts cs ps k 0 refl refl l c' p'
Restores-known R x _ ts cs ps k l c' p' =
    single-Restores x (catalog_spec x) ts cs ps k 0 refl refl l c' p'
Restores-known R y _ ts cs ps k l c' p' =
    single-Restores y (catalog_spec y) ts cs ps k 0 refl refl l c' p'
Restores-known R z _ ts cs ps k l c' p' =
    single-Restores z (catalog_spec z) ts cs ps k 0 refl refl l c' p'
Restores-known R h _ ts cs ps k l c' p' =
    single-Restores h (catalog_spec h) ts cs ps k 0 refl refl l c' p'
Restores-known R sx _ ts cs ps k l c' p' =
    single-Restores sx (catalog_spec sx) ts cs ps k 0 refl refl l c' p'
Restores-known R s _ ts cs ps k l c' p' =
    single-Restores s (catalog_spec s) ts cs ps k 0 refl refl l c' p'
Restores-known R sdg _ ts cs ps k l c' p' =
    single-Restores sdg (catalog_spec sdg) ts cs ps k 0 refl refl l c' p'
Restores-known R t _ ts cs ps k l c' p' =
    single-Restores t (catalog_spec t) ts cs ps k 0 refl refl l c' p'
Restores-known R tdg _ ts cs ps k l c' p' =
    single-Restores tdg (catalog_spec tdg) ts cs ps k 0 refl refl l c' p'
Restores-known R rx _ ts cs ps k l c' p' =
    single-Restores rx (catalog_spec rx) ts cs ps k 1 refl refl l c' p'
Restores-known R ry _ ts cs ps k l c' p' =
    single-Restores ry (catalog_spec ry) ts cs ps k 1 refl refl l c' p'
Restores-known R rz _ ts cs ps k l c' p' =
    single-Restores rz (catalog_spec rz) ts cs ps k 1 refl refl l c' p'
Restores-known R u _ ts cs ps k l c' p' =
    single-Restores u (catalog_spec u) ts cs ps k 3 refl refl l c' p'
Restores-known R p _ ts cs ps k l c' p' =
    single-Restores p (catalog_spec p) ts cs ps k 1 refl refl l c' p'
Restores-known R cx _ ts cs ps k l c' p' =
    controlled-Restores cx (catalog_spec cx) ts cs ps k 0 0 refl c' p'
Restores-known R cy _ ts cs ps k l c' p' =
    controlled-Restores cy (catalog_spec cy) ts cs ps k 0 0 refl c' p'
Restores-known R ch _ ts cs ps k l c' p' =
    controlled-Restores ch (catalog_spec ch) ts cs ps k 0 0 refl c' p'
Restores-known R cp _ ts cs ps k l c' p' =
    controlled-Restores cp (catalog_spec cp) ts cs ps k 0 1 refl c' p'
Restores-known R cz _ ts cs ps k l c' p' =
    controlled-Restores cz (catalog_spec cz) ts cs ps k 0 0 refl c' p'
Restores-known R ccx _ ts cs ps k l c' p' =
    controlled-Restores ccx (catalog_spec ccx) ts cs ps k 1 0 refl c' p'
Restores-known R swap _ ts cs ps k l c' p' = swap-Restores R ts cs ps k l c' p'
Restores-known R cswap _ ts cs ps k l c' p' =
    controlled-Restores cswap (catalog_spec cswap) ts cs ps k 0 0 refl c' p'
Restores-known R sy e ts cs ps k l c' p' = absurd e
Restores-known R ccz e ts cs ps k l c' p' = absurd e
Restores-known R rxx e ts cs ps k l c' p' = absurd e
Restores-known R ryy e ts cs ps k l c' p' = absurd e
Restores-known R rzz e ts cs ps k l c' p' = absurd e
Restores-known R rzx e ts cs ps k l c' p' = absurd e
Restores-known R m e ts cs ps k l c' p' = absurd e
