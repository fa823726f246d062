-- ===== src/Circuit.antt =====
-- The circuit that the workbench edits: frontend/src/features/circuit/model/types.ts, constants.ts,
-- and the comparator `sortOperations`, of which circuit-model.ts, circuit-validation.ts,
-- circuit-task-submit.ts, qasm-bridge.ts, workbench-time-step.ts and workbench-model-utils.ts each
-- hold a copy.
use mvp_qcp.Base.{
  ℕ, ◌≡◌, ◌⊎◌, ◌<◌, Bool, true, false, Option, List, ◌++◌, String, arith, ltb, ==_iff, ◌==◌, inl,
  inr, or_else, if◌then◌else◌, ltb→lt, lt→ltb, All, [],
}
use mvp_qcp.Base.Sorting.{sort}
use mvp_qcp.Gate.{GateName}
pub mod Order
pub mod Edit
pub mod Validation

-- `R` is the type of a gate's parameters, the floating-point numbers of the source.
pub record Operation (R : Type 0) : Type 0 where
  pub id : String
  pub gate : GateName
  pub targets : List ℕ
  pub controls : Option (List ℕ)
  pub params : Option (List R)
  pub layer : ℕ

pub record CircuitModel (R : Type 0) : Type 0 where
  pub num_qubits : ℕ
  pub operations : List (Operation R)

pub record QubitBoundary : Type 0 where
  pub min_qubits : ℕ
  pub max_qubits : ℕ

abbrev pub local_sim_max_qubits : ℕ
local_sim_max_qubits = 10

abbrev pub editor_min_qubits : ℕ
editor_min_qubits = 1

abbrev pub editor_max_qubits : ℕ
editor_max_qubits = 32

abbrev pub max_depth : ℕ
max_depth = 200

abbrev pub max_gates : ℕ
max_gates = 1000

-- The host's `String.prototype.localeCompare`: `locale_le a b` stands for
-- `a.localeCompare(b) <= 0`. ECMA-402 makes it a consistent total preorder; two texts that differ
-- may compare as equal.
pub record Collation : Type 0 where
  pub locale_le : String → String → Bool
  pub locale_total : (a b : String) → (locale_le a b ≡ true) ⊎ (locale_le b a ≡ true)
  pub locale_trans :
      (a b c : String) → locale_le a b ≡ true → locale_le b c ≡ true → locale_le a c ≡ true

-- `[...operation.targets, ...(operation.controls ?? [])]`
abbrev pub touched_qubits : {R : Type 0} → Operation R → List ℕ
touched_qubits o = o.targets ++ or_else o.controls []

-- Every qubit that an operation of the circuit touches is one of the circuit's.
abbrev pub InRange : {R : Type 0} → CircuitModel R → Type 0
InRange m = All (λ o. All (λ q. q < m.num_qubits) (touched_qubits o)) m.operations

module _ ⦃c : Collation⦄ {R : Type 0} where
  -- The comparator: by layer, then by `localeCompare` of the ids.
  unfoldable pub in_order : Operation R → Operation R → Bool
  in_order a b = if a.layer == b.layer then c.locale_le a.id b.id else ltb a.layer b.layer

  unfoldable pub sort_operations : List (Operation R) → List (Operation R)
  unfolding in_order sort
  sort_operations operations = sort in_order operations
