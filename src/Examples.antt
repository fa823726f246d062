-- ===== src/Examples.antt =====
-- Concrete circuits, and an order of three ids that stands in for the host's.
use mvp_qcp.Base.{
  ℕ, ◌≡◌, ◌⊎◌, Bool, true, Option, none, some, List, [], ◌∷◌, String, str_eq, arith, leb,
  if◌then◌else◌, All, refl,
}
use mvp_qcp.Gate.{GateName}
use mvp_qcp.Circuit.{Operation, CircuitModel, QubitBoundary, Collation}
use mvp_qcp.Circuit.Edit.Normal.{HasId}
mod Editing
mod Validating
mod Sorted
mod Histories
mod Placing
mod Submitting
mod Templates
mod Tracking
mod Scheduling
mod Editors
mod Canvases
mod Acting
mod Writing
mod Streaming
mod Drafting
mod Viewing

abbrev rank : String → ℕ
rank id = if str_eq id "a" then 0 else if str_eq id "b" then 1 else 2

rank_total : (x y : String) → (leb (rank x) (rank y) ≡ true) ⊎ (leb (rank y) (rank x) ≡ true)
rank_total x y = ground arith

rank_trans :
    (x y z : String)
    → leb (rank x) (rank y) ≡ true
    → leb (rank y) (rank z) ≡ true
    → leb (rank x) (rank z) ≡ true
rank_trans x y z h k = ground arith

instance abbrev by_rank : Collation
by_rank = record {
  locale_le = λ x y. leb (rank x) (rank y);
  locale_total = rank_total;
  locale_trans = rank_trans;
}

abbrev operation : String → GateName → List ℕ → Option (List ℕ) → ℕ → Operation ℕ
operation id gate targets controls layer = record {
  id = id;
  gate = gate;
  targets = targets;
  controls = controls;
  params = none;
  layer = layer;
}

-- H on qubit 0, CX from 0 to 1, a measurement of qubit 1; the list is not in order.
abbrev bell : CircuitModel ℕ
bell = record {
  num_qubits = 2;
  operations =
      operation "b" GateName.cx (1 ∷ []) (some (0 ∷ [])) 1
      ∷ operation "a" GateName.h (0 ∷ []) none 0
      ∷ operation "c" GateName.m (1 ∷ []) none 2
      ∷ [];
}

bell-HasId : All HasId bell.operations
bell-HasId = (λ e. cc, (λ e. cc, (λ e. cc, tt)))

abbrev boundary : QubitBoundary
boundary = record { min_qubits = 1; max_qubits = 32 }
