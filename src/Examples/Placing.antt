-- ===== src/Examples/Placing.antt =====
-- The placement of a controlled gate.
use mvp_qcp.Base.{ℕ, ◌≡◌, refl, none, some, [], ◌∷◌, arith}
use mvp_qcp.Gate.{GateName}
use mvp_qcp.Circuit.Edit.{AddOperationInput}
use mvp_qcp.Placement.{PendingPlacement, create_pending_placement, advance_pending_placement}
use mvp_qcp.Placement.Shape.{MatchesCatalog}
use mvp_qcp.Placement.Laws.{place, create-place-MatchesCatalog}
use mvp_qcp.Placement.Completion.{EndsWith, create-place-EndsWith}

-- A CCX whose first control is qubit 2, dropped in layer 4.
abbrev pub pending_ccx : PendingPlacement
pending_ccx = record {
  gate = GateName.ccx;
  layer = 4;
  selected_qubits = 2 ∷ [];
  required_qubits = 3;
  control_count = 2;
  target_count = 1;
}

pub pending_ccx_lem : create_pending_placement GateName.ccx 2 4 ≡ some pending_ccx
unfolding create_pending_placement
pending_ccx_lem = refl

abbrev pub placed_ccx : AddOperationInput ℕ
placed_ccx = record {
  gate = GateName.ccx;
  layer = 4;
  targets = 1 ∷ [];
  controls = some (2 ∷ 0 ∷ []);
  params = none;
}

-- The second click repeats a qubit.
pub placed_ccx_lem : place 0 pending_ccx (0 ∷ 0 ∷ 1 ∷ []) ≡ some placed_ccx
unfolding advance_pending_placement
placed_ccx_lem = refl

create-place-MatchesCatalog_example : (placed_ccx.gate ≡ GateName.ccx) × MatchesCatalog placed_ccx
create-place-MatchesCatalog_example =
    create-place-MatchesCatalog 0 GateName.ccx 2 4 (0 ∷ 0 ∷ 1 ∷ []) pending_ccx_lem placed_ccx_lem

create-place-EndsWith_example : EndsWith {R = ℕ} 0 pending_ccx (0 ∷ 1 ∷ []) (2 ∷ 0 ∷ 1 ∷ [])
create-place-EndsWith_example =
    create-place-EndsWith 0 GateName.ccx 2 4 (0 ∷ 1 ∷ []) pending_ccx_lem
      (((λ e. omega arith), ((λ e. omega arith), tt)), (((λ e. omega arith), tt), (tt, tt))) refl
