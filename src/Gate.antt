-- ===== src/Gate.antt =====
-- The gates of the workbench: `GateName` of frontend/src/features/circuit/model/types.ts and the
-- catalog of frontend/src/features/circuit/gates/gate-catalog.ts.
pub mod Lookup
pub mod Every
use mvp_qcp.Base.{ℕ, String, List, [], ◌∷◌, map}

pub data GateName : Type 0 where
  i x y z h sx sy s sdg t tdg rx ry rz u p cx cy ch cp cz ccx ccz swap cswap rxx ryy rzz rzx m :
      GateName

-- The string that the name is in the source.
unfoldable pub gate_text : GateName → String
gate_text i = "i"
gate_text x = "x"
gate_text y = "y"
gate_text z = "z"
gate_text h = "h"
gate_text sx = "sx"
gate_text sy = "sy"
gate_text s = "s"
gate_text sdg = "sdg"
gate_text t = "t"
gate_text tdg = "tdg"
gate_text rx = "rx"
gate_text ry = "ry"
gate_text rz = "rz"
gate_text u = "u"
gate_text p = "p"
gate_text cx = "cx"
gate_text cy = "cy"
gate_text ch = "ch"
gate_text cp = "cp"
gate_text cz = "cz"
gate_text ccx = "ccx"
gate_text ccz = "ccz"
gate_text swap = "swap"
gate_text cswap = "cswap"
gate_text rxx = "rxx"
gate_text ryy = "ryy"
gate_text rzz = "rzz"
gate_text rzx = "rzx"
gate_text m = "m"

pub data GateCategory : Type 0 where
  single controlled entangling measurement : GateCategory

pub data GatePlacementKind : Type 0 where
  single two_qubit multi_control : GatePlacementKind

pub record GateCatalogItem : Type 0 where
  pub name : GateName
  pub label : String
  pub category : GateCategory
  pub color_token : String
  pub parameter_labels : List String
  pub placement_kind : GatePlacementKind
  pub control_count : ℕ
  pub target_count : ℕ

-- `CATEGORY_COLORS`, which `getGateCategoryColor` reads.
unfoldable pub get_gate_category_color : GateCategory → String
get_gate_category_color GateCategory.single = "#1d4ed8"
get_gate_category_color GateCategory.controlled = "#15803d"
get_gate_category_color GateCategory.entangling = "#b45309"
get_gate_category_color GateCategory.measurement = "#4b5563"

item : GateName → String → GateCategory → List String → GatePlacementKind → ℕ → ℕ → GateCatalogItem
unfolding get_gate_category_color
item n l c ps k controls targets = record {
  name = n;
  label = l;
  category = c;
  color_token = get_gate_category_color c;
  parameter_labels = ps;
  placement_kind = k;
  control_count = controls;
  target_count = targets;
}

-- The row of each gate in `GATE_CATALOG`.
unfoldable pub catalog_item : GateName → GateCatalogItem
unfolding item
catalog_item i = item i "I" GateCategory.single [] GatePlacementKind.single 0 1
catalog_item x = item x "X" GateCategory.single [] GatePlacementKind.single 0 1
catalog_item y = item y "Y" GateCategory.single [] GatePlacementKind.single 0 1
catalog_item z = item z "Z" GateCategory.single [] GatePlacementKind.single 0 1
catalog_item h = item h "H" GateCategory.single [] GatePlacementKind.single 0 1
catalog_item sx = item sx "SX" GateCategory.single [] GatePlacementKind.single 0 1
catalog_item sy = item sy "√Y" GateCategory.single [] GatePlacementKind.single 0 1
catalog_item s = item s "S" GateCategory.single [] GatePlacementKind.single 0 1
catalog_item sdg = item sdg "SDG" GateCategory.single [] GatePlacementKind.single 0 1
catalog_item t = item t "T" GateCategory.single [] GatePlacementKind.single 0 1
catalog_item tdg = item tdg "TDG" GateCategory.single [] GatePlacementKind.single 0 1
catalog_item rx = item rx "RX" GateCategory.single ("theta" ∷ []) GatePlacementKind.single 0 1
catalog_item ry = item ry "RY" GateCategory.single ("theta" ∷ []) GatePlacementKind.single 0 1
catalog_item rz = item rz "RZ" GateCategory.single ("theta" ∷ []) GatePlacementKind.single 0 1
catalog_item u =
    item u "U" GateCategory.single ("theta" ∷ "phi" ∷ "lambda" ∷ []) GatePlacementKind.single 0 1
catalog_item p = item p "P" GateCategory.single ("lambda" ∷ []) GatePlacementKind.single 0 1
catalog_item cx = item cx "CX" controlled [] two_qubit 1 1
catalog_item cy = item cy "CY" controlled [] two_qubit 1 1
catalog_item ch = item ch "CH" controlled [] two_qubit 1 1
catalog_item cp = item cp "CP" controlled ("lambda" ∷ []) two_qubit 1 1
catalog_item cz = item cz "CZ" controlled [] two_qubit 1 1
catalog_item ccx = item ccx "CCX" controlled [] multi_control 2 1
catalog_item ccz = item ccz "CCZ" controlled [] multi_control 2 1
catalog_item swap = item swap "SWAP" controlled [] two_qubit 0 2
catalog_item cswap = item cswap "CSWAP" controlled [] multi_control 1 2
catalog_item rxx = item rxx "RXX" entangling ("theta" ∷ []) two_qubit 0 2
catalog_item ryy = item ryy "RYY" entangling ("theta" ∷ []) two_qubit 0 2
catalog_item rzz = item rzz "RZZ" entangling ("theta" ∷ []) two_qubit 0 2
catalog_item rzx = item rzx "RZX" entangling ("theta" ∷ []) two_qubit 0 2
catalog_item m = item m "M" measurement [] GatePlacementKind.single 0 1

abbrev pub all_gates : List GateName
all_gates =
    i ∷ x ∷ y ∷ z ∷ h ∷ sx ∷ sy ∷ s ∷ sdg ∷ t ∷ tdg ∷ rx ∷ ry ∷ rz ∷ u ∷ p ∷ cx ∷ cy ∷ ch ∷ cp ∷ cz
    ∷ ccx ∷ ccz ∷ swap ∷ cswap ∷ rxx ∷ ryy ∷ rzz ∷ rzx ∷ m ∷ []

-- `getGateCatalog`
unfoldable pub get_gate_catalog : List GateCatalogItem
unfolding catalog_item
get_gate_catalog = map catalog_item all_gates
