-- ===== src/Gate/Lookup.antt =====
-- Reading the catalog by name.
use mvp_qcp.Base.{String, ◌≡◌, refl, Option, none, some, List, [], ◌∷◌, str_eq, if◌then◌else◌}
use mvp_qcp.Gate.{
  GateName, i, x, y, z, h, sx, sy, s, sdg, t, tdg, rx, ry, rz, u, p, cx, cy, ch, cp, cz, ccx, ccz,
  swap, cswap, rxx, ryy, rzz, rzx, m, gate_text, GateCatalogItem, get_gate_catalog, catalog_item,
}

-- `createCatalogMap`: a later item replaces an earlier one of its name.
create_catalog_map :
    List GateCatalogItem → (String → Option GateCatalogItem) → String → Option GateCatalogItem
create_catalog_map [] by_name = by_name
create_catalog_map (item ∷ rest) by_name =
    create_catalog_map rest (λ n. if str_eq (gate_text item.name) n then some item else by_name n)

-- `getGateCatalogItem`
unfoldable pub get_gate_catalog_item : GateName → Option GateCatalogItem
unfolding create_catalog_map get_gate_catalog gate_text
get_gate_catalog_item gate = create_catalog_map get_gate_catalog (λ n. none) (gate_text gate)

pub get_gate_catalog_item_lem :
    (gate : GateName) → get_gate_catalog_item gate ≡ some (catalog_item gate)
unfolding get_gate_catalog_item
get_gate_catalog_item_lem i = refl
get_gate_catalog_item_lem x = refl
get_gate_catalog_item_lem y = refl
get_gate_catalog_item_lem z = refl
get_gate_catalog_item_lem h = refl
get_gate_catalog_item_lem sx = refl
get_gate_catalog_item_lem sy = refl
get_gate_catalog_item_lem s = refl
get_gate_catalog_item_lem sdg = refl
get_gate_catalog_item_lem t = refl
get_gate_catalog_item_lem tdg = refl
get_gate_catalog_item_lem rx = refl
get_gate_catalog_item_lem ry = refl
get_gate_catalog_item_lem rz = refl
get_gate_catalog_item_lem u = refl
get_gate_catalog_item_lem p = refl
get_gate_catalog_item_lem cx = refl
get_gate_catalog_item_lem cy = refl
get_gate_catalog_item_lem ch = refl
get_gate_catalog_item_lem cp = refl
get_gate_catalog_item_lem cz = refl
get_gate_catalog_item_lem ccx = refl
get_gate_catalog_item_lem ccz = refl
get_gate_catalog_item_lem swap = refl
get_gate_catalog_item_lem cswap = refl
get_gate_catalog_item_lem rxx = refl
get_gate_catalog_item_lem ryy = refl
get_gate_catalog_item_lem rzz = refl
get_gate_catalog_item_lem rzx = refl
get_gate_catalog_item_lem m = refl
