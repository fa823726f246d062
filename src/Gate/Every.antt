-- ===== src/Gate/Every.antt =====
-- A test that every gate passes.
use mvp_qcp.Base.{Bool, true, ◌≡◌, List, [], ◌∷◌, all, arith, All}
use mvp_qcp.Gate.{
  GateName, i, x, y, z, h, sx, sy, s, sdg, t, tdg, rx, ry, rz, u, p, cx, cy, ch, cp, cz, ccx, ccz,
  swap, cswap, rxx, ryy, rzz, rzx, m, all_gates,
}

All-of_all :
    (f : GateName → Bool) (gates : List GateName) → all f gates ≡ true → All (λ g. f g ≡ true) gates
All-of_all f [] e = tt
All-of_all f (gate ∷ gates) e = ground (arith, All-of_all f gates)

-- `all_gates` has each gate.
pub every_gate : (f : GateName → Bool) → all f all_gates ≡ true → (gate : GateName) → f gate ≡ true
every_gate f e gate = go gate
  where
    tests : All (λ g. f g ≡ true) all_gates
    tests = All-of_all f all_gates e

    go : (gate : GateName) → f gate ≡ true
    go i = tests.0
    go x = tests.1.0
    go y = tests.1.1.0
    go z = tests.1.1.1.0
    go h = tests.1.1.1.1.0
    go sx = tests.1.1.1.1.1.0
    go sy = tests.1.1.1.1.1.1.0
    go s = tests.1.1.1.1.1.1.1.0
    go sdg = tests.1.1.1.1.1.1.1.1.0
    go t = tests.1.1.1.1.1.1.1.1.1.0
    go tdg = tests.1.1.1.1.1.1.1.1.1.1.0
    go rx = tests.1.1.1.1.1.1.1.1.1.1.1.0
    go ry = tests.1.1.1.1.1.1.1.1.1.1.1.1.0
    go rz = tests.1.1.1.1.1.1.1.1.1.1.1.1.1.0
    go u = tests.1.1.1.1.1.1.1.1.1.1.1.1.1.1.0
    go p = tests.1.1.1.1.1.1.1.1.1.1.1.1.1.1.1.0
    go cx = tests.1.1.1.1.1.1.1.1.1.1.1.1.1.1.1.1.0
    go cy = tests.1.1.1.1.1.1.1.1.1.1.1.1.1.1.1.1.1.0
    go ch = tests.1.1.1.1.1.1.1.1.1.1.1.1.1.1.1.1.1.1.0
    go cp = tests.1.1.1.1.1.1.1.1.1.1.1.1.1.1.1.1.1.1.1.0
    go cz = tests.1.1.1.1.1.1.1.1.1.1.1.1.1.1.1.1.1.1.1.1.0
    go ccx = tests.1.1.1.1.1.1.1.1.1.1.1.1.1.1.1.1.1.1.1.1.1.0
    go ccz = tests.1.1.1.1.1.1.1.1.1.1.1.1.1.1.1.1.1.1.1.1.1.1.0
    go swap = tests.1.1.1.1.1.1.1.1.1.1.1.1.1.1.1.1.1.1.1.1.1.1.1.0
    go cswap = tests.1.1.1.1.1.1.1.1.1.1.1.1.1.1.1.1.1.1.1.1.1.1.1.1.0
    go rxx = tests.1.1.1.1.1.1.1.1.1.1.1.1.1.1.1.1.1.1.1.1.1.1.1.1.1.0
    go ryy = tests.1.1.1.1.1.1.1.1.1.1.1.1.1.1.1.1.1.1.1.1.1.1.1.1.1.1.0
    go rzz = tests.1.1.1.1.1.1.1.1.1.1.1.1.1.1.1.1.1.1.1.1.1.1.1.1.1.1.1.0
    go rzx = tests.1.1.1.1.1.1.1.1.1.1.1.1.1.1.1.1.1.1.1.1.1.1.1.1.1.1.1.1.0
    go m = tests.1.1.1.1.1.1.1.1.1.1.1.1.1.1.1.1.1.1.1.1.1.1.1.1.1.1.1.1.1.0
