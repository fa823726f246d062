-- ===== src/Draft/Names.antt =====
-- `isGateName` knows the name of each gate.
use mvp_qcp.Base.{◌≡◌, refl, some}
use mvp_qcp.Gate.{
  GateName, i, x, y, z, h, sx, sy, s, sdg, t, tdg, rx, ry, rz, u, p, cx, cy, ch, cp, cz, ccx, ccz,
  swap, cswap, rxx, ryy, rzz, rzx, m, gate_text,
}
use mvp_qcp.Draft.{gate_named}

pub gate_named-gate_text : (gate : GateName) → gate_named (gate_text gate) ≡ some gate
unfolding gate_named gate_text
gate_named-gate_text i = refl
gate_named-gate_text x = refl
gate_named-gate_text y = refl
gate_named-gate_text z = refl
gate_named-gate_text h = refl
gate_named-gate_text sx = refl
gate_named-gate_text sy = refl
gate_named-gate_text s = refl
gate_named-gate_text sdg = refl
gate_named-gate_text t = refl
gate_named-gate_text tdg = refl
gate_named-gate_text rx = refl
gate_named-gate_text ry = refl
gate_named-gate_text rz = refl
gate_named-gate_text u = refl
gate_named-gate_text p = refl
gate_named-gate_text cx = refl
gate_named-gate_text cy = refl
gate_named-gate_text ch = refl
gate_named-gate_text cp = refl
gate_named-gate_text cz = refl
gate_named-gate_text ccx = refl
gate_named-gate_text ccz = refl
gate_named-gate_text swap = refl
gate_named-gate_text cswap = refl
gate_named-gate_text rxx = refl
gate_named-gate_text ryy = refl
gate_named-gate_text rzz = refl
gate_named-gate_text rzx = refl
gate_named-gate_text m = refl
