-- ===== src/Submission/Layer.antt =====
-- `normalizeOperation` does not read the layer.
use mvp_qcp.Base.{ℕ, ◌≡◌, refl, List, [], ◌∷◌, map}
use mvp_qcp.Gate.{
  GateName, i, x, y, z, h, sx, sy, s, sdg, t, tdg, rx, ry, rz, u, p, cx, cy, ch, cp, cz, ccx, ccz,
  swap, cswap, rxx, ryy, rzz, rzx, m,
}
use mvp_qcp.Circuit.{Operation}
use mvp_qcp.Circuit.Edit.{insert_shift}
use mvp_qcp.Submission.{normalize_gate, normalize_operation, normalize_all}

module _ {R : Type 0} where
  normalize_gate-layer :
      (gate : GateName) (o : Operation R) (layer : ℕ)
      → normalize_gate gate (record o { layer = layer }) ≡ normalize_gate gate o
  unfolding normalize_gate
  normalize_gate-layer i o layer = refl
  normalize_gate-layer x o layer = refl
  normalize_gate-layer y o layer = refl
  normalize_gate-layer z o layer = refl
  normalize_gate-layer h o layer = refl
  normalize_gate-layer sx o layer = refl
  normalize_gate-layer sy o layer = refl
  normalize_gate-layer s o layer = refl
  normalize_gate-layer sdg o layer = refl
  normalize_gate-layer t o layer = refl
  normalize_gate-layer tdg o layer = refl
  normalize_gate-layer rx o layer = refl
  normalize_gate-layer ry o layer = refl
  normalize_gate-layer rz o layer = refl
  normalize_gate-layer u o layer = refl
  normalize_gate-layer p o layer = refl
  normalize_gate-layer cx o layer = refl
  normalize_gate-layer cy o layer = refl
  normalize_gate-layer ch o layer = refl
  normalize_gate-layer cp o layer = refl
  normalize_gate-layer cz o layer = refl
  normalize_gate-layer ccx o layer = refl
  normalize_gate-layer ccz o layer = refl
  normalize_gate-layer swap o layer = refl
  normalize_gate-layer cswap o layer = refl
  normalize_gate-layer rxx o layer = refl
  normalize_gate-layer ryy o layer = refl
  normalize_gate-layer rzz o layer = refl
  normalize_gate-layer rzx o layer = refl
  normalize_gate-layer m o layer = refl

  normalize_operation-insert_shift :
      (b n : ℕ) (o : Operation R) → normalize_operation (insert_shift b n o) ≡ normalize_operation o
  unfolding normalize_operation insert_shift
  normalize_operation-insert_shift b n o = normalize_gate-layer o.gate o _

  pub normalize_all-insert_shift :
      (b n : ℕ) (ops : List (Operation R))
      → normalize_all (map (insert_shift b n) ops) ≡ normalize_all ops
  unfolding normalize_all
  normalize_all-insert_shift b n [] = refl
  normalize_all-insert_shift b n (o ∷ os) =
      rw (normalize_operation-insert_shift b n o, normalize_all-insert_shift b n os) refl
