-- ===== src/Submission/Arity.antt =====
-- `normalizeOperation` checks an operation against the catalog.
use mvp_qcp.Base.{
  ℕ, zero, suc, ◌≡◌, refl, Option, none, some, List, arith, length, or_else, [], ◌==◌, Bool-cases,
  inl, inr,
}
use mvp_qcp.Gate.{
  GateName, i, x, y, z, h, sx, sy, s, sdg, t, tdg, rx, ry, rz, u, p, cx, cy, ch, cp, cz, ccx, ccz,
  swap, cswap, rxx, ryy, rzz, rzx, m, GateCatalogItem, catalog_item,
}
use mvp_qcp.Circuit.{Operation}
use mvp_qcp.Submission.Settled.{
  Settled, return-Settled, skip-Settled, drop-Settled, bind-Settled, Takes, required-Settled,
}
use mvp_qcp.Submission.{
  CircuitTaskOperationPayload, Thrown, return, expects_targets, expects_parameters,
  expects_controls, ◌>>=◌, require_targets, require_params, require_controls, payload, plain,
  with_params, with_controls, with_controls_and_params, normalize_gate, normalize_operation,
}

-- What is submitted of a list: nothing, unless the catalog asks for it.
abbrev pub kept : {A : Type 0} → Option (List A) → ℕ → Option (List A)
kept xs zero = none
kept xs (suc n) = xs

Takes-of_length :
    {A : Type 0} (xs : Option (List A)) (n : ℕ) → length (or_else xs []) ≡ n → Takes xs n
Takes-of_length xs zero e = tt
Takes-of_length none (suc n) e = absurd (omega arith)
Takes-of_length (some xs) (suc n) e = e

module _ {R : Type 0} where
  abbrev pub HasRequiredOf : GateCatalogItem → Operation R → Type 0
  HasRequiredOf item o =
      (length o.targets ≡ item.target_count)
      × (Takes o.controls item.control_count × Takes o.params (length item.parameter_labels))

  abbrev submitted_as : GateCatalogItem → Operation R → CircuitTaskOperationPayload R
  submitted_as item o = record {
    gate = o.gate;
    targets = o.targets;
    controls = kept o.controls item.control_count;
    params = kept o.params (length item.parameter_labels);
  }

  -- The operation has as many targets as the catalog says of its gate, and the lists of controls and
  -- of parameters that the catalog asks for, of their lengths; a list that it does not ask for is not
  -- looked at.
  abbrev pub HasRequired : Operation R → Type 0
  HasRequired o = HasRequiredOf (catalog_item o.gate) o

  -- The operation has exactly as many targets, controls and parameters as the catalog says of its
  -- gate.
  abbrev pub HasArity : Operation R → Type 0
  HasArity o =
      let item = catalog_item o.gate in
      (length o.targets ≡ item.target_count)
      × (length (or_else o.controls []) ≡ item.control_count)
      × (length (or_else o.params []) ≡ length item.parameter_labels)

  pub HasRequired-of_HasArity : (o : Operation R) → HasArity o → HasRequired o
  HasRequired-of_HasArity o (targets, controls, params) =
      (targets, (Takes-of_length o.controls _ controls, Takes-of_length o.params _ params))

  abbrev pub submitted : Operation R → CircuitTaskOperationPayload R
  submitted o = submitted_as (catalog_item o.gate) o

  targets-Settled :
      (o : Operation R) (n : ℕ) → Settled (length o.targets ≡ n) (require_targets o n) o.targets
  unfolding require_targets
  targets-Settled o n = elim (Bool-cases (length o.targets == n)) [
    | inl e ↦ inl (ground arith, rw e refl)
    | inr e ↦ inr (ground arith, (expects_targets o.gate n, rw e refl))
  ]

  abbrev with :
      Operation R
      → List ℕ
      → Option (List ℕ)
      → Option (List R)
      → Thrown (CircuitTaskOperationPayload R)
  with o ts cs ps = return (payload o.gate ts cs ps)

  plain-Settled :
      (o : Operation R) (n : ℕ)
      → Settled
          ((length o.targets ≡ n) × (Unit × Unit))
          (plain o n)
          (payload o.gate o.targets none none)
  unfolding plain
  plain-Settled o n =
      bind-Settled (length o.targets ≡ n) (Unit × Unit) (require_targets o n) o.targets
        (λ ts. with o ts none none) (payload o.gate o.targets none none) (targets-Settled o n)
        (inl ((tt, tt), refl))

  params-Settled :
      (o : Operation R) (n : ℕ) (cs : Option (List ℕ))
      → Settled
          (Takes o.params (suc n))
          (require_params o (suc n) >>= (λ ps. with o o.targets cs (some ps)))
          (payload o.gate o.targets cs o.params)
  unfolding require_params
  params-Settled o n cs = drop-Settled _ _ _ (
      required-Settled o.params n (expects_parameters o.gate (suc n)) (with o o.targets cs) Unit
        (payload o.gate o.targets cs o.params) (return-Settled _))

  with_params-Settled :
      (o : Operation R) (n k : ℕ)
      → Settled
          ((length o.targets ≡ n) × (Unit × Takes o.params (suc k)))
          (with_params o n (suc k))
          (payload o.gate o.targets none o.params)
  unfolding with_params
  with_params-Settled o n k =
      bind-Settled _ _ (require_targets o n) o.targets
        (λ ts. require_params o (suc k) >>= (λ ps. with o ts none (some ps))) _
        (targets-Settled o n) (skip-Settled _ _ _ (params-Settled o k none))

  with_controls-Settled :
      (o : Operation R) (n k : ℕ)
      → Settled
          ((length o.targets ≡ n) × (Takes o.controls (suc k) × Unit))
          (with_controls o n (suc k))
          (payload o.gate o.targets o.controls none)
  unfolding with_controls require_controls
  with_controls-Settled o n k =
      bind-Settled _ _ (require_targets o n) o.targets
        (λ ts. require_controls o (suc k) >>= (λ cs. with o ts (some cs) none)) _
        (targets-Settled o n)
        (required-Settled o.controls k (expects_controls o.gate (suc k))
          (λ cs. with o o.targets cs none) Unit _ (return-Settled _))

  with_controls_and_params-Settled :
      (o : Operation R) (n k l : ℕ)
      → Settled
          ((length o.targets ≡ n) × (Takes o.controls (suc k) × Takes o.params (suc l)))
          (with_controls_and_params o n (suc k) (suc l))
          (payload o.gate o.targets o.controls o.params)
  unfolding with_controls_and_params require_controls
  with_controls_and_params-Settled o n k l =
      bind-Settled _ _ (require_targets o n) o.targets
        (λ ts.
          require_controls o (suc k)
          >>= (λ cs. require_params o (suc l) >>= (λ ps. with o ts (some cs) (some ps))))
        _ (targets-Settled o n)
        (required-Settled o.controls k (expects_controls o.gate (suc k))
          (λ cs. require_params o (suc l) >>= (λ ps. with o o.targets cs (some ps))) _ _
          (params-Settled o l o.controls))

  gate-Settled :
      (gate : GateName) (o : Operation R)
      → Settled
          (HasRequiredOf (catalog_item gate) o)
          (normalize_gate gate o)
          (submitted_as (catalog_item gate) o)
  unfolding normalize_gate catalog_item
  gate-Settled i o = plain-Settled o 1
  gate-Settled x o = plain-Settled o 1
  gate-Settled y o = plain-Settled o 1
  gate-Settled z o = plain-Settled o 1
  gate-Settled h o = plain-Settled o 1
  gate-Settled sx o = plain-Settled o 1
  gate-Settled sy o = plain-Settled o 1
  gate-Settled s o = plain-Settled o 1
  gate-Settled sdg o = plain-Settled o 1
  gate-Settled t o = plain-Settled o 1
  gate-Settled tdg o = plain-Settled o 1
  gate-Settled rx o = with_params-Settled o 1 0
  gate-Settled ry o = with_params-Settled o 1 0
  gate-Settled rz o = with_params-Settled o 1 0
  gate-Settled u o = with_params-Settled o 1 2
  gate-Settled p o = with_params-Settled o 1 0
  gate-Settled cx o = with_controls-Settled o 1 0
  gate-Settled cy o = with_controls-Settled o 1 0
  gate-Settled ch o = with_controls-Settled o 1 0
  gate-Settled cp o = with_controls_and_params-Settled o 1 0 0
  gate-Settled cz o = with_controls-Settled o 1 0
  gate-Settled ccx o = with_controls-Settled o 1 1
  gate-Settled ccz o = with_controls-Settled o 1 1
  gate-Settled swap o = plain-Settled o 2
  gate-Settled cswap o = with_controls-Settled o 2 0
  gate-Settled rxx o = with_params-Settled o 2 0
  gate-Settled ryy o = with_params-Settled o 2 0
  gate-Settled rzz o = with_params-Settled o 2 0
  gate-Settled rzx o = with_params-Settled o 2 0
  gate-Settled m o = plain-Settled o 1

  -- `normalize_operation` returns a payload exactly of the operations that have as many targets as
  -- the catalog says of their gate and, where the catalog asks for controls or parameters, as many of
  -- those; the payload has the operation's targets and, of its controls and parameters, only the
  -- lists that the catalog asks for. Lists that the catalog does not ask for are dropped without an
  -- error. Of every other operation it throws an error.
  pub normalize_operation-Settled :
      (o : Operation R) → Settled (HasRequired o) (normalize_operation o) (submitted o)
  unfolding normalize_operation
  normalize_operation-Settled o = gate-Settled o.gate o
