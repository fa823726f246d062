-- ===== src/Qasm/Readable.antt =====
-- The lines that are printed of an operation can be read.
use mvp_qcp.Base.{
  ℕ, zero, suc, ◌≡◌, ◌≢◌, refl, ◌<◌, sym, true, inl, inr, ◌⊎◌, Option, none, some, List, [], ◌∷◌,
  ◌++◌, arith, length, All, All-append, All-append_left, All-append_right, or_else, append_nil,
}
use mvp_qcp.Base.Apart.{Pairs-of_append}
use mvp_qcp.Gate.{
  GateName, i, x, y, z, h, sx, sy, s, sdg, t, tdg, rx, ry, rz, u, p, cx, cy, ch, cp, cz, ccx, ccz,
  swap, cswap, rxx, ryy, rzz, rzx, m, catalog_item,
}
use mvp_qcp.Circuit.{Operation, touched_qubits}
use mvp_qcp.Circuit.Validation.{is_measurement}
use mvp_qcp.Circuit.Validation.Distinct.{AllDistinct, DistinctQubits}
use mvp_qcp.Submission.Settled.{Takes}
use mvp_qcp.Submission.Arity.{HasRequired, HasRequiredOf, kept}
use mvp_qcp.Template.{Added, added, controlled}
use mvp_qcp.Qasm.{Host}
use mvp_qcp.Qasm.Serializer.{nth}
use mvp_qcp.Qasm.Standard.{
  both_h, h_then_s, rotation, right, rzz_gates, itself, standard_gates, standard, standard_all,
}
use mvp_qcp.Qasm.Exact.{IsKnown, Exactly}
use mvp_qcp.Qasm.Reading.{ReadsBack}
use mvp_qcp.Qasm.Lines.{IsReadable}

Exactly-kept : {A : Type 0} (xs : Option (List A)) (n : ℕ) → Takes xs n → Exactly (kept xs n) n
Exactly-kept xs zero e = tt
Exactly-kept none (suc n) e = absurd e
Exactly-kept (some xs) (suc n) e = e

All-kept :
    {A : Type 0} (P : A → Type 0) (xs : Option (List A)) (n : ℕ)
    → All P (or_else xs [])
    → All P (or_else (kept xs n) [])
All-kept P xs zero a = tt
All-kept P xs (suc n) a = a

distinct-kept :
    (targets : List ℕ) (controls : Option (List ℕ)) (n : ℕ)
    → AllDistinct (targets ++ or_else controls [])
    → AllDistinct (targets ++ or_else (kept controls n) [])
distinct-kept ts cs zero d = rw (append_nil ts) (Pairs-of_append ◌≢◌ ts (or_else cs []) d).0
distinct-kept ts cs (suc n) d = d

-- Two targets, both in range and different.
two_targets :
    (n : ℕ) (targets : List ℕ)
    → length targets ≡ 2
    → All (λ q. q < n) targets
    → AllDistinct targets
    → (nth 0 targets 0 < n) × (nth 0 targets 1 < n) × (nth 0 targets 0 ≢ nth 0 targets 1)
two_targets n [] e r d = absurd (omega arith)
two_targets n (q ∷ []) e r d = absurd (omega arith)
two_targets n (q ∷ r ∷ v ∷ w) e l d = absurd (omega arith)
two_targets n (q ∷ r ∷ []) e (lq, (lr, _)) ((d, _), _) = (lq, lr, d)

module _ {R : Type 0} (host : Host R) (rounded : R → R) (n : ℕ) where
  -- What is asked of an operation: its qubits are of the register and different, and its parameters
  -- read back.
  pub record IsPrintable (o : Operation R) : Type 0 where
    pub in_range : All (λ q. q < n) (touched_qubits o)
    pub distinct : DistinctQubits o
    pub reads : All (ReadsBack host rounded) (or_else o.params [])

  abbrev Readable : Added R → Type 0
  Readable a = IsReadable host rounded n a

  itself-IsReadable :
      (gate : GateName) (o : Operation R)
      → (is_measurement gate ≡ true) ⊎ IsKnown gate
      → HasRequiredOf (catalog_item gate) o
      → IsPrintable o
      → Readable (itself host gate o)
  itself-IsReadable gate o known a f = record {
    known = known;
    targets_count = a.0;
    controls_count = Exactly-kept o.controls _ a.1.0;
    params_count = Exactly-kept o.params _ a.1.1;
    in_range =
        All-append (λ q. q < n) (or_else (kept o.controls _) []) o.targets
          (All-kept _ o.controls _ (All-append_right _ o.targets _ f.in_range))
          (All-append_left _ o.targets _ f.in_range);
    reads = All-kept (ReadsBack host rounded) o.params _ f.reads;
    distinct = distinct-kept o.targets o.controls _ f.distinct;
  }

  -- a gate on one qubit
  single-IsReadable :
      (gate : GateName) (q : ℕ)
      → IsKnown gate
      → (catalog_item gate).target_count ≡ 1
      → (catalog_item gate).control_count ≡ 0
      → length (catalog_item gate).parameter_labels ≡ 0
      → q < n
      → Readable (added gate (q ∷ []))
  single-IsReadable gate q known et ec ep l = record {
    known = inr known;
    targets_count = sym et;
    controls_count = rw ec tt;
    params_count = rw ep tt;
    in_range = (l, tt);
    reads = tt;
    distinct = (tt, tt);
  }

  cx-IsReadable : (a b : ℕ) → a < n → b < n → a ≢ b → Readable (controlled cx (b ∷ []) (a ∷ []))
  unfolding catalog_item
  cx-IsReadable a b la lb d = record {
    known = inr tt;
    targets_count = refl;
    controls_count = refl;
    params_count = tt;
    in_range = (la, (lb, tt));
    reads = tt;
    distinct = (((λ e. d (sym e)), tt), (tt, tt));
  }

  rz-IsReadable :
      (q : ℕ) (v : R) → q < n → ReadsBack host rounded v → Readable (rotation host rz (q ∷ []) v)
  unfolding catalog_item
  rz-IsReadable q v l r = record {
    known = inr tt;
    targets_count = refl;
    controls_count = tt;
    params_count = refl;
    in_range = (l, tt);
    reads = (r, tt);
    distinct = (tt, tt);
  }

  angle-reads :
      (params : Option (List R))
      → Takes params 1
      → All (ReadsBack host rounded) (or_else params [])
      → ReadsBack host rounded (nth host.number_0 (or_else params []) 0)
  angle-reads none e r = absurd e
  angle-reads (some []) e r = absurd (omega arith)
  angle-reads (some (v ∷ vs)) e r = r.0

  abbrev Two : Operation R → Type 0
  Two o =
      (nth 0 o.targets 0 < n) × (nth 0 o.targets 1 < n) × (nth 0 o.targets 0 ≢ nth 0 o.targets 1)

  two : (o : Operation R) → length o.targets ≡ 2 → IsPrintable o → Two o
  two o e f =
      two_targets n o.targets e (All-append_left _ o.targets _ f.in_range)
        (Pairs-of_append ◌≢◌ o.targets (or_else o.controls []) f.distinct).0

  rzz-IsReadable :
      (o : Operation R) → Two o → Takes o.params 1 → IsPrintable o → All Readable (rzz_gates host o)
  rzz-IsReadable o (l, r, d) a f =
      let pair = cx-IsReadable (nth 0 o.targets 0) (nth 0 o.targets 1) l r d in
      (pair, (rz-IsReadable _ _ r (angle-reads o.params a f.reads), (pair, tt)))

  h-IsReadable : (q : ℕ) → q < n → Readable (added h (q ∷ []))
  unfolding catalog_item
  h-IsReadable q l = single-IsReadable h q tt refl refl refl l

  s-IsReadable : (q : ℕ) → q < n → Readable (added s (q ∷ []))
  unfolding catalog_item
  s-IsReadable q l = single-IsReadable s q tt refl refl refl l

  sdg-IsReadable : (q : ℕ) → q < n → Readable (added sdg (q ∷ []))
  unfolding catalog_item
  sdg-IsReadable q l = single-IsReadable sdg q tt refl refl refl l

  gates-Readable :
      (gate : GateName) (o : Operation R)
      → ReadsBack host rounded host.half_pi
      → HasRequiredOf (catalog_item gate) o
      → IsPrintable o
      → All Readable (standard_gates host gate o)
  unfolding catalog_item
  gates-Readable i o v a f = (itself-IsReadable i o (inr tt) a f, tt)
  gates-Readable x o v a f = (itself-IsReadable x o (inr tt) a f, tt)
  gates-Readable y o v a f = (itself-IsReadable y o (inr tt) a f, tt)
  gates-Readable z o v a f = (itself-IsReadable z o (inr tt) a f, tt)
  gates-Readable h o v a f = (itself-IsReadable h o (inr tt) a f, tt)
  gates-Readable sx o v a f = (itself-IsReadable sx o (inr tt) a f, tt)
  gates-Readable s o v a f = (itself-IsReadable s o (inr tt) a f, tt)
  gates-Readable sdg o v a f = (itself-IsReadable sdg o (inr tt) a f, tt)
  gates-Readable t o v a f = (itself-IsReadable t o (inr tt) a f, tt)
  gates-Readable tdg o v a f = (itself-IsReadable tdg o (inr tt) a f, tt)
  gates-Readable rx o v a f = (itself-IsReadable rx o (inr tt) a f, tt)
  gates-Readable ry o v a f = (itself-IsReadable ry o (inr tt) a f, tt)
  gates-Readable rz o v a f = (itself-IsReadable rz o (inr tt) a f, tt)
  gates-Readable u o v a f = (itself-IsReadable u o (inr tt) a f, tt)
  gates-Readable p o v a f = (itself-IsReadable p o (inr tt) a f, tt)
  gates-Readable cx o v a f = (itself-IsReadable cx o (inr tt) a f, tt)
  gates-Readable cy o v a f = (itself-IsReadable cy o (inr tt) a f, tt)
  gates-Readable ch o v a f = (itself-IsReadable ch o (inr tt) a f, tt)
  gates-Readable cp o v a f = (itself-IsReadable cp o (inr tt) a f, tt)
  gates-Readable cz o v a f = (itself-IsReadable cz o (inr tt) a f, tt)
  gates-Readable ccx o v a f = (itself-IsReadable ccx o (inr tt) a f, tt)
  gates-Readable swap o v a f = (itself-IsReadable swap o (inr tt) a f, tt)
  gates-Readable cswap o v a f = (itself-IsReadable cswap o (inr tt) a f, tt)
  gates-Readable m o v a f = (itself-IsReadable m o (inl refl) a f, tt)
  gates-Readable sy o v a f =
      let plain = itself-IsReadable x o (inr tt) (a.0, (tt, tt)) f in
      (
        record {
          known = inr tt;
          targets_count = a.0;
          controls_count = tt;
          params_count = refl;
          in_range = plain.in_range;
          reads = (v, tt);
          distinct = plain.distinct;
        },
        tt,
      )
  gates-Readable ccz o v a f =
      let outer = itself-IsReadable h o (inr tt) (a.0, (tt, tt)) f in
      let inner = itself-IsReadable ccx o (inr tt) (a.0, (a.1.0, tt)) f in
      (outer, (inner, (outer, tt)))
  gates-Readable rzz o v a f = rzz-IsReadable o (two o a.0 f) a.1.1 f
  gates-Readable rxx o v a f =
      let t = two o a.0 f in
      let outer : All Readable (both_h host o) = (h-IsReadable _ t.0, (h-IsReadable _ t.1, tt)) in
      let middle = rzz-IsReadable o t a.1.1 f in
      (outer.0, (outer.1.0, All-append Readable (rzz_gates host o) (both_h host o) middle outer))
  gates-Readable ryy o v a f =
      let t = two o a.0 f in
      let hl = h-IsReadable _ t.0 in
      let hr = h-IsReadable _ t.1 in
      let after : All Readable (h_then_s host o) =
        (hl, (hr, (s-IsReadable _ t.0, (s-IsReadable _ t.1, tt)))) in
      let middle = rzz-IsReadable o t a.1.1 f in
      (
        sdg-IsReadable _ t.0,
        (
          sdg-IsReadable _ t.1,
          (hl, (hr, All-append Readable (rzz_gates host o) (h_then_s host o) middle after)),
        ),
      )
  gates-Readable rzx o v a f =
      let t = two o a.0 f in
      let hr = h-IsReadable _ t.1 in
      let middle = rzz-IsReadable o t a.1.1 f in
      (hr, All-append Readable (rzz_gates host o) (added h (right host o) ∷ []) middle (hr, tt))

  pub standard_all-IsReadable :
      (ops : List (Operation R))
      → ReadsBack host rounded host.half_pi
      → All HasRequired ops
      → All IsPrintable ops
      → All Readable (standard_all host ops)
  unfolding standard_all standard
  standard_all-IsReadable [] v a f = tt
  standard_all-IsReadable (o ∷ os) v (a, as_all) (f, fs) =
      All-append Readable (standard host o) (standard_all host os) (gates-Readable o.gate o v a f)
        (standard_all-IsReadable os v as_all fs)
