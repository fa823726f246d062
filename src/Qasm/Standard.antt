-- ===== src/Qasm/Standard.antt =====
-- What `serializeOperation` prints: the gates of stdgates.inc that stand for an operation.
use mvp_qcp.Base.{ℕ, none, some, List, [], ◌∷◌, ◌++◌, map, length, or_else, if◌then◌else◌}
use mvp_qcp.Gate.{
  GateName, h, sy, s, sdg, ry, rz, cx, ccx, ccz, rxx, ryy, rzz, rzx, gate_text, catalog_item,
}
use mvp_qcp.Circuit.{Operation}
use mvp_qcp.Circuit.Validation.{is_measurement}
use mvp_qcp.Submission.Arity.{kept}
use mvp_qcp.Template.{Added, added, controlled}
use mvp_qcp.Qasm.{Statement, application, Host}
use mvp_qcp.Qasm.Serializer.{nth, on, measure_line}

module _ {R : Type 0} (host : Host R) where
  -- The line of one gate or measurement.
  abbrev pub line_of : Added R → Statement
  line_of a =
      if is_measurement a.gate
      then measure_line (nth 0 a.targets 0)
      else application (gate_text a.gate)
          (elim a.params [ none ↦ none | some params ↦ some (map host.format_number params) ])
          (on (or_else a.controls [] ++ a.targets))

  abbrev pub rotation : GateName → List ℕ → R → Added R
  rotation gate targets theta = record {
    gate = gate;
    targets = targets;
    controls = none;
    params = some (theta ∷ []);
  }

  abbrev pub left : Operation R → List ℕ
  left o = nth 0 o.targets 0 ∷ []

  abbrev pub right : Operation R → List ℕ
  right o = nth 0 o.targets 1 ∷ []

  abbrev pub both_h : Operation R → List (Added R)
  both_h o = added h (left o) ∷ added h (right o) ∷ []

  abbrev pub h_then_s : Operation R → List (Added R)
  h_then_s o = added h (left o) ∷ added h (right o) ∷ added s (left o) ∷ added s (right o) ∷ []

  abbrev pub rzz_gates : Operation R → List (Added R)
  rzz_gates o =
      controlled cx (right o) (left o)
      ∷ rotation rz (right o) (nth host.number_0 (or_else o.params []) 0)
      ∷ controlled cx (right o) (left o)
      ∷ []

  -- A gate of stdgates.inc stands for itself, with the qubits and parameters that the catalog asks
  -- for; the others are decomposed.
  abbrev pub itself : GateName → Operation R → Added R
  itself gate o = record {
    gate = gate;
    targets = o.targets;
    controls = kept o.controls (catalog_item gate).control_count;
    params = kept o.params (length (catalog_item gate).parameter_labels);
  }

  abbrev pub standard_gates : GateName → Operation R → List (Added R)
  standard_gates sy o = rotation ry o.targets host.half_pi ∷ []
  standard_gates ccz o =
      added h o.targets
      ∷ record { gate = ccx; targets = o.targets; controls = o.controls; params = none }
      ∷ added h o.targets
      ∷ []
  standard_gates rzz o = rzz_gates o
  standard_gates rxx o = both_h o ++ rzz_gates o ++ both_h o
  standard_gates ryy o =
      (added sdg (left o) ∷ added sdg (right o) ∷ both_h o) ++ rzz_gates o ++ h_then_s o
  standard_gates rzx o = added h (right o) ∷ rzz_gates o ++ added h (right o) ∷ []
  standard_gates gate o = itself gate o ∷ []

  unfoldable pub standard : Operation R → List (Added R)
  unfolding catalog_item
  standard o = standard_gates o.gate o

  unfoldable pub standard_all : List (Operation R) → List (Added R)
  unfolding standard
  standard_all [] = []
  standard_all (o ∷ os) = standard o ++ standard_all os
