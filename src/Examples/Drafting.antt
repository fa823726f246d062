-- ===== src/Examples/Drafting.antt =====
-- A concrete draft. The host's numbers are natural numbers, and its JSON knows the one text that is
-- written here.
use mvp_qcp.Base.{ℕ, ◌≡◌, refl, true, Option, none, some, [], ◌∷◌, arith, ◌==◌, eq_iff}
use mvp_qcp.Gate.{GateName}
use mvp_qcp.Draft.{Json, DraftHost, DraftCircuit, WorkbenchDraftPayload, load_workbench_draft}
use mvp_qcp.Simulation.Filter.{filtered}
use mvp_qcp.Draft.Saving.{draft_value, save_workbench_draft}
use mvp_qcp.Draft.Laws.{IsFaithful, load-save_workbench_draft}

abbrev circuit : DraftCircuit ℕ
circuit = record {
  num_qubits = 2;
  operations =
      record {
        id = "a";
        gate = GateName.cp;
        layer = 0;
        targets = 1 ∷ [];
        controls = some (0 ∷ []);
        params = some (5 ∷ []);
      }
      ∷ record {
        id = "b";
        gate = GateName.m;
        layer = 1;
        targets = 1 ∷ [];
        controls = none;
        params = none;
      }
      ∷ [];
}

abbrev draft : WorkbenchDraftPayload ℕ
draft = record {
  circuit = circuit;
  qasm = "OPENQASM 3;";
  display_mode = filtered;
  simulation_step = some 2;
  updated_at = 1700;
}

-- A host whose JSON.parse returns the given value.
abbrev host_of : Option (Json ℕ) → DraftHost ℕ
host_of parsed = record {
  stringify = λ value. "draft";
  parse_json = λ text. parsed;
  is_finite = λ n. true;
  is_natural = λ n. true;
  is_version = λ n. n == 1;
  draft_version = 1;
}

abbrev draft_host : DraftHost ℕ
draft_host = host_of (some (draft_value (host_of none) draft))

faithful : IsFaithful draft_host (draft_value draft_host draft)
faithful = record {
  reads_back = refl;
  not_empty = λ e. ground (arith, eq_iff "draft" "");
  finite_version = refl;
  same_version = refl;
}

load-save_workbench_draft_example :
    load_workbench_draft draft_host (save_workbench_draft draft_host true draft none) ≡ some draft
load-save_workbench_draft_example =
    load-save_workbench_draft draft_host draft none faithful (record {
      num_qubits = refl;
      operations = (
        record { layer = refl; targets = (refl, tt); controls = (refl, tt); params = (refl, tt) },
        (record { layer = refl; targets = (refl, tt); controls = tt; params = tt }, tt),
      );
      simulation_step = (refl, refl);
      updated_at = refl;
    })
