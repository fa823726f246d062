-- ===== src/Draft/Saving.antt =====
-- What `saveWorkbenchDraft` and `clearWorkbenchDraft` leave in localStorage.
use mvp_qcp.Base.{Bool, Option, none, some, List, [], ◌∷◌, String, if◌then◌else◌}
use mvp_qcp.Gate.{GateName, gate_text}
use mvp_qcp.Draft.{
  Json, null, number, string, array, object, Elements, nil, cons, Fields, end, field, DraftHost,
  DraftOperation, DraftCircuit, WorkbenchDraftPayload,
}
use mvp_qcp.Simulation.Filter.{ProbabilityDisplayMode, filtered, all_shown}

abbrev pub display_mode_text : ProbabilityDisplayMode → String
display_mode_text filtered = "FILTERED"
display_mode_text all_shown = "ALL"

module _ {N : Type 0} (host : DraftHost N) where
  -- `JSON.stringify` writes null for a number that is not finite.
  abbrev pub number_json : N → Json N
  number_json n = if host.is_finite n then number n else null

  abbrev pub numbers_json : List N → Elements N
  numbers_json [] = nil
  numbers_json (n ∷ ns) = cons (number_json n) (numbers_json ns)

  abbrev pub optional_numbers : String → Option (List N) → Fields N → Fields N
  optional_numbers name none fields = fields
  optional_numbers name (some ns) fields = field name (array (numbers_json ns)) fields

  abbrev pub optional_number : String → Option N → Fields N → Fields N
  optional_number name none fields = fields
  optional_number name (some n) fields = field name (number_json n) fields

  abbrev pub operation_json :
      String → GateName → N → List N → Option (List N) → Option (List N) → Json N
  operation_json id gate layer targets controls params = object (
      field "id" (string id) (
        field "gate" (string (gate_text gate)) (
          field "layer" (number_json layer) (
            field "targets" (array (numbers_json targets))
              (optional_numbers "controls" controls (optional_numbers "params" params end))))))

  abbrev pub operations_json : List (DraftOperation N) → Elements N
  operations_json [] = nil
  operations_json (o ∷ os) =
      cons (operation_json o.id o.gate o.layer o.targets o.controls o.params) (operations_json os)

  abbrev pub circuit_json : DraftCircuit N → Json N
  circuit_json c = object (
      field "numQubits" (number_json c.num_qubits)
        (field "operations" (array (operations_json c.operations)) end))

  abbrev pub draft_json : Json N → String → String → Option N → N → Json N
  draft_json circuit qasm display_mode simulation_step updated_at = object (
      field "version" (number_json host.draft_version) (
        field "circuit" circuit (
          field "qasm" (string qasm) (
            field "displayMode" (string display_mode) (
              optional_number "simulationStep" simulation_step
                (field "updatedAt" (number_json updated_at) end))))))

  -- The value that is written.
  abbrev pub draft_value : WorkbenchDraftPayload N → Json N
  draft_value d =
      draft_json (circuit_json d.circuit) d.qasm (display_mode_text d.display_mode)
        d.simulation_step d.updated_at

  -- Where `setItem` throws, since there is no room, the storage stays as it was.
  unfoldable pub save_workbench_draft :
      Bool → WorkbenchDraftPayload N → Option String → Option String
  unfolding gate_text
  save_workbench_draft has_room d before =
      if has_room then some (host.stringify (draft_value d)) else before

abbrev pub clear_workbench_draft : Option String → Option String
clear_workbench_draft before = none
