-- ===== src/Draft/Laws.antt =====
-- A draft that is saved is loaded again.
use mvp_qcp.Base.{
  suc, ◌≡◌, ◌≢◌, refl, ap, true, false, Option, none, some, List, [], ◌∷◌, String, str_eq, eq_iff,
  arith, All, length, ◌==◌, ==_iff, or_else,
}
use mvp_qcp.Gate.{GateName}
use mvp_qcp.Draft.{
  Json, string, DraftHost, DraftOperation, DraftCircuit, WorkbenchDraftPayload, field_of,
  parse_display_mode, count_elements, finite_numbers, number_array, optional_array, parse_operation,
  parsed_operations, parse_operations, parse_circuit, parse_simulation_step, parse_draft,
  load_workbench_draft,
}
use mvp_qcp.Simulation.Filter.{ProbabilityDisplayMode, filtered, all_shown}
use mvp_qcp.Draft.Names.{gate_named-gate_text}
use mvp_qcp.Draft.Saving.{
  display_mode_text, numbers_json, operation_json, operations_json, circuit_json, draft_json,
  draft_value, save_workbench_draft,
}

-- What is documented of JSON, at a value: the text that is written of it is read as that value, and
-- is not empty. The number of the version is finite and is the one that is compared with.
pub record IsFaithful {N : Type 0} (host : DraftHost N) (value : Json N) : Type 0 where
  pub reads_back : host.parse_json (host.stringify value) ≡ some value
  pub not_empty : host.stringify value ≢ ""
  pub finite_version : host.is_finite host.draft_version ≡ true
  pub same_version : host.is_version host.draft_version ≡ true

module _ {N : Type 0} (host : DraftHost N) where
  abbrev IsFinite : N → Type 0
  IsFinite n = host.is_finite n ≡ true

  -- The numbers of an operation are finite.
  pub record IsFiniteOperation (o : DraftOperation N) : Type 0 where
    pub layer : IsFinite o.layer
    pub targets : All IsFinite o.targets
    pub controls : All IsFinite (or_else o.controls [])
    pub params : All IsFinite (or_else o.params [])

  abbrev IsStep : Option N → Type 0
  IsStep none = Unit
  IsStep (some n) = IsFinite n × (host.is_natural n ≡ true)

  -- The numbers of a draft are finite, and the step, if there is one, is a natural number.
  pub record IsStorable (d : WorkbenchDraftPayload N) : Type 0 where
    pub num_qubits : IsFinite d.circuit.num_qubits
    pub operations : All IsFiniteOperation d.circuit.operations
    pub simulation_step : IsStep d.simulation_step
    pub updated_at : IsFinite d.updated_at

  finite_numbers-json :
      (ns : List N) → All IsFinite ns → finite_numbers host (numbers_json host ns) ≡ some ns
  unfolding finite_numbers
  finite_numbers-json [] e = refl
  finite_numbers-json (n ∷ ns) (e, es) = rw (e, finite_numbers-json ns es, e) refl

  parse_operation-json :
      (id : String) (gate : GateName) (layer : N) (targets : List N)
      (controls params : Option (List N))
      → IsFinite layer
      → All IsFinite targets
      → All IsFinite (or_else controls [])
      → All IsFinite (or_else params [])
      → parse_operation host (operation_json host id gate layer targets controls params)
        ≡ some (record {
          id = id;
          gate = gate;
          layer = layer;
          targets = targets;
          controls = controls;
          params = params;
        })
  unfolding parse_operation number_array optional_array field_of
  parse_operation-json id gate layer targets none none l t c p =
      rw (gate_named-gate_text gate, l, finite_numbers-json targets t) refl
  parse_operation-json id gate layer targets (some cs) none l t c p =
      rw (gate_named-gate_text gate, l, finite_numbers-json targets t, finite_numbers-json cs c)
        refl
  parse_operation-json id gate layer targets none (some ps) l t c p =
      rw (gate_named-gate_text gate, l, finite_numbers-json targets t, finite_numbers-json ps p)
        refl
  parse_operation-json id gate layer targets (some cs) (some ps) l t c p =
      rw
        (
          gate_named-gate_text gate,
          l,
          finite_numbers-json targets t,
          finite_numbers-json cs c,
          finite_numbers-json ps p,
        )
        refl

  parsed_operations-json :
      (ops : List (DraftOperation N))
      → All IsFiniteOperation ops
      → parsed_operations host (operations_json host ops) ≡ ops
  unfolding parsed_operations
  parsed_operations-json [] f = refl
  parsed_operations-json (o ∷ os) (f, fs) =
      rw
        (
          parse_operation-json o.id o.gate o.layer o.targets o.controls o.params f.layer f.targets
              f.controls f.params,
          parsed_operations,
          parsed_operations-json os fs,
        )
        refl

  count-operations_json :
      (ops : List (DraftOperation N)) → count_elements (operations_json host ops) ≡ length ops
  count-operations_json [] = refl
  count-operations_json (o ∷ os) = ap suc (count-operations_json os)

  parse_circuit-json :
      (c : DraftCircuit N)
      → IsFinite c.num_qubits
      → All IsFiniteOperation c.operations
      → parse_circuit host (circuit_json host c) ≡ some c
  unfolding parse_circuit parse_operations field_of
  parse_circuit-json c n f =
      let same : (length c.operations == length c.operations) ≡ true = (==_iff _ _).1 refl in
      rw (n, parsed_operations-json c.operations f, count-operations_json c.operations, same) refl

  parse_display_mode-text :
      (mode : ProbabilityDisplayMode)
      → parse_display_mode {N = N} (some (string (display_mode_text mode))) ≡ some mode
  parse_display_mode-text filtered = refl
  parse_display_mode-text all_shown = refl

  parse_draft-json :
      (d : WorkbenchDraftPayload N) (mode : ProbabilityDisplayMode) (step : Option N)
      → IsFinite host.draft_version
      → host.is_version host.draft_version ≡ true
      → IsStorable d
      → IsStep step
      → parse_draft host (
          draft_json host
            (circuit_json host d.circuit)
            d.qasm
            (display_mode_text mode)
            step
            d.updated_at)
        ≡ some (record d { display_mode = mode; simulation_step = step })
  unfolding parse_draft parse_simulation_step field_of
  parse_draft-json d mode none v h s t =
      rw
        (
          v,
          h,
          parse_circuit-json d.circuit s.num_qubits s.operations,
          parse_display_mode-text mode,
          s.updated_at,
        )
        refl
  parse_draft-json d mode (some n) v h s (t, natural) =
      rw
        (
          v,
          h,
          parse_circuit-json d.circuit s.num_qubits s.operations,
          parse_display_mode-text mode,
          t,
          natural,
          s.updated_at,
        )
        refl

  -- Where there is room, a draft whose numbers are finite, and whose step, if it has one, is a
  -- natural number, is loaded as it was saved, whatever was stored before. Required of the host is
  -- that JSON reads back what it writes of this draft and that the number of the version is itself.
  pub load-save_workbench_draft :
      (d : WorkbenchDraftPayload N) (before : Option String)
      → IsFaithful host (draft_value host d)
      → IsStorable d
      → load_workbench_draft host (save_workbench_draft host true d before) ≡ some d
  unfolding load_workbench_draft save_workbench_draft
  load-save_workbench_draft d before h s =
      let value = draft_value host d in
      let full : str_eq (host.stringify value) "" ≡ false =
        ground (arith, eq_iff (host.stringify value) "", h.not_empty) in
      rw (full, h.reads_back)
        (parse_draft-json d d.display_mode d.simulation_step h.finite_version h.same_version s
          s.simulation_step)
