-- ===== src/Draft.antt =====
-- frontend/src/features/circuit/ui/draft-storage.ts: the draft of the workbench in localStorage.
--
-- A value of `JSON.parse` is a `Json`; `JSON.stringify`, `JSON.parse` and the numbers of JavaScript
-- are the host's. A field that is undefined is left out of the object.
use mvp_qcp.Base.{
  ℕ, suc, ◌≡◌, ◌≢◌, Bool, true, false, not, ◌||◌, Option, none, some, List, [], ◌∷◌, String, str_eq,
  find, length, ◌==◌, if◌then◌else◌,
}
use mvp_qcp.Gate.{GateName, gate_text, all_gates}
use mvp_qcp.Simulation.Filter.{ProbabilityDisplayMode, filtered, all_shown}
pub mod Names
pub mod Saving
pub mod Laws

mutual
  pub data Json (N : Type 0) : Type 0 where
    null : Json N
    boolean : Bool → Json N
    number : N → Json N
    string : String → Json N
    array : Elements N → Json N
    object : Fields N → Json N

  pub data Elements (N : Type 0) : Type 0 where
    nil : Elements N
    cons : Json N → Elements N → Elements N

  pub data Fields (N : Type 0) : Type 0 where
    end : Fields N
    field : String → Json N → Fields N → Fields N

pub record DraftHost (N : Type 0) : Type 0 where
  pub stringify : Json N → String
  pub parse_json : String → Option (Json N)
  pub is_finite : N → Bool
  pub is_natural : N → Bool
  pub is_version : N → Bool
  pub draft_version : N

-- An operation and a circuit with the numbers of JavaScript.
pub record DraftOperation (N : Type 0) : Type 0 where
  pub id : String
  pub gate : GateName
  pub layer : N
  pub targets : List N
  pub controls : Option (List N)
  pub params : Option (List N)

pub record DraftCircuit (N : Type 0) : Type 0 where
  pub num_qubits : N
  pub operations : List (DraftOperation N)

pub record WorkbenchDraftPayload (N : Type 0) : Type 0 where
  pub circuit : DraftCircuit N
  pub qasm : String
  pub display_mode : ProbabilityDisplayMode
  pub simulation_step : Option N
  pub updated_at : N

infixl 5 ◌>>=◌
abbrev pub ◌>>=◌ : {A B : Type 0} → Option A → (A → Option B) → Option B
none >>= f = none
some a >>= f = f a

-- `isGateName`
unfoldable pub gate_named : String → Option GateName
unfolding gate_text
gate_named text = find (λ gate. str_eq (gate_text gate) text) all_gates

module _ {N : Type 0} where
  unfoldable pub field_of : String → Fields N → Option (Json N)
  field_of name end = none
  field_of name (field key value fields) =
      if str_eq key name then some value else field_of name fields

  -- What is not an object has no fields that are read.
  abbrev pub fields_of : Json N → Option (Fields N)
  fields_of (object fields) = some fields
  fields_of (array elements) = some end
  fields_of _ = none

  abbrev pub as_text : Option (Json N) → Option String
  as_text (some (string text)) = some text
  as_text _ = none

  abbrev pub as_number : Option (Json N) → Option N
  as_number (some (number n)) = some n
  as_number _ = none

  abbrev pub as_gate : Option (Json N) → Option GateName
  as_gate (some (string text)) = gate_named text
  as_gate _ = none

  abbrev pub count_elements : Elements N → ℕ
  count_elements nil = 0
  count_elements (cons value elements) = suc (count_elements elements)

  abbrev pub parse_display_mode : Option (Json N) → Option ProbabilityDisplayMode
  parse_display_mode (some (string text)) =
      if str_eq text "FILTERED"
      then some filtered
      else if str_eq text "ALL"
      then some all_shown
      else none
  parse_display_mode _ = none

module _ {N : Type 0} (host : DraftHost N) where
  unfoldable pub finite_numbers : Elements N → Option (List N)
  finite_numbers nil = some []
  finite_numbers (cons (number n) elements) = elim (finite_numbers elements) [
    | none ↦ none
    | some ns ↦ if host.is_finite n then some (n ∷ ns) else none
  ]
  finite_numbers (cons _ elements) = none

  -- `isNumberArray`, with the array
  unfoldable pub number_array : Option (Json N) → Option (List N)
  unfolding finite_numbers
  number_array (some (array elements)) = finite_numbers elements
  number_array _ = none

  -- An array that may be absent.
  unfoldable pub optional_array : Option (Json N) → Option (Option (List N))
  unfolding number_array
  optional_array none = some none
  optional_array (some value) = do numbers ← number_array (some value); some (some numbers)

  unfoldable pub parse_operation : Json N → Option (DraftOperation N)
  unfolding field_of number_array optional_array
  parse_operation value = do
    raw ← fields_of value
    id ← as_text (field_of "id" raw)
    gate ← as_gate (field_of "gate" raw)
    layer ← as_number (field_of "layer" raw)
    targets ← number_array (field_of "targets" raw)
    controls ← optional_array (field_of "controls" raw)
    params ← optional_array (field_of "params" raw)
    some (record {
      id = id;
      gate = gate;
      layer = layer;
      targets = targets;
      controls = controls;
      params = params;
    })

  -- `map` and `filter`
  unfoldable pub parsed_operations : Elements N → List (DraftOperation N)
  unfolding parse_operation
  parsed_operations nil = []
  parsed_operations (cons value elements) =
      let rest = parsed_operations elements in
      elim (parse_operation value) [ none ↦ rest | some operation ↦ operation ∷ rest ]

  unfoldable pub parse_operations : Option (Json N) → Option (List (DraftOperation N))
  unfolding parsed_operations
  parse_operations (some (array elements)) =
      if not (length (parsed_operations elements) == count_elements elements)
      then none
      else some (parsed_operations elements)
  parse_operations _ = none

  unfoldable pub parse_circuit : Json N → Option (DraftCircuit N)
  unfolding field_of parse_operations
  parse_circuit value = do
    raw ← fields_of value
    num_qubits ← as_number (field_of "numQubits" raw)
    operations ← parse_operations (field_of "operations" raw)
    some (record { num_qubits = num_qubits; operations = operations })

  unfoldable pub parse_simulation_step : Option (Json N) → Option N
  parse_simulation_step (some (number n)) = if not (host.is_natural n) then none else some n
  parse_simulation_step _ = none

  abbrev pub is_draft_version : Option (Json N) → Bool
  is_draft_version (some (number n)) = host.is_version n
  is_draft_version _ = false

  unfoldable pub parse_draft : Json N → Option (WorkbenchDraftPayload N)
  unfolding field_of parse_circuit parse_simulation_step
  parse_draft parsed = do
    raw ← fields_of parsed
    checked ← if is_draft_version (field_of "version" raw) then some raw else none
    circuit ← field_of "circuit" checked >>= parse_circuit
    display_mode ← parse_display_mode (field_of "displayMode" checked)
    qasm ← as_text (field_of "qasm" checked)
    updated_at ← as_number (field_of "updatedAt" checked)
    some (record {
      circuit = circuit;
      qasm = qasm;
      display_mode = display_mode;
      simulation_step = parse_simulation_step (field_of "simulationStep" checked);
      updated_at = updated_at;
    })

  -- `none` for what localStorage holds is the source's null.
  unfoldable pub load_workbench_draft : Option String → Option (WorkbenchDraftPayload N)
  unfolding parse_draft
  load_workbench_draft none = none
  load_workbench_draft (some raw) =
      if str_eq raw "" then none else (host.parse_json raw >>= parse_draft)
