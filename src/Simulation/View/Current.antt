-- ===== src/Simulation/View/Current.antt =====
-- What the hook shows is of the present circuit.
use mvp_qcp.Base.{
  ◌≡◌, refl, true, false, Bool-cases, Option-cases, inl, inr, Option, none, some, List, ◌∷◌, ◌++◌,
  map, String, All, All-append, All-append_left, All-append_right, All-map, All-of_forall,
}
use mvp_qcp.Circuit.{CircuitModel, Collation}
use mvp_qcp.Circuit.Edit.{evaluate_complexity, local_simulation_blocked}
use mvp_qcp.Circuit.Validation.{validate_circuit_model}
use mvp_qcp.Simulation.Filter.{Probabilities, ProbabilityFilterResult, filter_probabilities}
use mvp_qcp.Simulation.View.{
  running, ready, SimError, response, stale, failed, Run, SimulationView, cancel, fail_with,
  run_simulation, on_circuit, on_response, initial_view,
}

-- The circuit may be simulated: the validation, the limit of qubits and the complexity guard accept
-- it.
abbrev pub Passes : ⦃c : Collation⦄ {R : Type 0} → CircuitModel R → Type 0
Passes m =
    (validate_circuit_model m ≡ none)
    × (local_simulation_blocked m ≡ false)
    × ((evaluate_complexity m).ok ≡ true)

-- A run that is not cancelled is of the present circuit, which passed the checks.
abbrev Waits : ⦃c : Collation⦄ {R : Type 0} → CircuitModel R → Run R → Type 0
Waits m run = run.cancelled ≡ false → (run.circuit ≡ m) × Passes m

cancelled-Waits :
    ⦃c : Collation⦄ {R : Type 0} (m : CircuitModel R) (runs : List (Run R))
    → All (Waits m) (map cancel runs)
cancelled-Waits m runs =
    All-map (Waits m) cancel runs (All-of_forall (λ run. Waits m (cancel run)) (λ run e. cc) runs)

-- The run that is answered, and those that are left.
split-Waits :
    ⦃c : Collation⦄ {R : Type 0} (m : CircuitModel R) (runs before : List (Run R)) (run : Run R)
    (after : List (Run R))
    → runs ≡ before ++ run ∷ after
    → All (Waits m) runs
    → Waits m run × All (Waits m) (before ++ after)
split-Waits m runs before run after e w =
    let w' : All (Waits m) (before ++ run ∷ after) = rw e at w in
    let later = All-append_right (Waits m) before (run ∷ after) w' in
    (
      later.0,
      All-append (Waits m) before after (All-append_left (Waits m) before (run ∷ after) w') later.1,
    )

-- `simulate` is what the scheduler delivers for a circuit, where it delivers something.
module _ ⦃c : Collation⦄ {R N B : Type 0} (host : Probabilities N)
    (simulate : CircuitModel R → List (String × N)) where
  pub data Step : SimulationView R N B → SimulationView R N B → Type 0 where
    changed : (m : CircuitModel R) (s : SimulationView R N B) → Step s (on_circuit m s)
    answered :
        (before : List (Run R)) (run : Run R) (after : List (Run R)) (vectors : Option B)
        (s : SimulationView R N B) (waits : s.runs ≡ before ++ run ∷ after)
        → Step s
            (on_response host run (before ++ after) (response (simulate run.circuit) vectors) s)
    went_stale :
        (before : List (Run R)) (run : Run R) (after : List (Run R)) (s : SimulationView R N B)
        (waits : s.runs ≡ before ++ run ∷ after)
        → Step s (on_response host run (before ++ after) stale s)
    went_wrong :
        (before : List (Run R)) (run : Run R) (after : List (Run R)) (s : SimulationView R N B)
        (waits : s.runs ≡ before ++ run ∷ after)
        → Step s (on_response host run (before ++ after) failed s)

  -- From the first effect on.
  pub data Reach : SimulationView R N B → Type 0 where
    mounted : (m : CircuitModel R) → Reach (on_circuit m (initial_view m))
    next : {s s' : SimulationView R N B} → Reach s → Step s s' → Reach s'

  -- A result is shown only of the present circuit.
  pub record IsCurrent (s : SimulationView R N B) : Type 0 where
    pub waiting : All (Waits s.circuit) s.runs
    pub shown :
        s.simulation_state ≡ ready
        → Passes s.circuit
          × (result : ProbabilityFilterResult N) × (s.probability_view ≡ some result)
          × (filter_probabilities host s.circuit.num_qubits (simulate s.circuit) ≡ some result)

  fail-IsCurrent :
      (e : SimError) (s : SimulationView R N B)
      → All (Waits s.circuit) s.runs
      → IsCurrent (fail_with e s)
  fail-IsCurrent e s w = record { waiting = w; shown = λ r. cc }

  run-IsCurrent :
      (s : SimulationView R N B)
      → s.simulation_state ≡ running
      → All (Waits s.circuit) s.runs
      → IsCurrent (run_simulation s)
  unfolding run_simulation
  run-IsCurrent s not_ready w = elim (Option-cases (validate_circuit_model s.circuit)) [
    | inr (e, refused) ↦ rw (refused, run_simulation) (fail-IsCurrent _ s w)
    | inl valid ↦ elim (Bool-cases (local_simulation_blocked s.circuit)) [
      | inl too_many ↦ rw (valid, too_many, run_simulation) (fail-IsCurrent _ s w)
      | inr few ↦ elim (Bool-cases (evaluate_complexity s.circuit).ok) [
        | inr complex ↦ rw (valid, few, complex, run_simulation) (fail-IsCurrent _ s w)
        | inl simple ↦
            rw (valid, few, simple, run_simulation)
              (record { waiting = ((λ e. (refl, (valid, few, simple))), w); shown = λ r. cc })
      ]
    ]
  ]

  change-IsCurrent : (m : CircuitModel R) (s : SimulationView R N B) → IsCurrent (on_circuit m s)
  unfolding on_circuit
  change-IsCurrent m s =
      run-IsCurrent (record s { circuit = m; simulation_state = running; runs = map cancel s.runs })
        refl (cancelled-Waits m s.runs)

  failed-IsCurrent :
      (run : Run R) (rest : List (Run R)) (s : SimulationView R N B)
      → All (Waits s.circuit) rest
      → IsCurrent s
      → IsCurrent (on_response host run rest failed s)
  unfolding on_response
  failed-IsCurrent run rest s w h = elim (Bool-cases run.cancelled) [
    | inl e ↦ rw (e, on_response) (record { waiting = w; shown = h.shown })
    | inr e ↦ rw (e, on_response) (fail-IsCurrent _ (record s { runs = rest }) w)
  ]

  stale-IsCurrent :
      (run : Run R) (rest : List (Run R)) (s : SimulationView R N B)
      → All (Waits s.circuit) rest
      → IsCurrent s
      → IsCurrent (on_response host run rest stale s)
  unfolding on_response
  stale-IsCurrent run rest s w h = record { waiting = w; shown = h.shown }

  answered-IsCurrent :
      (run : Run R) (rest : List (Run R)) (vectors : Option B) (s : SimulationView R N B)
      → Waits s.circuit run
      → All (Waits s.circuit) rest
      → IsCurrent s
      → IsCurrent (on_response host run rest (response (simulate run.circuit) vectors) s)
  unfolding on_response
  answered-IsCurrent run rest vectors s r w h = elim (Bool-cases run.cancelled) [
    | inl e ↦ rw (e, on_response) (record { waiting = w; shown = h.shown })
    | inr e ↦
        let (same, passes) = r e in
        let answer = filter_probabilities host run.circuit.num_qubits (simulate run.circuit) in
        elim (Option-cases answer) [
          | inl thrown ↦ rw (e, thrown, on_response) (fail-IsCurrent _ (record s { runs = rest }) w)
          | inr (result, filtered) ↦
              rw (e, filtered, on_response)
                (record { waiting = w; shown = λ _. (passes, result, refl, rw same at filtered) })
        ]
  ]

  Step-IsCurrent : {s s' : SimulationView R N B} → IsCurrent s → Step s s' → IsCurrent s'
  Step-IsCurrent h (changed m s) = change-IsCurrent m s
  Step-IsCurrent h (answered before run after vectors s waits) =
      let (r, w) = split-Waits s.circuit s.runs before run after waits h.waiting in
      answered-IsCurrent run (before ++ after) vectors s r w h
  Step-IsCurrent h (went_stale before run after s waits) =
      stale-IsCurrent run (before ++ after) s
        (split-Waits s.circuit s.runs before run after waits h.waiting).1 h
  Step-IsCurrent h (went_wrong before run after s waits) =
      failed-IsCurrent run (before ++ after) s
        (split-Waits s.circuit s.runs before run after waits h.waiting).1 h

  -- Whatever the order in which the circuit changes and the scheduler answers, a result that is
  -- shown as ready is of the present circuit: what the filter makes of the probabilities that are
  -- delivered for it; and the validation, the limit of qubits and the complexity guard accept that
  -- circuit.
  pub Reach-IsCurrent : {s : SimulationView R N B} → Reach s → IsCurrent s
  Reach-IsCurrent (mounted m) = change-IsCurrent m (initial_view m)
  Reach-IsCurrent (next r step) = Step-IsCurrent (Reach-IsCurrent r) step
