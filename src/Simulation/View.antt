-- ===== src/Simulation/View.antt =====
-- frontend/src/features/circuit/simulation/use-workbench-simulation.ts: the state of the hook. A run
-- of the effect waits for the scheduler after the checks, which it makes at once; a change of the
-- circuit cancels the runs that wait. The texts of errors are left out, with what they name kept.
use mvp_qcp.Base.{
  Bool, true, false, not, Option, none, some, List, [], ◌∷◌, ◌++◌, map, String, if◌then◌else◌,
}
use mvp_qcp.Circuit.{CircuitModel, Collation}
use mvp_qcp.Circuit.Edit.{ComplexityErrorCode, evaluate_complexity, local_simulation_blocked}
use mvp_qcp.Circuit.Validation.{CircuitValidationError, validate_circuit_model}
use mvp_qcp.Simulation.Filter.{
  Probabilities, ProbabilityDisplayMode, ProbabilityFilterResult, ProbabilityDisplayView,
  filter_probabilities, get_probability_display_view,
}
pub mod Current

pub data SimulationViewState : Type 0 where
  idle running ready in_error : SimulationViewState

pub data SimError : Type 0 where
  validation_failed : CircuitValidationError → SimError
  blocked : SimError
  too_complex : Option ComplexityErrorCode → SimError
  simulation_failed : SimError

-- What the scheduler's promise is settled with: the probabilities and the vectors, SIM_STALE, or
-- another error.
pub data Response (N B : Type 0) : Type 0 where
  response : List (String × N) → Option B → Response N B
  stale failed : Response N B

-- A run of the effect, with the circuit of its closure.
pub record Run (R : Type 0) : Type 0 where
  pub circuit : CircuitModel R
  pub cancelled : Bool

pub record SimulationView (R N B : Type 0) : Type 0 where
  pub circuit : CircuitModel R
  pub simulation_state : SimulationViewState
  pub sim_error : Option SimError
  pub probability_view : Option (ProbabilityFilterResult N)
  pub bloch_vectors : Option B
  -- the runs that wait for the scheduler
  pub runs : List (Run R)

abbrev pub cancel : {R : Type 0} → Run R → Run R
cancel run = record run { cancelled = true }

module _ {R N B : Type 0} where
  abbrev pub fail_with : SimError → SimulationView R N B → SimulationView R N B
  fail_with e view = record view {
    sim_error = some e;
    probability_view = none;
    bloch_vectors = none;
    simulation_state = in_error;
  }

  -- `runSimulation` up to the call of the scheduler.
  unfoldable pub run_simulation : ⦃c : Collation⦄ → SimulationView R N B → SimulationView R N B
  unfolding validate_circuit_model local_simulation_blocked evaluate_complexity
  run_simulation view = elim (validate_circuit_model view.circuit) [
    | some e ↦ fail_with (validation_failed e) view
    | none ↦
        if local_simulation_blocked view.circuit
        then fail_with blocked view
        else if not (evaluate_complexity view.circuit).ok
        then fail_with (too_complex (evaluate_complexity view.circuit).code) view
        else record view { runs = record { circuit = view.circuit; cancelled = false } ∷ view.runs }
  ]

  -- The effect: its clean-up, then the new run.
  unfoldable pub on_circuit :
      ⦃c : Collation⦄ → CircuitModel R → SimulationView R N B → SimulationView R N B
  unfolding run_simulation
  on_circuit circuit view =
      run_simulation
        (record view { circuit = circuit; simulation_state = running; runs = map cancel view.runs })

  -- What follows the call of the scheduler, of a run that waited, with the runs that are left.
  unfoldable pub on_response :
      Probabilities N
      → Run R
      → List (Run R)
      → Response N B
      → SimulationView R N B
      → SimulationView R N B
  unfolding filter_probabilities
  on_response host run rest (response probabilities vectors) view =
      let left = record view { runs = rest } in
      if run.cancelled
      then left
      else elim (filter_probabilities host run.circuit.num_qubits probabilities) [
        | none ↦ fail_with simulation_failed left
        | some result ↦ record left {
          probability_view = some result;
          bloch_vectors = vectors;
          sim_error = none;
          simulation_state = ready;
        }
      ]
  on_response host run rest stale view = record view { runs = rest }
  on_response host run rest failed view =
      let left = record view { runs = rest } in
      if run.cancelled then left else fail_with simulation_failed left

  unfoldable pub probability_display_view :
      ProbabilityDisplayMode → SimulationView R N B → Option (ProbabilityDisplayView N)
  unfolding get_probability_display_view
  probability_display_view mode view = elim view.probability_view [
    | none ↦ none
    | some result ↦ some (get_probability_display_view mode result)
  ]

abbrev pub initial_view : {R N B : Type 0} → CircuitModel R → SimulationView R N B
initial_view circuit = record {
  circuit = circuit;
  simulation_state = idle;
  sim_error = none;
  probability_view = none;
  bloch_vectors = none;
  runs = [];
}
