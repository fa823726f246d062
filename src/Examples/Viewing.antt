-- ===== src/Examples/Viewing.antt =====
-- The view of two circuits, of which the first is answered after the second was shown.
use mvp_qcp.Base.{ℕ, refl, true, false, none, List, [], ◌∷◌, ◌+◌, ◌≡◌, String, ltb}
use mvp_qcp.Gate.{GateName}
use mvp_qcp.Circuit.{CircuitModel}
use mvp_qcp.Simulation.Filter.{Probabilities}
use mvp_qcp.Simulation.View.{
  Run, SimulationView, ready, response, cancel, on_circuit, on_response, initial_view,
}
use mvp_qcp.Simulation.View.Current.{
  changed, answered, Reach, mounted, next, IsCurrent, Reach-IsCurrent,
}
use mvp_qcp.Examples.{by_rank, bell, operation}

-- Percentages.
abbrev percent : Probabilities ℕ
percent = record {
  is_finite = λ p. true;
  is_negative = λ p. false;
  exceeds = λ p epsilon. ltb epsilon p;
  plus = λ p q. p + q;
  zero = 0;
  epsilon_of = λ n. 5;
}

abbrev simulated : CircuitModel ℕ → List (String × ℕ)
simulated m = ("00", 50) ∷ ("01", 0) ∷ ("11", 50) ∷ []

abbrev flip : CircuitModel ℕ
flip = record { num_qubits = 1; operations = operation "a" GateName.x (0 ∷ []) none 0 ∷ [] }

abbrev asked : CircuitModel ℕ → Run ℕ
asked m = record { circuit = m; cancelled = false }

abbrev edited : SimulationView ℕ ℕ ℕ
edited = on_circuit flip (on_circuit bell (initial_view bell))

abbrev late : SimulationView ℕ ℕ ℕ
late =
    on_response percent (cancel (asked bell)) (asked flip ∷ []) (response (simulated bell) none)
      edited

abbrev viewed : SimulationView ℕ ℕ ℕ
viewed = on_response percent (asked flip) [] (response (simulated flip) none) late

viewed-Reach : Reach percent simulated viewed
unfolding on_circuit on_response
viewed-Reach =
    next
      (next (next (mounted bell) (changed flip (on_circuit bell (initial_view bell))))
        (answered (asked flip ∷ []) (cancel (asked bell)) [] none edited refl))
      (answered [] (asked flip) [] none late refl)

Reach-IsCurrent_example : IsCurrent percent simulated viewed
Reach-IsCurrent_example = Reach-IsCurrent percent simulated viewed-Reach

viewed_ready : viewed.simulation_state ≡ ready
unfolding on_circuit on_response
viewed_ready = refl
