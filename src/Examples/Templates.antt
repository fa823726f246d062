-- ===== src/Examples/Templates.antt =====
-- The templates at concrete sizes.
use mvp_qcp.Base.{ℕ, ◌≡◌, inr, none, true, arith, All, refl}
use mvp_qcp.Base.Int.{pos}
use mvp_qcp.Circuit.{CircuitModel, InRange}
use mvp_qcp.Circuit.Validation.{validate_circuit_model}
use mvp_qcp.Submission.Arity.{HasArity}
use mvp_qcp.Template.{create_qft_template, create_grover_template}
use mvp_qcp.Template.Qft.{create_qft_template_lem}
use mvp_qcp.Examples.{by_rank}

create_qft_template_lem_example :
    (m : CircuitModel ℕ) × (create_qft_template (λ d. d) (pos 5) true ≡ inr m)
    × (validate_circuit_model m ≡ none)
    × InRange m
    × All HasArity m.operations
create_qft_template_lem_example =
    create_qft_template_lem (λ d. d) 5 true (omega arith) (omega arith)

grover_accepted : validate_circuit_model {R = ℕ} create_grover_template ≡ none
unfolding validate_circuit_model create_grover_template
grover_accepted = refl
