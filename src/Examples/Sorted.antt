-- ===== src/Examples/Sorted.antt =====
-- The normal form of a concrete circuit.
use mathlib.Core.List.{Perm}
use mvp_qcp.Base.{ℕ, ◌≡◌, List, Pairs}
use mvp_qcp.Circuit.{Operation}
use mvp_qcp.Circuit.Edit.{normalize_circuit}
use mvp_qcp.Circuit.Edit.NormalForm.{Named, Precedes, normalize_circuit_lem}
use mvp_qcp.Examples.{by_rank, bell}

normalize_circuit_lem_example :
    (named : List (Operation ℕ)) × Named 0 bell.operations named
    × Perm (normalize_circuit bell).operations named
    × Pairs Precedes (normalize_circuit bell).operations
    × ((normalize_circuit bell).num_qubits ≡ bell.num_qubits)
normalize_circuit_lem_example = normalize_circuit_lem bell
