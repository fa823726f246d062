-- ===== src/Qasm/Accepted.antt =====
-- What holds of each circuit that `parseQasm3` returns.
use mvp_qcp.Base.{ℕ, ◌≡◌, ◌∙◌, sym, ◌<◌, none, List, All, All-imp}
use mvp_qcp.Circuit.{CircuitModel, Collation, InRange, touched_qubits}
use mvp_qcp.Circuit.Validation.{validate_circuit_model}
use mvp_qcp.Submission.{CircuitTaskPayload, return, build_circuit_task_payload}
use mvp_qcp.Submission.Arity.{HasArity, HasRequired-of_HasArity}
use mvp_qcp.Submission.Payload.{returned_of_HasRequired}
use mvp_qcp.Qasm.{Host, StatementLine}
use mvp_qcp.Qasm.Parser.{success, parse_qasm3}
use mvp_qcp.Qasm.Declared.{Declares, Fits, parsed, anything_declared}

-- What the parser returns of any text is accepted by the validation, and each operation has
-- exactly as many targets, controls and parameters as the catalog says of its gate, and the payload
-- of the circuit can be built.
pub parse_qasm3-HasArity :
    ⦃c : Collation⦄ {R : Type 0} (host : Host R) (items : List StatementLine) {m : CircuitModel R}
    → parse_qasm3 host items ≡ success m
    → (validate_circuit_model m ≡ none)
      × All HasArity m.operations
      × (payload : CircuitTaskPayload R) × (build_circuit_task_payload m ≡ return payload)
parse_qasm3-HasArity host items {m} e =
    let anything : ℕ → Type 0 = λ n. Unit in
    let declared : All (λ item. Declares anything item.statement) items = anything_declared items in
    let (_, fits, accepted) = parsed host anything items declared e in
    let arity : All HasArity m.operations =
      All-imp {Q = HasArity} (λ o. λ (f : Fits host anything o). f.2.0) m.operations fits in
    let (payload, built) =
      returned_of_HasRequired m (All-imp HasRequired-of_HasArity m.operations arity) in
    (accepted, arity, payload, built)

-- Where every register of qubits that a text declares has the size n, what the parser returns has n
-- qubits and touches no others.
pub parse_qasm3-InRange :
    ⦃c : Collation⦄ {R : Type 0} (host : Host R) (n : ℕ) (items : List StatementLine)
    {m : CircuitModel R}
    → All (λ item. Declares (λ size. size ≡ n) item.statement) items
    → parse_qasm3 host items ≡ success m
    → (m.num_qubits ≡ n) × InRange m
parse_qasm3-InRange host n items {m} d e =
    let (size, fits, _) = parsed host (λ size. size ≡ n) items d e in
    (
      size,
      All-imp {Q = λ o. All (λ q. q < m.num_qubits) (touched_qubits o)}
          (λ o. λ (f : Fits host (λ size. size ≡ n) o).
            let same : f.0 ≡ m.num_qubits = f.1 ∙ sym size in rw⁻¹ same f.2.1)
          m.operations fits,
    )
