-- ===== src/Qasm/RoundTrip.antt =====
-- A circuit that is written as OpenQASM 3 and read again.
use mvp_qcp.Base.{ℕ, suc, List, [], ◌∷◌, map, String}
use mvp_qcp.Circuit.{Operation, CircuitModel, Collation, sort_operations}
use mvp_qcp.Template.{Added, add_all}
use mvp_qcp.Qasm.{Statement, StatementLine, Host}
use mvp_qcp.Qasm.Standard.{standard_all}
use mvp_qcp.Qasm.Reading.{read_back}

-- The lines of a text that has a statement in each, without comments.
abbrev pub number_lines : (Statement → String) → ℕ → List Statement → List StatementLine
number_lines excerpt line [] = []
number_lines excerpt line (st ∷ statements) =
    record { line = line; statement = st; excerpt = excerpt st }
    ∷ number_lines excerpt (suc line) statements

module _ {R : Type 0} (host : Host R) (rounded : R → R) where
  -- The operations that the lines of standard gates are read as.
  abbrev pub rereads : ℕ → List (Added R) → List (Operation R)
  rereads k gates = add_all "op-" (suc k) k (map (read_back rounded) gates)

  -- What a circuit is read as: its operations in the order of the layers and ids, each decomposed
  -- into gates of stdgates.inc, numbered, and each in a layer of its own.
  abbrev pub restored : ⦃c : Collation⦄ → CircuitModel R → CircuitModel R
  restored m = record {
    num_qubits = m.num_qubits;
    operations = rereads 0 (standard_all host (sort_operations m.operations));
  }
