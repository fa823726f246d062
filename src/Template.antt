-- ===== src/Template.antt =====
-- frontend/src/features/circuit/model/templates.ts. The source's `Math.PI / 2 ** d` stands
-- as the argument `angle`: the parameter of a controlled phase between qubits d apart.
use Prim.Native.String.{◌++◌ as str_append}
use mvp_qcp.Base.{
  ℕ, zero, suc, ◌+◌, ◌-◌, ◌/◌, ◌≡◌, ◌⊎◌, inl, inr, Bool, true, false, ◌||◌, Option, none, some,
  List, [], ◌∷◌, ◌++◌, map, String, str_eq, ltb, ◌==◌, if◌then◌else◌, or_else,
}
use mvp_qcp.Base.Decimal.{decimal}
use mvp_qcp.Base.Int.{ℤ, pos, pos_part}
use mvp_qcp.Gate.{GateName}
use mvp_qcp.Circuit.{Operation, CircuitModel}
use mvp_qcp.TimeStep.{clone_operation}
pub mod Numbered
pub mod Qft

pub record LoadCircuitTemplateOptions : Type 0 where
  pub num_qubits : Option ℤ
  pub include_swaps : Option Bool

pub data TemplateError : Type 0 where
  qft_num_qubits : TemplateError
  unknown_template : String → TemplateError

-- The arguments of the local function `addOperation`.
pub record Added (R : Type 0) : Type 0 where
  pub gate : GateName
  pub targets : List ℕ
  pub controls : Option (List ℕ)
  pub params : Option (List R)

module _ {R : Type 0} where
  abbrev pub added : GateName → List ℕ → Added R
  added gate targets = record { gate = gate; targets = targets; controls = none; params = none }

  abbrev pub controlled : GateName → List ℕ → List ℕ → Added R
  controlled gate targets controls = record {
    gate = gate;
    targets = targets;
    controls = some controls;
    params = none;
  }

  -- One call of `addOperation`, at its values of `operationIndex` and `layer`.
  abbrev pub numbered : String → ℕ → ℕ → Added R → Operation R
  numbered prefix operation_index layer a = record {
    id = str_append prefix (decimal operation_index);
    gate = a.gate;
    targets = a.targets;
    controls = a.controls;
    params = a.params;
    layer = layer;
  }

  -- The calls one after the other: each raises `operationIndex` and `layer` by one.
  unfoldable pub add_all : String → ℕ → ℕ → List (Added R) → List (Operation R)
  unfolding decimal
  add_all prefix operation_index layer [] = []
  add_all prefix operation_index layer (a ∷ rest) =
      numbered prefix operation_index layer a
      ∷ add_all prefix (suc operation_index) (suc layer) rest

  abbrev fixed : String → GateName → Option (List ℕ) → List ℕ → ℕ → Operation R
  fixed id gate controls targets layer = record {
    id = id;
    gate = gate;
    targets = targets;
    controls = controls;
    params = none;
    layer = layer;
  }

  abbrev pub bell_template : CircuitModel R
  bell_template = record {
    num_qubits = 2;
    operations =
        fixed "tpl-bell-1" GateName.h none (0 ∷ []) 0
        ∷ fixed "tpl-bell-2" GateName.cx (some (0 ∷ [])) (1 ∷ []) 1
        ∷ fixed "tpl-bell-3" GateName.m none (0 ∷ []) 2
        ∷ fixed "tpl-bell-4" GateName.m none (1 ∷ []) 3
        ∷ [];
  }

  abbrev pub superposition_template : CircuitModel R
  superposition_template = record {
    num_qubits = 3;
    operations =
        fixed "tpl-sup-1" GateName.h none (0 ∷ []) 0
        ∷ fixed "tpl-sup-2" GateName.h none (1 ∷ []) 0
        ∷ fixed "tpl-sup-3" GateName.h none (2 ∷ []) 0
        ∷ fixed "tpl-sup-4" GateName.m none (0 ∷ []) 1
        ∷ fixed "tpl-sup-5" GateName.m none (1 ∷ []) 2
        ∷ fixed "tpl-sup-6" GateName.m none (2 ∷ []) 3
        ∷ [];
  }

  abbrev pub clone_circuit_model : CircuitModel R → CircuitModel R
  clone_circuit_model m = record {
    num_qubits = m.num_qubits;
    operations = map clone_operation m.operations;
  }

  -- The loops over `target` and `control`, with the number of rounds that are left.
  unfoldable pub rotations : (ℕ → R) → ℕ → ℕ → ℕ → List (Added R)
  rotations angle target control zero = []
  rotations angle target control (suc rounds) =
      record {
        gate = GateName.cp;
        targets = target ∷ [];
        controls = some (control ∷ []);
        params = some (angle (control - target) ∷ []);
      }
      ∷ rotations angle target (suc control) rounds

  unfoldable pub transforms : (ℕ → R) → ℕ → ℕ → List (Added R)
  unfolding rotations
  transforms angle target zero = []
  transforms angle target (suc rounds) =
      added GateName.h (target ∷ []) ∷ rotations angle target (suc target) rounds
      ++ transforms angle (suc target) rounds

  unfoldable pub swaps : ℕ → ℕ → ℕ → List (Added R)
  swaps num_qubits left zero = []
  swaps num_qubits left (suc rounds) =
      added GateName.swap (left ∷ (num_qubits - left - 1) ∷ []) ∷ swaps num_qubits (suc left) rounds

  unfoldable pub each_qubit : GateName → ℕ → ℕ → List (Added R)
  each_qubit gate qubit zero = []
  each_qubit gate qubit (suc rounds) = added gate (qubit ∷ []) ∷ each_qubit gate (suc qubit) rounds

  unfoldable pub qft_operations : (ℕ → R) → ℕ → Bool → List (Added R)
  unfolding transforms swaps each_qubit
  qft_operations angle n include_swaps =
      (transforms angle 0 n ++ (if include_swaps then swaps n 0 (n / 2) else []))
      ++ each_qubit GateName.m 0 n

  unfoldable pub create_qft_template : (ℕ → R) → ℤ → Bool → TemplateError ⊎ CircuitModel R
  unfolding qft_operations add_all
  create_qft_template angle num_qubits include_swaps =
      let n = pos_part num_qubits in
      if ltb n 2 || ltb 32 n
      then inl qft_num_qubits
      else inr (record {
        num_qubits = n;
        operations = add_all "tpl-qft-" 1 0 (qft_operations angle n include_swaps);
      })

  -- The qubits of a pattern that are 0, from the given one on.
  unfoldable pub flips : ℕ → List ℕ → List (Added R)
  flips qubit [] = []
  flips qubit (bit ∷ bits) =
      let rest = flips (suc qubit) bits in
      if bit == 0 then added GateName.x (qubit ∷ []) ∷ rest else rest

  abbrev phase_flip_on_all_ones : List (Added R)
  phase_flip_on_all_ones =
      controlled GateName.ccx (4 ∷ []) (0 ∷ 1 ∷ [])
      ∷ controlled GateName.ccz (3 ∷ []) (4 ∷ 2 ∷ [])
      ∷ controlled GateName.ccx (4 ∷ []) (0 ∷ 1 ∷ [])
      ∷ []

  unfoldable pub marks : List (List ℕ) → List (Added R)
  unfolding flips
  marks [] = []
  marks (pattern_bits ∷ patterns) =
      flips 0 pattern_bits ++ phase_flip_on_all_ones ++ flips 0 pattern_bits ++ marks patterns

  unfoldable pub grover_operations : List (Added R)
  unfolding marks each_qubit
  grover_operations =
      each_qubit GateName.h 0 4
      ++ marks (
          (0 ∷ 0 ∷ 0 ∷ 1 ∷ [])
          ∷ (0 ∷ 0 ∷ 1 ∷ 0 ∷ [])
          ∷ (1 ∷ 1 ∷ 0 ∷ 1 ∷ [])
          ∷ (1 ∷ 1 ∷ 1 ∷ 0 ∷ [])
          ∷ [])
      ++ each_qubit GateName.h 0 4
      ++ each_qubit GateName.x 0 4
      ++ phase_flip_on_all_ones
      ++ each_qubit GateName.x 0 4
      ++ each_qubit GateName.h 0 4
      ++ each_qubit GateName.m 0 5

  unfoldable pub create_grover_template : CircuitModel R
  unfolding grover_operations add_all
  create_grover_template = record {
    num_qubits = 5;
    operations = add_all "tpl-grover-" 1 0 grover_operations;
  }

  unfoldable pub load_circuit_template :
      (ℕ → R) → String → LoadCircuitTemplateOptions → TemplateError ⊎ CircuitModel R
  unfolding create_qft_template create_grover_template
  load_circuit_template angle template_id options =
      if str_eq template_id "qft"
      then create_qft_template angle (or_else options.num_qubits (pos 4))
          (or_else options.include_swaps true)
      else if str_eq template_id "grover"
      then inr (clone_circuit_model create_grover_template)
      else if str_eq template_id "bell"
      then inr (clone_circuit_model bell_template)
      else if str_eq template_id "superposition"
      then inr (clone_circuit_model superposition_template)
      else inl (unknown_template template_id)
