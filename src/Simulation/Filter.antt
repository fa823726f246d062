-- ===== src/Simulation/Filter.antt =====
-- frontend/src/features/circuit/simulation/probability-filter.ts. The probabilities are a list of
-- pairs, with each state once; the numbers and their tests are the host's.
use mvp_qcp.Base.{
  ℕ, ◌-◌, Bool, true, false, not, Option, none, some, List, [], ◌∷◌, String, ltb, if◌then◌else◌,
  length, filter,
}

pub data ProbabilityDisplayMode : Type 0 where
  filtered all_shown : ProbabilityDisplayMode

-- `epsilon_of n` is 2 ** -(n + 2).
pub record Probabilities (N : Type 0) : Type 0 where
  pub is_finite : N → Bool
  pub is_negative : N → Bool
  pub exceeds : N → N → Bool
  pub plus : N → N → N
  pub zero : N
  pub epsilon_of : ℕ → N

pub record ProbabilityFilterResult (N : Type 0) : Type 0 where
  pub all_states : List (String × N)
  pub visible : List (String × N)
  pub hidden_count : ℕ
  pub total_count : ℕ
  pub visible_count : ℕ
  pub probability_sum : N
  pub epsilon : N

pub record ProbabilityDisplayView (N : Type 0) : Type 0 where
  pub probabilities : List (String × N)
  pub visible_count : ℕ
  pub hidden_count : ℕ

module _ {N : Type 0} (host : Probabilities N) where
  -- `assertProbabilityValue` does not throw.
  abbrev pub is_probability : N → Bool
  is_probability value =
      if not (host.is_finite value) then false else if host.is_negative value then false else true

  -- `calculateEpsilon`; it throws where the number of qubits is 0.
  abbrev pub calculate_epsilon : ℕ → Option N
  calculate_epsilon num_qubits =
      if ltb num_qubits 1 then none else some (host.epsilon_of num_qubits)

  -- The loop over the entries: the sum, or nothing where a value is no probability.
  unfoldable pub sum_probabilities : N → List (String × N) → Option N
  sum_probabilities sum [] = some sum
  sum_probabilities sum ((state, value) ∷ entries) =
      let rest = sum_probabilities (host.plus sum value) entries in
      if is_probability value then rest else none

  abbrev pub visible_states : N → List (String × N) → List (String × N)
  visible_states epsilon entries = filter (λ entry. host.exceeds entry.1 epsilon) entries

  -- Nothing where the source throws.
  unfoldable pub filter_probabilities : ℕ → List (String × N) → Option (ProbabilityFilterResult N)
  unfolding sum_probabilities
  filter_probabilities num_qubits probabilities = elim (calculate_epsilon num_qubits) [
    | none ↦ none
    | some epsilon ↦ elim (sum_probabilities host.zero probabilities) [
      | none ↦ none
      | some sum ↦
          let visible = visible_states epsilon probabilities in
          some (record {
            all_states = probabilities;
            visible = visible;
            hidden_count = length probabilities - length visible;
            total_count = length probabilities;
            visible_count = length visible;
            probability_sum = sum;
            epsilon = epsilon;
          })
    ]
  ]

unfoldable pub get_probability_display_view :
    {N : Type 0} → ProbabilityDisplayMode → ProbabilityFilterResult N → ProbabilityDisplayView N
get_probability_display_view all_shown view = record {
  probabilities = view.all_states;
  visible_count = view.total_count;
  hidden_count = 0;
}
get_probability_display_view filtered view = record {
  probabilities = view.visible;
  visible_count = view.visible_count;
  hidden_count = view.hidden_count;
}
