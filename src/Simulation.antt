-- ===== src/Simulation.antt =====
-- frontend/src/features/circuit/simulation/scheduler.ts: requests for a simulation, of which a newer
-- one makes the older ones stale. A request is named by its version. The host's timers and the
-- promises of the runner are part of the state; a settled promise keeps what it was settled with.
use mvp_qcp.Base.{
  ℕ, suc, Bool, true, false, not, Option, none, some, List, [], ◌∷◌, ◌==◌, if◌then◌else◌, filter,
}
pub mod Requests
pub mod Delivery
pub mod Filter
pub mod View

-- What a promise is settled with: the result, or an error with its code.
pub data Outcome : Type 0 where
  resolved sim_stale sim_timeout sim_exec_error worker_error : Outcome

pub record Settlement : Type 0 where
  pub request : ℕ
  pub outcome : Outcome

pub record Scheduler : Type 0 where
  pub version : ℕ
  pub pending : Option ℕ
  -- the requests whose timer is set, and those whose runner has not answered
  pub timers : List ℕ
  pub running : List ℕ
  -- the settled promises, the latest first
  pub settled : List Settlement

abbrev pub without : ℕ → List ℕ → List ℕ
without request requests = filter (λ r. not (r == request)) requests

abbrev pub settle : ℕ → Outcome → List Settlement → List Settlement
settle request outcome settled = record { request = request; outcome = outcome } ∷ settled

unfoldable pub cancel_pending : Scheduler → Scheduler
cancel_pending s = elim s.pending [
  | none ↦ s
  | some request ↦ record s {
    timers = without request s.timers;
    settled = settle request sim_stale s.settled;
    pending = none;
  }
]

unfoldable pub schedule : Scheduler → Scheduler
unfolding cancel_pending
schedule s =
    let request_version = suc s.version in
    let s' = cancel_pending (record s { version = request_version }) in
    record s' { pending = some request_version; timers = request_version ∷ s'.timers }

-- The timer of a request goes off: the runner is called.
unfoldable pub fire : ℕ → Scheduler → Scheduler
fire request_version s = record s {
  pending = none;
  timers = without request_version s.timers;
  running = request_version ∷ s.running;
}

-- The runner answers with a result, or with the error of the worker.
unfoldable pub respond : ℕ → Bool → Scheduler → Scheduler
respond request_version is_result s =
    let answer = if is_result then resolved else worker_error in
    record s {
      running = without request_version s.running;
      settled =
          settle request_version (if not (request_version == s.version) then sim_stale else answer)
            s.settled;
    }

-- The runner takes too long, or throws.
unfoldable pub fail : ℕ → Bool → Scheduler → Scheduler
fail request_version timed_out s = record s {
  running = without request_version s.running;
  settled = settle request_version (if timed_out then sim_timeout else sim_exec_error) s.settled;
}

abbrev pub create_simulation_scheduler : Scheduler
create_simulation_scheduler = record {
  version = 0;
  pending = none;
  timers = [];
  running = [];
  settled = [];
}
