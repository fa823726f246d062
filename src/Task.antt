-- ===== src/Task.antt =====
-- frontend/src/lib/task-status.ts. A status is a string of the backend, `none` the source's `null`;
-- the labels are left out.
use mvp_qcp.Base.{Bool, true, false, ◌&&◌, Option, none, some, List, [], ◌∷◌, String, str_eq, any}
pub mod Tracking
pub mod Stream

abbrev pub task_statuses : List String
task_statuses =
    "PENDING" ∷ "RUNNING" ∷ "CANCELLED" ∷ "SUCCESS" ∷ "FAILURE" ∷ "TIMEOUT" ∷ "RETRY_EXHAUSTED" ∷ []

abbrev pub terminal_task_statuses : List String
terminal_task_statuses = "CANCELLED" ∷ "SUCCESS" ∷ "FAILURE" ∷ "TIMEOUT" ∷ "RETRY_EXHAUSTED" ∷ []

abbrev pub active_task_statuses : List String
active_task_statuses = "PENDING" ∷ "RUNNING" ∷ []

abbrev pub failure_task_statuses : List String
failure_task_statuses = "FAILURE" ∷ "TIMEOUT" ∷ "RETRY_EXHAUSTED" ∷ []

-- `status !== null && set.has(status)`
abbrev has : List String → Option String → Bool
has set none = false
has set (some status) = any (str_eq status) set

unfoldable pub is_task_status : Option String → Bool
is_task_status status = has task_statuses status

unfoldable pub is_active_task_status : Option String → Bool
unfolding is_task_status
is_active_task_status status = is_task_status status && has active_task_statuses status

unfoldable pub is_terminal_task_status : Option String → Bool
unfolding is_task_status
is_terminal_task_status status = is_task_status status && has terminal_task_statuses status

unfoldable pub is_failure_task_status : Option String → Bool
unfolding is_task_status
is_failure_task_status status = is_task_status status && has failure_task_statuses status
