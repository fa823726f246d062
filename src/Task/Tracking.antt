-- ===== src/Task/Tracking.antt =====
-- frontend/src/features/task-runtime/use-task-status-tracking.ts: following a task by the event
-- stream, or by polling where the stream fails. The host's intervals and the open streams are part
-- of the state, each with the handle that the host gave; `next_handle` is a handle not given yet.
use mvp_qcp.Base.{
  ℕ, suc, ◌+◌, Bool, true, false, not, ◌&&◌, Option, none, some, List, [], ◌∷◌, String, ◌==◌,
  if◌then◌else◌, filter,
}
use mvp_qcp.Task.{is_active_task_status, is_terminal_task_status}
pub mod Resources
pub mod Reachable
pub mod Timers
pub mod Intervals

pub data TaskTrackingMode : Type 0 where
  idle sse polling : TaskTrackingMode

pub record Tracking : Type 0 where
  pub tracking_mode : TaskTrackingMode
  pub elapsed_seconds : ℕ
  pub stream : Option ℕ
  pub polling_timer : Option ℕ
  pub elapsed_timer : Option ℕ
  pub tracked_task_id : Option ℕ
  pub latest_status : Option String
  pub open_streams : List ℕ
  pub intervals : List ℕ
  -- the tasks whose status has been asked for and not yet answered
  pub asked : List ℕ
  pub next_handle : ℕ

abbrev pub remove : ℕ → List ℕ → List ℕ
remove handle handles = filter (λ h. not (h == handle)) handles

-- `trackedTaskIdRef.current === taskId`
abbrev pub tracks : Option ℕ → ℕ → Bool
tracks none task_id = false
tracks (some tracked) task_id = tracked == task_id

unfoldable pub stop_stream : Tracking → Tracking
stop_stream s = elim s.stream [
  | none ↦ s
  | some handle ↦ record s { stream = none; open_streams = remove handle s.open_streams }
]

unfoldable pub stop_polling : Tracking → Tracking
stop_polling s = elim s.polling_timer [
  | none ↦ s
  | some handle ↦ record s { polling_timer = none; intervals = remove handle s.intervals }
]

unfoldable pub stop_elapsed_clock : Tracking → Tracking
stop_elapsed_clock s = elim s.elapsed_timer [
  | none ↦ s
  | some handle ↦ record s { elapsed_timer = none; intervals = remove handle s.intervals }
]

unfoldable pub stop_tracking : Tracking → Tracking
unfolding stop_stream stop_polling stop_elapsed_clock
stop_tracking s = record (stop_elapsed_clock (stop_polling (stop_stream s))) {
  tracked_task_id = none;
  tracking_mode = idle;
}

unfoldable pub reset_tracking : Tracking → Tracking
unfolding stop_tracking
reset_tracking s = record (stop_tracking s) { elapsed_seconds = 0 }

unfoldable pub apply_task_status : String → Tracking → Tracking
unfolding stop_tracking
apply_task_status status s =
    let s' : Tracking = record s { latest_status = some status } in
    if is_terminal_task_status (some status) then stop_tracking s' else s'

-- The interval is set and the first poll sent.
begin_polling : ℕ → Tracking → Tracking
begin_polling task_id s = record s {
  tracking_mode = polling;
  polling_timer = some s.next_handle;
  intervals = s.next_handle ∷ s.intervals;
  next_handle = suc s.next_handle;
  asked = task_id ∷ s.asked;
}

unfoldable pub start_polling : ℕ → Tracking → Tracking
unfolding begin_polling stop_stream stop_polling
start_polling task_id s =
    if tracks s.tracked_task_id task_id && is_active_task_status s.latest_status
    then begin_polling task_id (stop_polling (stop_stream s))
    else s

unfoldable pub start_elapsed_clock : Tracking → Tracking
unfolding stop_elapsed_clock
start_elapsed_clock s =
    let s' = stop_elapsed_clock s in
    record s' {
      elapsed_timer = some s'.next_handle;
      intervals = s'.next_handle ∷ s'.intervals;
      next_handle = suc s'.next_handle;
    }

-- `connected` is false where `connectTaskStatusStream` throws.
unfoldable pub start_stream_tracking : ℕ → Bool → Tracking → Tracking
unfolding start_polling
start_stream_tracking task_id connected s =
    if connected
    then record s {
      stream = some s.next_handle;
      open_streams = s.next_handle ∷ s.open_streams;
      next_handle = suc s.next_handle;
      tracking_mode = sse;
    }
    else start_polling task_id s

unfoldable pub start_tracking : ℕ → String → Bool → Tracking → Tracking
unfolding start_elapsed_clock stop_polling start_stream_tracking stop_tracking
start_tracking task_id status connected s =
    let s' : Tracking = record s { latest_status = some status } in
    if not (is_active_task_status (some status))
    then stop_tracking s'
    else start_stream_tracking task_id connected (
        stop_polling
          (start_elapsed_clock (record s' { tracked_task_id = some task_id; elapsed_seconds = 0 })))

-- The `onStatus` of the stream for a task, given the task and the status of an event.
unfoldable pub on_status : ℕ → ℕ → String → Tracking → Tracking
unfolding apply_task_status
on_status task_id event_task_id status s =
    if not (event_task_id == task_id)
    then s
    else if not (tracks s.tracked_task_id task_id)
    then s
    else apply_task_status status s

-- A tick of the polling interval, the answer to a poll and a tick of the clock.
unfoldable pub poll : ℕ → Tracking → Tracking
poll task_id s = record s { asked = task_id ∷ s.asked }

unfoldable pub answered : ℕ → String → Tracking → Tracking
unfolding apply_task_status
answered task_id status s = apply_task_status status (record s { asked = remove task_id s.asked })

unfoldable pub tick : Tracking → Tracking
tick s = record s { elapsed_seconds = s.elapsed_seconds + 1 }

abbrev pub untracked : Tracking
untracked = record {
  tracking_mode = idle;
  elapsed_seconds = 0;
  stream = none;
  polling_timer = none;
  elapsed_timer = none;
  tracked_task_id = none;
  latest_status = none;
  open_streams = [];
  intervals = [];
  asked = [];
  next_handle = 0;
}
