-- ===== src/Task/Tracking/Reachable.antt =====
-- What the host runs for the tracking in every state that can be reached.
use mvp_qcp.Base.{ℕ, ◌≡◌, refl, Bool, true, none, some, [], ◌∷◌, String}
use mvp_qcp.Task.{is_terminal_task_status}
use mvp_qcp.Task.Tracking.{
  Tracking, idle, remove, stop_tracking, reset_tracking, apply_task_status, start_polling,
  start_tracking, on_status, poll, answered, tick, untracked,
}
use mvp_qcp.Task.Tracking.Resources.{
  Running, nothing, streaming, asking, stop-Running, reset-Running, noted-Running, tick-Running,
  apply-Running, on_status-Running, start_polling-Running, start-Running,
}

-- What can happen: a submission resets the tracking, and the answer to one starts it; events and failures of the streams, also of those closed before; polls, their answers
-- and the ticks of the clock, in any order.
pub data Step : Tracking → Tracking → Type 0 where
  submit : (s : Tracking) → Step s (reset_tracking s)
  stop : (s : Tracking) → Step s (stop_tracking s)
  start :
      (task_id : ℕ) (status : String) (connected : Bool) (s : Tracking)
      → Step s (start_tracking task_id status connected s)
  event :
      (task_id event_task_id : ℕ) (status : String) (s : Tracking)
      → Step s (on_status task_id event_task_id status s)
  lost : (task_id : ℕ) (s : Tracking) → Step s (start_polling task_id s)
  polled : (task_id : ℕ) (s : Tracking) → Step s (poll task_id s)
  answer : (task_id : ℕ) (status : String) (s : Tracking) → Step s (answered task_id status s)
  ticked : (s : Tracking) → Step s (tick s)

pub data Reach : Tracking → Type 0 where
  at_first : Reach untracked
  next : {s t : Tracking} → Reach s → Step s t → Reach t

-- No start of the tracking comes while something is tracked.
abbrev StartsIdle : {s t : Tracking} → Step s t → Type 0
StartsIdle (submit s) = Unit
StartsIdle (stop s) = Unit
StartsIdle (start task_id status connected s) = s.tracking_mode ≡ idle
StartsIdle (event task_id event_task_id status s) = Unit
StartsIdle (lost task_id s) = Unit
StartsIdle (polled task_id s) = Unit
StartsIdle (answer task_id status s) = Unit
StartsIdle (ticked s) = Unit

abbrev pub AllStartIdle : {s : Tracking} → Reach s → Type 0
AllStartIdle at_first = Unit
AllStartIdle (next r step) = AllStartIdle r × StartsIdle step

Step-Running : {s t : Tracking} (step : Step s t) → StartsIdle step → Running s → Running t
unfolding poll answered
Step-Running (submit s) i r = reset-Running s r
Step-Running (stop s) i r = stop-Running s r
Step-Running (start task_id status connected s) e r = start-Running task_id status connected s e r
Step-Running (event task_id event_task_id status s) i r =
    on_status-Running task_id event_task_id status s r
Step-Running (lost task_id s) i r = start_polling-Running task_id s r
Step-Running (polled task_id s) i r = noted-Running s s.latest_status (task_id ∷ s.asked) r
Step-Running (answer task_id status s) i r =
    apply-Running status (record s { asked = remove task_id s.asked })
      (noted-Running s s.latest_status (remove task_id s.asked) r)
Step-Running (ticked s) i r = tick-Running s r

-- Whatever happens, in any order, where every start of the tracking comes when nothing is tracked,
-- the host runs for the tracking exactly what its mode says: nothing when idle; with the event
-- stream, that stream and the clock; with polling, the polling's interval and the clock, and no
-- stream.
pub Reach-Running : {s : Tracking} (r : Reach s) → AllStartIdle r → Running s
Reach-Running at_first i = nothing 0 none [] 0
Reach-Running (next r step) (before, i) = Step-Running step i (Reach-Running r before)

stop-idle : (s : Tracking) → Running s → (stop_tracking s).tracking_mode ≡ idle
unfolding stop_tracking
stop-idle s r = refl

idle-Running :
    (s : Tracking) → s.tracking_mode ≡ idle → Running s → (s.open_streams ≡ []) × (s.intervals ≡ [])
idle-Running _ e (nothing _ _ _ _) = (refl, refl)
idle-Running _ e (streaming _ _ _ _ _ _ _ _) = cc
idle-Running _ e (asking _ _ _ _ _ _ _ _ _) = cc

-- In every state that is reached where every start of the tracking comes when nothing is tracked,
-- applying a terminal status leaves the tracking idle, with every stream closed and every interval
-- cleared.
pub Reach-terminal :
    {s : Tracking} (status : String) (r : Reach s)
    → AllStartIdle r
    → is_terminal_task_status (some status) ≡ true
    → ((apply_task_status status s).tracking_mode ≡ idle)
      × ((apply_task_status status s).open_streams ≡ [])
      × ((apply_task_status status s).intervals ≡ [])
unfolding apply_task_status
Reach-terminal {s} status r i e =
    let s' : Tracking = record s { latest_status = some status } in
    let running = noted-Running s (some status) s.asked (Reach-Running r i) in
    let halted = stop-idle s' running in
    let (streams, intervals) = idle-Running (stop_tracking s') halted (stop-Running s' running) in
    rw e (halted, streams, intervals)
