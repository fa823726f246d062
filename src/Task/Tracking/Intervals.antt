-- ===== src/Task/Tracking/Intervals.antt =====
-- The host's intervals, however often the tracking is started.
use mvp_qcp.Base.{
  ℕ, suc, ◌+◌, ◌≡◌, ◌<◌, refl, Bool, true, false, ◌&&◌, Option, none, some, List, [], ◌∷◌, ◌++◌,
  String, ◌==◌, arith, Bool-cases, inl, inr,
}
use mvp_qcp.Task.{is_active_task_status, is_terminal_task_status}
use mvp_qcp.Task.Tracking.{
  Tracking, polling, sse, remove, tracks, stop_stream, stop_polling, stop_elapsed_clock,
  stop_tracking, reset_tracking, apply_task_status, begin_polling, start_polling,
  start_elapsed_clock, start_stream_tracking, start_tracking, on_status, poll, answered, tick,
  untracked,
}
use mvp_qcp.Task.Tracking.Resources.{remove-only}
use mvp_qcp.Task.Tracking.Reachable.{
  Step, submit, stop, start, event, lost, polled, answer, ticked, Reach, at_first, next,
}
use mvp_qcp.Task.Tracking.Timers.{
  Timed, no_timer, clock_timer, poll_timer, both_timers, others-Timed, given_handle,
  given_handle-Timed, stop_stream-Timed, stop_polling-Timed, stop-Timed, stop-intervals,
}

remove-second : (h k : ℕ) → h < k → remove h (k ∷ h ∷ []) ≡ k ∷ []
remove-second h k l = ground arith

-- The clock starts, and the polling stops.
start_clock-Timed : (s : Tracking) → Timed s → Timed (stop_polling (start_elapsed_clock s))
unfolding stop_polling start_elapsed_clock stop_elapsed_clock
start_clock-Timed _ (no_timer r) = clock_timer (given_handle r) r.next_handle (omega arith)
start_clock-Timed _ (clock_timer r clock l) =
    rw (remove-only clock) (clock_timer (given_handle r) r.next_handle (omega arith))
start_clock-Timed _ (poll_timer r timer l) =
    rw (remove-second timer r.next_handle l)
      (clock_timer (given_handle r) r.next_handle (omega arith))
start_clock-Timed _ (both_timers r timer clock l k) =
    rw (remove-second clock timer l, remove-second timer r.next_handle k)
      (clock_timer (given_handle r) r.next_handle (omega arith))

begin-Timed :
    (task_id : ℕ) (s : Tracking)
    → Timed s
    → s.polling_timer ≡ none
    → Timed (begin_polling task_id s)
unfolding begin_polling
begin-Timed task_id _ (no_timer r) e =
    poll_timer
      (record r {
        tracking_mode = polling;
        next_handle = suc r.next_handle;
        asked = task_id ∷ r.asked;
      })
      r.next_handle (omega arith)
begin-Timed task_id _ (clock_timer r clock l) e =
    both_timers
      (record r {
        tracking_mode = polling;
        next_handle = suc r.next_handle;
        asked = task_id ∷ r.asked;
      })
      r.next_handle clock l (omega arith)
begin-Timed task_id _ (poll_timer r timer l) e = cc
begin-Timed task_id _ (both_timers r timer clock l k) e = cc

start_polling-Timed : (task_id : ℕ) (s : Tracking) → Timed s → Timed (start_polling task_id s)
unfolding start_polling
start_polling-Timed task_id s h =
    elim (Bool-cases (tracks s.tracked_task_id task_id && is_active_task_status s.latest_status)) [
      | inr e ↦ rw e h
      | inl e ↦
          let (quiet, idle_now) = stop_polling-Timed (stop_stream s) (stop_stream-Timed s h) in
          rw e (begin-Timed task_id (stop_polling (stop_stream s)) quiet idle_now)
    ]

start_stream-Timed :
    (task_id : ℕ) (connected : Bool) (s : Tracking)
    → Timed s
    → Timed (start_stream_tracking task_id connected s)
unfolding start_stream_tracking
start_stream-Timed task_id true s h =
    others-Timed (given_handle s) sse s.elapsed_seconds (some s.next_handle) s.tracked_task_id
      s.latest_status (s.next_handle ∷ s.open_streams) s.asked (given_handle-Timed s h)
start_stream-Timed task_id false s h = start_polling-Timed task_id s h

start-Timed :
    (task_id : ℕ) (status : String) (connected : Bool) (s : Tracking)
    → Timed s
    → Timed (start_tracking task_id status connected s)
unfolding start_tracking
start-Timed task_id status connected s h = elim (Bool-cases (is_active_task_status (some status))) [
  | inr inactive ↦ rw inactive (
      stop-Timed (record s { latest_status = some status })
        (others-Timed s s.tracking_mode s.elapsed_seconds s.stream s.tracked_task_id (some status)
          s.open_streams s.asked h))
  | inl active ↦
      let s' : Tracking = record s {
        latest_status = some status;
        tracked_task_id = some task_id;
        elapsed_seconds = 0;
      } in
      rw active (
        start_stream-Timed task_id connected (stop_polling (start_elapsed_clock s')) (
          start_clock-Timed s' (
            others-Timed s s.tracking_mode 0 s.stream (some task_id) (some status) s.open_streams
              s.asked h)))
]

apply-Timed : (status : String) (s : Tracking) → Timed s → Timed (apply_task_status status s)
unfolding apply_task_status
apply-Timed status s h =
    let noted =
      others-Timed s s.tracking_mode s.elapsed_seconds s.stream s.tracked_task_id (some status)
        s.open_streams s.asked h in
    elim (Bool-cases (is_terminal_task_status (some status))) [
      | inl e ↦ rw e (stop-Timed (record s { latest_status = some status }) noted)
      | inr e ↦ rw e noted
    ]

on_status-Timed :
    (task_id event_task_id : ℕ) (status : String) (s : Tracking)
    → Timed s
    → Timed (on_status task_id event_task_id status s)
unfolding on_status
on_status-Timed task_id event_task_id status s h = elim (Bool-cases (event_task_id == task_id)) [
  | inr e ↦ rw e h
  | inl e ↦ elim (Bool-cases (tracks s.tracked_task_id task_id)) [
    | inr f ↦ rw (e, f) h
    | inl f ↦ rw (e, f) (apply-Timed status s h)
  ]
]

asked-Timed : (s : Tracking) (asked : List ℕ) → Timed s → Timed (record s { asked = asked })
asked-Timed s asked h =
    others-Timed s s.tracking_mode s.elapsed_seconds s.stream s.tracked_task_id s.latest_status
      s.open_streams asked h

seconds-Timed :
    (s : Tracking) (seconds : ℕ) → Timed s → Timed (record s { elapsed_seconds = seconds })
seconds-Timed s seconds h =
    others-Timed s s.tracking_mode seconds s.stream s.tracked_task_id s.latest_status s.open_streams
      s.asked h

Step-Timed : {s t : Tracking} → Step s t → Timed s → Timed t
unfolding reset_tracking poll answered tick
Step-Timed (submit s) h = seconds-Timed (stop_tracking s) 0 (stop-Timed s h)
Step-Timed (stop s) h = stop-Timed s h
Step-Timed (start task_id status connected s) h = start-Timed task_id status connected s h
Step-Timed (event task_id event_task_id status s) h =
    on_status-Timed task_id event_task_id status s h
Step-Timed (lost task_id s) h = start_polling-Timed task_id s h
Step-Timed (polled task_id s) h = asked-Timed s (task_id ∷ s.asked) h
Step-Timed (answer task_id status s) h =
    apply-Timed status (record s { asked = remove task_id s.asked })
      (asked-Timed s (remove task_id s.asked) h)
Step-Timed (ticked s) h = seconds-Timed s (s.elapsed_seconds + 1) h

Reach-Timed : {s : Tracking} → Reach s → Timed s
Reach-Timed at_first = no_timer untracked
Reach-Timed (next r step) = Step-Timed step (Reach-Timed r)

abbrev pub held : Option ℕ → List ℕ
held none = []
held (some handle) = handle ∷ []

Timed-held : (s : Tracking) → Timed s → s.intervals ≡ held s.polling_timer ++ held s.elapsed_timer
Timed-held _ (no_timer r) = refl
Timed-held _ (clock_timer r clock l) = refl
Timed-held _ (poll_timer r timer l) = refl
Timed-held _ (both_timers r timer clock l k) = refl

-- Whatever happens, in any order, also where the tracking is started while something is tracked: the
-- intervals that the host runs are exactly those that the hook holds the handles of, the polling's
-- and then the clock's, and applying a terminal status clears every one.
pub Reach-held :
    {s : Tracking} (status : String)
    → Reach s
    → is_terminal_task_status (some status) ≡ true
    → (s.intervals ≡ held s.polling_timer ++ held s.elapsed_timer)
      × ((apply_task_status status s).intervals ≡ [])
unfolding apply_task_status
Reach-held {s} status r e =
    let timed = Reach-Timed r in
    let noted =
      others-Timed s s.tracking_mode s.elapsed_seconds s.stream s.tracked_task_id (some status)
        s.open_streams s.asked timed in
    (Timed-held s timed, rw e (stop-intervals (record s { latest_status = some status }) noted))
