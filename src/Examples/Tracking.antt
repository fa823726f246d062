-- ===== src/Examples/Tracking.antt =====
-- The tracking of a task through a failure of its stream.
use mvp_qcp.Base.{◌≡◌, refl, true, some, none, [], ◌∷◌, ◌++◌}
use mvp_qcp.Task.Tracking.{
  Tracking, idle, untracked, start_tracking, start_polling, apply_task_status, answered,
  reset_tracking,
}
use mvp_qcp.Task.{is_active_task_status, is_terminal_task_status}
use mvp_qcp.Task.Tracking.Resources.{Running}
use mvp_qcp.Task.Tracking.Intervals.{held, Reach-held}
use mvp_qcp.Task.Tracking.Reachable.{
  start, lost, Reach, at_first, next, Reach-Running, Reach-terminal,
}

abbrev streamed : Tracking
streamed = start_tracking 7 "PENDING" true untracked

abbrev polled : Tracking
polled = start_polling 7 streamed

abbrev polled-Reach : Reach polled
polled-Reach = next (next at_first (start 7 "PENDING" true untracked)) (lost 7 streamed)

Reach-Running_example : Running polled
Reach-Running_example = Reach-Running polled-Reach ((tt, refl), tt)

success_is_terminal : is_terminal_task_status (some "SUCCESS") ≡ true
unfolding is_terminal_task_status
success_is_terminal = refl

Reach-terminal_example :
    ((apply_task_status "SUCCESS" polled).tracking_mode ≡ idle)
    × ((apply_task_status "SUCCESS" polled).open_streams ≡ [])
    × ((apply_task_status "SUCCESS" polled).intervals ≡ [])
Reach-terminal_example = Reach-terminal "SUCCESS" polled-Reach ((tt, refl), tt) success_is_terminal

-- Task 8 is tracked after task 7, and the answer to a poll of task 7 comes late: the tracking of
-- task 8 ends.
late_answer :
    (answered 7 "SUCCESS" (start_tracking 8 "PENDING" true (reset_tracking polled))).tracked_task_id
    ≡ none
unfolding start_tracking start_polling reset_tracking answered is_terminal_task_status
late_answer = refl

-- A start while task 7 is tracked leaves its stream open, also after a terminal status.
left_open :
    (apply_task_status "SUCCESS" (start_tracking 8 "PENDING" true streamed)).open_streams ≡ 1 ∷ []
unfolding start_tracking apply_task_status is_terminal_task_status is_active_task_status
left_open = refl

-- Task 8 is tracked while task 7 is polled.
abbrev taken_over : Tracking
taken_over = start_tracking 8 "PENDING" true polled

Reach-held_example :
    (taken_over.intervals ≡ held taken_over.polling_timer ++ held taken_over.elapsed_timer)
    × ((apply_task_status "SUCCESS" taken_over).intervals ≡ [])
Reach-held_example =
    Reach-held "SUCCESS" (next polled-Reach (start 8 "PENDING" true polled)) success_is_terminal
