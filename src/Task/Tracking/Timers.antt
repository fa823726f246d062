-- ===== src/Task/Tracking/Timers.antt =====
-- The intervals that the hook holds the handles of, and how they are stopped.
use mvp_qcp.Base.{
  ℕ, suc, ◌≡◌, ◌<◌, refl, Option, none, some, List, [], ◌∷◌, String, arith, Option-cases, inl, inr,
}
use mvp_qcp.Task.Tracking.{
  Tracking, TaskTrackingMode, idle, remove, stop_stream, stop_polling, stop_elapsed_clock,
  stop_tracking,
}
use mvp_qcp.Task.Tracking.Resources.{remove-only, remove-first}

-- The intervals that the host runs are those of the polling and of the clock.
pub data Timed : Tracking → Type 0 where
  no_timer :
      (r : Tracking)
      → Timed (record r { polling_timer = none; elapsed_timer = none; intervals = [] })
  clock_timer :
      (r : Tracking) (clock : ℕ)
      → clock < r.next_handle
      → Timed
          (record r { polling_timer = none; elapsed_timer = some clock; intervals = clock ∷ [] })
  poll_timer :
      (r : Tracking) (timer : ℕ)
      → timer < r.next_handle
      → Timed
          (record r { polling_timer = some timer; elapsed_timer = none; intervals = timer ∷ [] })
  both_timers :
      (r : Tracking) (timer clock : ℕ)
      → clock < timer
      → timer < r.next_handle
      → Timed (record r {
        polling_timer = some timer;
        elapsed_timer = some clock;
        intervals = timer ∷ clock ∷ [];
      })

abbrev pub with_others :
    TaskTrackingMode
    → ℕ
    → Option ℕ
    → Option ℕ
    → Option String
    → List ℕ
    → List ℕ
    → Tracking
    → Tracking
with_others mode seconds stream tracked latest streams asked r = record r {
  tracking_mode = mode;
  elapsed_seconds = seconds;
  stream = stream;
  tracked_task_id = tracked;
  latest_status = latest;
  open_streams = streams;
  asked = asked;
}

-- Fields that the intervals do not depend on.
pub others-Timed :
    (s : Tracking) (mode : TaskTrackingMode) (seconds : ℕ) (stream tracked : Option ℕ)
    (latest : Option String) (streams asked : List ℕ)
    → Timed s
    → Timed (with_others mode seconds stream tracked latest streams asked s)
others-Timed _ mode seconds stream tracked latest streams asked (no_timer r) =
    no_timer (with_others mode seconds stream tracked latest streams asked r)
others-Timed _ mode seconds stream tracked latest streams asked (clock_timer r clock l) =
    clock_timer (with_others mode seconds stream tracked latest streams asked r) clock l
others-Timed _ mode seconds stream tracked latest streams asked (poll_timer r timer l) =
    poll_timer (with_others mode seconds stream tracked latest streams asked r) timer l
others-Timed _ mode seconds stream tracked latest streams asked (both_timers r timer clock l k) =
    both_timers (with_others mode seconds stream tracked latest streams asked r) timer clock l k

abbrev pub given_handle : Tracking → Tracking
given_handle r = record r { next_handle = suc r.next_handle }

pub given_handle-Timed : (s : Tracking) → Timed s → Timed (given_handle s)
given_handle-Timed _ (no_timer r) = no_timer (given_handle r)
given_handle-Timed _ (clock_timer r clock l) = clock_timer (given_handle r) clock (omega arith)
given_handle-Timed _ (poll_timer r timer l) = poll_timer (given_handle r) timer (omega arith)
given_handle-Timed _ (both_timers r timer clock l k) =
    both_timers (given_handle r) timer clock l (omega arith)

pub stop_stream-Timed : (s : Tracking) → Timed s → Timed (stop_stream s)
unfolding stop_stream
stop_stream-Timed s h = elim (Option-cases s.stream) [
  | inl e ↦ rw (e, stop_stream) h
  | inr (handle, e) ↦
      rw (e, stop_stream)
        (others-Timed s s.tracking_mode s.elapsed_seconds none s.tracked_task_id s.latest_status
          (remove handle s.open_streams) s.asked h)
]

pub stop_polling-Timed :
    (s : Tracking) → Timed s → Timed (stop_polling s) × ((stop_polling s).polling_timer ≡ none)
unfolding stop_polling
stop_polling-Timed _ (no_timer r) = (no_timer r, refl)
stop_polling-Timed _ (clock_timer r clock l) = (clock_timer r clock l, refl)
stop_polling-Timed _ (poll_timer r timer l) = (rw (remove-only timer) (no_timer r), refl)
stop_polling-Timed _ (both_timers r timer clock l k) =
    (rw (remove-first timer clock l) (clock_timer r clock (omega arith)), refl)

stop_clock-Timed : (s : Tracking) → Timed s → s.polling_timer ≡ none → Timed (stop_elapsed_clock s)
unfolding stop_elapsed_clock
stop_clock-Timed _ (no_timer r) e = no_timer r
stop_clock-Timed _ (clock_timer r clock l) e = rw (remove-only clock) (no_timer r)
stop_clock-Timed _ (poll_timer r timer l) e = cc
stop_clock-Timed _ (both_timers r timer clock l k) e = cc

stop_clock-intervals :
    (s : Tracking) → Timed s → s.polling_timer ≡ none → (stop_elapsed_clock s).intervals ≡ []
unfolding stop_elapsed_clock
stop_clock-intervals _ (no_timer r) e = refl
stop_clock-intervals _ (clock_timer r clock l) e = remove-only clock
stop_clock-intervals _ (poll_timer r timer l) e = cc
stop_clock-intervals _ (both_timers r timer clock l k) e = cc

pub stop-intervals : (s : Tracking) → Timed s → (stop_tracking s).intervals ≡ []
unfolding stop_tracking
stop-intervals s h =
    let (quiet, idle_now) = stop_polling-Timed (stop_stream s) (stop_stream-Timed s h) in
    stop_clock-intervals (stop_polling (stop_stream s)) quiet idle_now

pub stop-Timed : (s : Tracking) → Timed s → Timed (stop_tracking s)
unfolding stop_tracking
stop-Timed s h =
    let (quiet, idle_now) = stop_polling-Timed (stop_stream s) (stop_stream-Timed s h) in
    let still = stop_clock-Timed (stop_polling (stop_stream s)) quiet idle_now in
    let s' = stop_elapsed_clock (stop_polling (stop_stream s)) in
    others-Timed s' idle s'.elapsed_seconds s'.stream none s'.latest_status s'.open_streams s'.asked
      still
