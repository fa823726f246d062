-- ===== src/Task/Tracking/Resources.antt =====
-- What the host runs for the tracking.
use mvp_qcp.Base.{
  ℕ, suc, ◌+◌, ◌≡◌, ◌<◌, Bool, true, false, ◌&&◌, Option, none, some, List, [], ◌∷◌, String, ◌==◌,
  arith, Bool-cases, inl, inr,
}
use mvp_qcp.Task.{is_active_task_status, is_terminal_task_status}
use mvp_qcp.Task.Tracking.{
  Tracking, idle, sse, polling, remove, tracks, stop_stream, stop_polling, stop_tracking,
  reset_tracking, apply_task_status, begin_polling, start_polling, start_tracking, on_status, tick,
}

-- What runs in each mode: nothing when idle, the stream and the clock, or the polling and the clock.
pub data Running : Tracking → Type 0 where
  nothing :
      (elapsed : ℕ) (latest : Option String) (asked : List ℕ) (next : ℕ)
      → Running (record {
        tracking_mode = idle;
        elapsed_seconds = elapsed;
        stream = none;
        polling_timer = none;
        elapsed_timer = none;
        tracked_task_id = none;
        latest_status = latest;
        open_streams = [];
        intervals = [];
        asked = asked;
        next_handle = next;
      })
  streaming :
      (elapsed : ℕ) (tracked : Option ℕ) (latest : Option String) (asked : List ℕ)
      (next stream clock : ℕ)
      → clock < next
      → Running (record {
        tracking_mode = sse;
        elapsed_seconds = elapsed;
        stream = some stream;
        polling_timer = none;
        elapsed_timer = some clock;
        tracked_task_id = tracked;
        latest_status = latest;
        open_streams = stream ∷ [];
        intervals = clock ∷ [];
        asked = asked;
        next_handle = next;
      })
  asking :
      (elapsed : ℕ) (tracked : Option ℕ) (latest : Option String) (asked : List ℕ)
      (next timer clock : ℕ)
      → clock < next
      → clock < timer
      → Running (record {
        tracking_mode = polling;
        elapsed_seconds = elapsed;
        stream = none;
        polling_timer = some timer;
        elapsed_timer = some clock;
        tracked_task_id = tracked;
        latest_status = latest;
        open_streams = [];
        intervals = timer ∷ clock ∷ [];
        asked = asked;
        next_handle = next;
      })

pub remove-only : (h : ℕ) → remove h (h ∷ []) ≡ []
remove-only h = ground arith

pub remove-first : (h k : ℕ) → k < h → remove h (h ∷ k ∷ []) ≡ k ∷ []
remove-first h k l = ground arith

pub stop-Running : (s : Tracking) → Running s → Running (stop_tracking s)
unfolding stop_tracking
stop-Running _ (nothing elapsed latest asked next) = nothing elapsed latest asked next
stop-Running _ (streaming elapsed tracked latest asked next stream clock l) =
    rw (remove-only stream, remove-only clock) (nothing elapsed latest asked next)
stop-Running _ (asking elapsed tracked latest asked next timer clock l k) =
    rw (remove-first timer clock k, remove-only clock) (nothing elapsed latest asked next)

pub reset-Running : (s : Tracking) → Running s → Running (reset_tracking s)
unfolding reset_tracking
reset-Running _ (nothing elapsed latest asked next) = nothing 0 latest asked next
reset-Running _ (streaming elapsed tracked latest asked next stream clock l) =
    rw (remove-only stream, remove-only clock) (nothing 0 latest asked next)
reset-Running _ (asking elapsed tracked latest asked next timer clock l k) =
    rw (remove-first timer clock k, remove-only clock) (nothing 0 latest asked next)

-- Fields that the host's intervals and streams do not depend on.
pub noted-Running :
    (s : Tracking) (latest : Option String) (asked : List ℕ)
    → Running s
    → Running (record s { latest_status = latest; asked = asked })
noted-Running _ latest asked (nothing elapsed _ _ next) = nothing elapsed latest asked next
noted-Running _ latest asked (streaming elapsed tracked _ _ next stream clock l) =
    streaming elapsed tracked latest asked next stream clock l
noted-Running _ latest asked (asking elapsed tracked _ _ next timer clock l k) =
    asking elapsed tracked latest asked next timer clock l k

pub tick-Running : (s : Tracking) → Running s → Running (tick s)
unfolding tick
tick-Running _ (nothing elapsed latest asked next) = nothing (elapsed + 1) latest asked next
tick-Running _ (streaming elapsed tracked latest asked next stream clock l) =
    streaming (elapsed + 1) tracked latest asked next stream clock l
tick-Running _ (asking elapsed tracked latest asked next timer clock l k) =
    asking (elapsed + 1) tracked latest asked next timer clock l k

pub apply-Running :
    (status : String) (s : Tracking) → Running s → Running (apply_task_status status s)
unfolding apply_task_status
apply-Running status s r =
    let noted = noted-Running s (some status) s.asked r in
    elim (Bool-cases (is_terminal_task_status (some status))) [
      | inl e ↦ rw e (stop-Running _ noted)
      | inr e ↦ rw e noted
    ]

pub on_status-Running :
    (task_id event_task_id : ℕ) (status : String) (s : Tracking)
    → Running s
    → Running (on_status task_id event_task_id status s)
unfolding on_status
on_status-Running task_id event_task_id status s r = elim (Bool-cases (event_task_id == task_id)) [
  | inr e ↦ rw e r
  | inl e ↦ elim (Bool-cases (tracks s.tracked_task_id task_id)) [
    | inr f ↦ rw (e, f) r
    | inl f ↦ rw (e, f) (apply-Running status s r)
  ]
]

begin-Running :
    (task_id : ℕ) (s : Tracking)
    → Running s
    → (tracks s.tracked_task_id task_id && is_active_task_status s.latest_status) ≡ true
    → Running (begin_polling task_id (stop_polling (stop_stream s)))
unfolding begin_polling stop_polling stop_stream
begin-Running task_id _ (nothing elapsed latest asked next) e = cc
begin-Running task_id _ (streaming elapsed tracked latest asked next stream clock l) e =
    rw (remove-only stream)
      (asking elapsed tracked latest (task_id ∷ asked) (suc next) next clock (omega arith) l)
begin-Running task_id _ (asking elapsed tracked latest asked next timer clock l k) e =
    rw (remove-first timer clock k)
      (asking elapsed tracked latest (task_id ∷ asked) (suc next) next clock (omega arith) l)

pub start_polling-Running :
    (task_id : ℕ) (s : Tracking) → Running s → Running (start_polling task_id s)
unfolding start_polling
start_polling-Running task_id s r =
    elim (Bool-cases (tracks s.tracked_task_id task_id && is_active_task_status s.latest_status)) [
      | inr e ↦ rw e r
      | inl e ↦ rw e (begin-Running task_id s r e)
    ]

pub start-Running :
    (task_id : ℕ) (status : String) (connected : Bool) (s : Tracking)
    → s.tracking_mode ≡ idle
    → Running s
    → Running (start_tracking task_id status connected s)
unfolding start_tracking begin_polling stop_stream
start-Running task_id status true _ e (nothing elapsed latest asked next) =
    elim (Bool-cases (is_active_task_status (some status))) [
      | inr inactive ↦ rw inactive (nothing elapsed (some status) asked next)
      | inl active ↦ rw active (
          streaming 0 (some task_id) (some status) asked (suc (suc next)) (suc next) next
            (omega arith))
    ]
start-Running task_id status false _ e (nothing elapsed latest asked next) =
    elim (Bool-cases (is_active_task_status (some status))) [
      | inr inactive ↦ rw inactive (nothing elapsed (some status) asked next)
      | inl active ↦
          let same : (task_id == task_id) ≡ true = ground arith in
          rw (active, same)
            (asking 0 (some task_id) (some status) (task_id ∷ asked) (suc (suc next)) (suc next)
              next (omega arith) (omega arith))
    ]
start-Running task_id status connected _ e (streaming _ _ _ _ _ _ _ _) = cc
start-Running task_id status connected _ e (asking _ _ _ _ _ _ _ _ _) = cc
