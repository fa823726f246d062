-- ===== src/Examples/Streaming.antt =====
-- A concrete event stream. The host's JSON reads a text as its number of characters.
use mvp_qcp.Base.{ℕ, ◌≡◌, refl, true, false, ◌==◌, some, List, [], ◌∷◌, ◌++◌, length}
use mvp_qcp.Task.Stream.{
  Text, codes, StreamHost, TaskStreamCallbacks, on_status, on_heartbeat, on_hybrid_iteration,
  on_error, on_disconnect, Closing, stream_done, subscribe_task_stream,
}
use mvp_qcp.Task.Stream.Chunks.{concat, until_closed, subscribe-concat}

abbrev counting_host : StreamHost ℕ
counting_host = record { trim = λ text. text; parse_json = λ text. some (length text) }

abbrev callbacks : TaskStreamCallbacks
callbacks = record { with_heartbeat = true; with_hybrid_iteration = true }

-- Two events and the beginning of a third, cut within a line and between the newlines of an end.
abbrev pieces : List Text
pieces =
    codes "event:task_st"
    ∷ (codes "atus" ++ 10 ∷ codes "data:123" ++ 10 ∷ [])
    ∷ (10 ∷ codes "event:task_status" ++ 10 ∷ codes "data:1" ++ 10 ∷ 10 ∷ codes "event:")
    ∷ []

-- A client that closes the connection with a status of the value 3.
abbrev closes_at_three : Closing ℕ
closes_at_three [] = false
closes_at_three (on_status value ∷ before) = value == 3
closes_at_three (on_heartbeat value ∷ before) = false
closes_at_three (on_hybrid_iteration value ∷ before) = false
closes_at_three (on_error ∷ before) = false
closes_at_three (on_disconnect ∷ before) = false

subscribe-concat_example :
    until_closed closes_at_three []
      (subscribe_task_stream closes_at_three counting_host callbacks stream_done pieces)
    ≡ until_closed closes_at_three [] (
        subscribe_task_stream closes_at_three counting_host callbacks stream_done
          (concat pieces ∷ []))
subscribe-concat_example =
    subscribe-concat closes_at_three counting_host callbacks stream_done pieces

abbrev stays_open : Closing ℕ
stays_open before = false

two_events :
    subscribe_task_stream stays_open counting_host callbacks stream_done pieces
    ≡ on_status 3 ∷ on_status 1 ∷ on_disconnect ∷ []
unfolding subscribe_task_stream
two_events = refl

-- Where the first of two events closes the connection, the second is delivered if it comes in the same
-- piece.
abbrev event : ℕ → Text
event digit = codes "event:task_status" ++ 10 ∷ codes "data:" ++ digit ∷ 49 ∷ 49 ∷ 10 ∷ 10 ∷ []

after_closing :
    subscribe_task_stream closes_at_three counting_host callbacks stream_done
      ((event 49 ++ event 50) ∷ [])
    ≡ on_status 3 ∷ on_status 3 ∷ []
unfolding subscribe_task_stream
after_closing = refl

cut_after_closing :
    subscribe_task_stream closes_at_three counting_host callbacks stream_done
      (event 49 ∷ event 50 ∷ [])
    ≡ on_status 3 ∷ []
unfolding subscribe_task_stream
cut_after_closing = refl
