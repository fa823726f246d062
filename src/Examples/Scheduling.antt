-- ===== src/Examples/Scheduling.antt =====
-- Two requests, of which the first is answered after the second was made.
use mvp_qcp.Base.{refl, true}
use mvp_qcp.Simulation.{Scheduler, schedule, fire, respond, create_simulation_scheduler}
use mvp_qcp.Simulation.Requests.{
  scheduled, fired, responded, Reach, at_first, next, IsAccounted, Reach-IsAccounted,
}
use mvp_qcp.Simulation.Delivery.{IsOrdered, Reach-IsOrdered}

abbrev requested : Scheduler
requested = schedule (fire 1 (schedule create_simulation_scheduler))

abbrev delivered_late : Scheduler
delivered_late = respond 2 true (fire 2 (respond 1 true requested))

delivered_late-Reach : Reach delivered_late
unfolding schedule fire respond
delivered_late-Reach =
    next
      (next
        (next
          (next
            (next (next at_first (scheduled create_simulation_scheduler))
              (fired 1 (schedule create_simulation_scheduler) refl))
            (scheduled (fire 1 (schedule create_simulation_scheduler))))
          (responded 1 true requested refl))
        (fired 2 (respond 1 true requested) refl))
      (responded 2 true (fire 2 (respond 1 true requested)) refl)

Reach-IsAccounted_example : IsAccounted delivered_late
Reach-IsAccounted_example = Reach-IsAccounted delivered_late-Reach

Reach-IsOrdered_example : IsOrdered delivered_late.version delivered_late.settled
Reach-IsOrdered_example = Reach-IsOrdered delivered_late-Reach
