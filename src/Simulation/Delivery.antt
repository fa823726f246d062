-- ===== src/Simulation/Delivery.antt =====
-- A result never follows the result of a newer request.
use mvp_qcp.Base.{
  ℕ, suc, ◌≡◌, ◌≢◌, ◌≤◌, ◌<◌, refl, Bool, true, false, List, [], ◌∷◌, arith, includes, ◌==◌,
  Bool-cases, Option-cases, inl, inr, All, All-imp, Pairs,
}
use mvp_qcp.Simulation.{
  Scheduler, Settlement, Outcome, resolved, sim_stale, sim_timeout, sim_exec_error, worker_error,
  settle, schedule, fire, respond, fail,
}
use mvp_qcp.Simulation.Requests.{
  count_settled, made, Step, scheduled, fired, responded, failed, Reach, at_first, next,
  IsAccounted, count_of_includes, Reach-IsAccounted,
}

-- The requests whose result was delivered, the latest first.
abbrev pub delivered : List Settlement → List ℕ
delivered [] = []
delivered (x ∷ xs) = elim x.outcome [
  | resolved ↦ x.request ∷ delivered xs
  | sim_stale ↦ delivered xs
  | sim_timeout ↦ delivered xs
  | sim_exec_error ↦ delivered xs
  | worker_error ↦ delivered xs
]

abbrev Past : ℕ → List Settlement → ℕ → Type 0
Past version settled q = (1 ≤ count_settled q settled) × (q ≤ version)

-- What was delivered is settled and was requested, and a later delivery is of a later request.
pub record IsOrdered (version : ℕ) (settled : List Settlement) : Type 0 where
  pub past : All (Past version settled) (delivered settled)
  pub newest_first : Pairs (λ p q. q < p) (delivered settled)

-- More requests, and a settlement without a result, leave the order.
more-IsOrdered :
    (version : ℕ) (settled : List Settlement)
    → IsOrdered version settled
    → IsOrdered (suc version) settled
more-IsOrdered version settled h = record {
  past =
      All-imp {Q = Past (suc version) settled}
        (λ q. λ (p : Past version settled q). (p.0, omega arith)) (delivered settled) h.past;
  newest_first = h.newest_first;
}

settled_more :
    (version request : ℕ) (outcome : Outcome) (settled : List Settlement) (qs : List ℕ)
    → All (Past version settled) qs
    → All (Past version (settle request outcome settled)) qs
settled_more version request outcome settled qs h =
    All-imp {Q = Past version (settle request outcome settled)}
      (λ q. λ (p : Past version settled q). (omega arith, p.1)) qs h

error-IsOrdered :
    (version request : ℕ) (outcome : Outcome) (settled : List Settlement)
    → outcome ≢ resolved
    → IsOrdered version settled
    → IsOrdered version (settle request outcome settled)
error-IsOrdered version request resolved settled n h = absurd (n refl)
error-IsOrdered version request sim_stale settled n h = record {
  past = settled_more version request sim_stale settled _ h.past;
  newest_first = h.newest_first;
}
error-IsOrdered version request sim_timeout settled n h = record {
  past = settled_more version request sim_timeout settled _ h.past;
  newest_first = h.newest_first;
}
error-IsOrdered version request sim_exec_error settled n h = record {
  past = settled_more version request sim_exec_error settled _ h.past;
  newest_first = h.newest_first;
}
error-IsOrdered version request worker_error settled n h = record {
  past = settled_more version request worker_error settled _ h.past;
  newest_first = h.newest_first;
}

-- The newest request is not settled while it runs.
unsettled :
    (s : Scheduler) (request : ℕ)
    → IsAccounted s
    → includes request s.running ≡ true
    → count_settled request s.settled ≡ 0
unsettled s request a runs =
    let once = a.once request in
    let some_run = count_of_includes request s.running runs in
    let at_most : made request s.version ≤ 1 = ground arith in omega arith

result-IsOrdered :
    (s : Scheduler)
    → IsAccounted s
    → includes s.version s.running ≡ true
    → IsOrdered s.version s.settled
    → IsOrdered s.version (settle s.version resolved s.settled)
result-IsOrdered s a runs h =
    let fresh = unsettled s s.version a runs in
    let same : (s.version == s.version) ≡ true = ground arith in
    let later : All (λ q. q < s.version) (delivered s.settled) =
      All-imp {Q = λ q. q < s.version}
        (λ q. λ (p : Past s.version s.settled q). newer q p.0 p.1 fresh) (delivered s.settled)
        h.past in
    record {
      past = (
        (rw same (omega arith), omega arith),
        settled_more s.version s.version resolved s.settled (delivered s.settled) h.past,
      );
      newest_first = (later, h.newest_first);
    }
  where
    newer :
        (q : ℕ)
        → 1 ≤ count_settled q s.settled
        → q ≤ s.version
        → count_settled s.version s.settled ≡ 0
        → q < s.version
    newer q p l fresh = elim (Bool-cases (q == s.version)) [
      | inl e ↦
          let at : q ≡ s.version = ground arith in
          let some : 1 ≤ count_settled s.version s.settled = rw at at p in absurd (omega arith)
      | inr e ↦ ground arith
    ]

respond-IsOrdered :
    (request : ℕ) (is_result : Bool) (s : Scheduler)
    → IsAccounted s
    → includes request s.running ≡ true
    → IsOrdered s.version s.settled
    → IsOrdered (respond request is_result s).version (respond request is_result s).settled
unfolding respond
respond-IsOrdered request true s a runs h = elim (Bool-cases (request == s.version)) [
  | inr e ↦ rw e (error-IsOrdered s.version request sim_stale s.settled (λ e. cc) h)
  | inl e ↦
      let same : request ≡ s.version = ground arith in
      let latest : IsOrdered s.version (settle request resolved s.settled) =
        rw same (result-IsOrdered s a (rw same at runs) h) in
      rw e latest
]
respond-IsOrdered request false s a runs h = elim (Bool-cases (request == s.version)) [
  | inr e ↦ rw e (error-IsOrdered s.version request sim_stale s.settled (λ e. cc) h)
  | inl e ↦ rw e (error-IsOrdered s.version request worker_error s.settled (λ e. cc) h)
]

fail-IsOrdered :
    (request : ℕ) (timed_out : Bool) (s : Scheduler)
    → IsOrdered s.version s.settled
    → IsOrdered s.version (fail request timed_out s).settled
unfolding fail
fail-IsOrdered request true s h =
    error-IsOrdered s.version request sim_timeout s.settled (λ e. cc) h
fail-IsOrdered request false s h =
    error-IsOrdered s.version request sim_exec_error s.settled (λ e. cc) h

schedule-IsOrdered :
    (s : Scheduler)
    → IsOrdered s.version s.settled
    → IsOrdered (schedule s).version (schedule s).settled
unfolding schedule
schedule-IsOrdered s h = elim (Option-cases s.pending) [
  | inl e ↦ rw e (more-IsOrdered s.version s.settled h)
  | inr (r, e) ↦ rw e (
      error-IsOrdered (suc s.version) r sim_stale s.settled (λ e. cc)
        (more-IsOrdered s.version s.settled h))
]

Step-IsOrdered :
    {s t : Scheduler}
    → Step s t
    → IsAccounted s
    → IsOrdered s.version s.settled
    → IsOrdered t.version t.settled
unfolding fire fail
Step-IsOrdered (scheduled s) a h = schedule-IsOrdered s h
Step-IsOrdered (fired request s e) a h = h
Step-IsOrdered (responded request is_result s e) a h = respond-IsOrdered request is_result s a e h
Step-IsOrdered (failed request timed_out s e) a h = fail-IsOrdered request timed_out s h

-- Whatever the order of requests, timers and answers, each result that is delivered is of a later
-- request than every result delivered before, so that no result follows that of a newer request.
pub Reach-IsOrdered : {s : Scheduler} → Reach s → IsOrdered s.version s.settled
Reach-IsOrdered at_first = record { past = tt; newest_first = tt }
Reach-IsOrdered (next r step) = Step-IsOrdered step (Reach-IsAccounted r) (Reach-IsOrdered r)
