-- ===== src/Simulation/Requests.antt =====
-- Every request is waiting, running or settled, and only one of these.
use mvp_qcp.Base.{
  ℕ, ◌+◌, ◌≡◌, ◌≤◌, refl, Bool, true, ◌&&◌, Option, none, some, List, [], ◌∷◌, arith, includes, leb,
  ◌==◌, if◌then◌else◌, Bool-cases, Option-cases, inl, inr,
}
use mvp_qcp.Simulation.{
  Scheduler, Settlement, Outcome, without, settle, schedule, fire, respond, fail,
  create_simulation_scheduler,
}

-- How often a number stands in a list.
abbrev pub count : ℕ → List ℕ → ℕ
count q [] = 0
count q (x ∷ xs) = (if x == q then 1 else 0) + count q xs

abbrev pub count_settled : ℕ → List Settlement → ℕ
count_settled q [] = 0
count_settled q (x ∷ xs) = (if x.request == q then 1 else 0) + count_settled q xs

pub data Step : Scheduler → Scheduler → Type 0 where
  scheduled : (s : Scheduler) → Step s (schedule s)
  fired : (request : ℕ) (s : Scheduler) → includes request s.timers ≡ true → Step s (fire request s)
  responded :
      (request : ℕ) (is_result : Bool) (s : Scheduler)
      → includes request s.running ≡ true
      → Step s (respond request is_result s)
  failed :
      (request : ℕ) (timed_out : Bool) (s : Scheduler)
      → includes request s.running ≡ true
      → Step s (fail request timed_out s)

pub data Reach : Scheduler → Type 0 where
  at_first : Reach create_simulation_scheduler
  next : {s t : Scheduler} → Reach s → Step s t → Reach t

-- The requests made so far are the versions from 1 on.
abbrev pub made : ℕ → ℕ → ℕ
made q version = if leb 1 q && leb q version then 1 else 0

abbrev waiting : Option ℕ → List ℕ
waiting none = []
waiting (some request) = request ∷ []

pub record IsAccounted (s : Scheduler) : Type 0 where
  pub timer_of_pending : s.timers ≡ waiting s.pending
  pub once :
      (q : ℕ) → count_settled q s.settled + count q s.running + count q s.timers ≡ made q s.version

count-without :
    (q r : ℕ) (xs : List ℕ) → count q (without r xs) ≡ (if r == q then 0 else count q xs)
count-without q r [] = ground arith
count-without q r (x ∷ xs) = ground (arith, count-without q r xs)

pub count_of_includes : (q : ℕ) (xs : List ℕ) → includes q xs ≡ true → 1 ≤ count q xs
count_of_includes q [] h = cc
count_of_includes q (x ∷ xs) h = ground (arith, count_of_includes q xs)

only-without : (q : ℕ) → without q (q ∷ []) ≡ []
only-without q = ground arith

schedule-IsAccounted : (s : Scheduler) → IsAccounted s → IsAccounted (schedule s)
unfolding schedule
schedule-IsAccounted s h = elim (Option-cases s.pending) [
  | inl e ↦
      let idle : s.timers ≡ [] = rw e at h.timer_of_pending in
      rw e (record {
        timer_of_pending = rw idle refl;
        once = λ q. let k = h.once q in rw idle (let k' = rw idle at k in ground arith);
      })
  | inr (r, e) ↦
      let one : s.timers ≡ r ∷ [] = rw e at h.timer_of_pending in
      rw e (record {
        timer_of_pending = rw (one, only-without r) refl;
        once = λ q.
            let k = h.once q in rw (one, only-without r) (let k' = rw one at k in ground arith);
      })
]

fire-IsAccounted :
    (request : ℕ) (s : Scheduler)
    → includes request s.timers ≡ true
    → IsAccounted s
    → IsAccounted (fire request s)
unfolding fire
fire-IsAccounted request s waits h = elim (Option-cases s.pending) [
  | inl e ↦
      let idle : s.timers ≡ [] = rw e at h.timer_of_pending in
      let none_waits : includes request [] ≡ true = rw idle at waits in cc
  | inr (r, e) ↦
      let one : s.timers ≡ r ∷ [] = rw e at h.timer_of_pending in
      let hit : includes request (r ∷ []) ≡ true = rw one at waits in
      let same : r ≡ request = ground arith in
      record {
        timer_of_pending = rw (one, same, only-without request) refl;
        once = λ q.
            let k : count_settled q s.settled + count q s.running + count q (request ∷ [])
                ≡ made q s.version =
              rw (one, same) at h.once q in
            rw (one, same, only-without request) (ground arith);
      }
]

made-le : (q version : ℕ) → made q version ≤ 1
made-le q version = ground arith

-- A running request that is settled, with whatever outcome.
settle-IsAccounted :
    (request : ℕ) (outcome : Outcome) (s : Scheduler)
    → includes request s.running ≡ true
    → IsAccounted s
    → IsAccounted (record s {
      running = without request s.running;
      settled = settle request outcome s.settled;
    })
settle-IsAccounted request outcome s runs h = record {
  timer_of_pending = h.timer_of_pending;
  once = λ q.
      let k = h.once q in
      let at_request = h.once request in
      let some_run = count_of_includes request s.running runs in
      let at_most = made-le request s.version in
      elim (Bool-cases (request == q)) [
        | inl e ↦
            let same : request ≡ q = ground arith in
            rw (count-without q request s.running, e)
              (let k' : count_settled q s.settled + count q s.running + count q s.timers ≤ 1 =
                  omega (arith, made-le q s.version) in
                let r' : 1 ≤ count q s.running = rw same at some_run in omega arith)
        | inr e ↦ rw (count-without q request s.running, e) (omega arith)
      ];
}

Step-IsAccounted : {s t : Scheduler} → Step s t → IsAccounted s → IsAccounted t
unfolding respond fail
Step-IsAccounted (scheduled s) h = schedule-IsAccounted s h
Step-IsAccounted (fired request s e) h = fire-IsAccounted request s e h
Step-IsAccounted (responded request is_result s e) h = settle-IsAccounted request _ s e h
Step-IsAccounted (failed request timed_out s e) h = settle-IsAccounted request _ s e h

-- Whatever the order of requests, timers and answers, the one timer that is set is the pending
-- request's, and every request that was made is settled, running or waiting, exactly once: no
-- promise is lost and none is settled twice.
pub Reach-IsAccounted : {s : Scheduler} → Reach s → IsAccounted s
Reach-IsAccounted at_first = record { timer_of_pending = refl; once = λ q. ground arith }
Reach-IsAccounted (next r step) = Step-IsAccounted step (Reach-IsAccounted r)
