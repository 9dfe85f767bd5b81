-- ===== src/Runs/Barrier.antt =====
-- The common start of a run's workers (src/benchmarkservice/job.py, `coordinate_start` and
-- `wait_for_object`). A turn is one stretch of one worker between two waits; any worker may have the
-- next turn. The run's objects are not there at first.
pub mod Common
pub mod Progress
pub mod Liveness
use microservices_demo_nats.Prelude.{
  ℕ, zero, suc, ◌+◌, ◌*◌, Bool, true, false, List, [], ◌∷◌, Option, none, some, ltb, ◌==◌,
  if◌then◌else◌,
}

-- Where a worker stands in `coordinate_start`; worker 0 has found the ready objects of the first ones.
-- It is out by `InterruptedError` or `TimeoutError`, or it has returned the start time.
pub data Stage : Type 0 where
  preparing : Stage
  collecting : ℕ → Stage
  awaiting : Stage
  started : ℕ → Stage
  interrupted : Stage
  timed_out : Stage

-- The objects `ready` and `start` of the run, and the workers.
pub record Barrier : Type 0 where
  pub ready : ℕ → Bool
  pub start : Option ℕ
  pub stage : ℕ → Stage

abbrev pub fresh_barrier : Barrier
fresh_barrier = record { ready = λ i. false; start = none; stage = λ i. preparing }

-- What a worker sees in its turn: whether a stop is requested, whether its deadline is over, and the
-- civil time, in nanoseconds.
pub record Signals : Type 0 where
  pub stop_requested : Bool
  pub is_late : Bool
  pub now : ℕ

abbrev pub start_delay : ℕ
start_delay = 5 * 1_000_000_000

pub data Polled (A : Type 0) : Type 0 where
  stopping : Polled A
  found : A → Polled A
  too_late : Polled A
  wait_on : Polled A

-- One round of the loop in `wait_for_object`.
abbrev pub wait_for_object : {A : Type 0} → Signals → Option A → Polled A
wait_for_object g object =
    if g.stop_requested
    then stopping
    else elim object [ some a ↦ found a | none ↦ if g.is_late then too_late else wait_on ]

abbrev pub set_at : {A : Type 0} → (ℕ → A) → ℕ → A → ℕ → A
set_at f k v j = if j == k then v else f j

abbrev pub move_to : ℕ → Stage → Barrier → Barrier
move_to i stage s = record s { stage = set_at s.stage i stage }

abbrev pub ready_object : Barrier → ℕ → Option Bool
ready_object s i = if s.ready i then some true else none

abbrev pub polled : {A : Type 0} → ℕ → (A → Stage) → Polled A → Barrier → Barrier
polled i next stopping s = move_to i interrupted s
polled i next (found a) s = move_to i (next a) s
polled i next too_late s = move_to i timed_out s
polled i next wait_on s = s

abbrev pub put_ready : ℕ → Barrier → Barrier
put_ready i s = record s { ready = set_at s.ready i true }

abbrev pub put_start : ℕ → Barrier → Barrier
put_start t s = record s { start = some t }

module _ (worker_count : ℕ) where
  unfoldable pub move : ℕ → Signals → Stage → Barrier → Barrier
  move i g preparing s = move_to i (if i == 0 then collecting 0 else awaiting) (put_ready i s)
  move i g (collecting n) s =
      if ltb n worker_count
      then polled i (λ (b : Bool). collecting (suc n)) (wait_for_object g (ready_object s n)) s
      else move_to i (started (g.now + start_delay)) (put_start (g.now + start_delay) s)
  move i g awaiting s = polled i started (wait_for_object g s.start) s
  move i g (started t) s = s
  move i g interrupted s = s
  move i g timed_out s = s

  unfoldable pub turn : ℕ → Signals → Barrier → Barrier
  turn i g s = move i g (s.stage i) s

  unfoldable pub turns : List (ℕ × Signals) → Barrier → Barrier
  turns [] s = s
  turns ((i, g) ∷ rest) s = turns rest (turn i g s)
