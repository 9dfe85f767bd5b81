-- ===== src/Runs/Finish.antt =====
-- How the coordinator of a Job sums up its workers: the end of `main` in job.py.
use microservices_demo_nats.Prelude.{
  ℕ, ◌≡◌, refl, String, Bool, true, false, not, ◌||◌, ◌&&◌, List, [], ◌∷◌, Option, none, some,
  arith, any, ◌==◌, if◌then◌else◌,
}
use microservices_demo_nats.Runs.Records.{RunState, completed, failed, stopped, Run}
use microservices_demo_nats.Runs.Manager.{on_status}

-- The state of one worker, from its signal handler and the exit code of its process.
unfoldable pub worker_state : Bool → ℕ → RunState
worker_state stop_requested return_code =
    if stop_requested then stopped else if return_code == 0 then completed else failed

pub record WorkerStatus : Type 0 where
  pub worker_index : ℕ
  pub state : RunState
  pub exit_code : ℕ

abbrev pub is_stopped : RunState → Bool
is_stopped stopped = true
is_stopped _ = false

abbrev pub is_completed : RunState → Bool
is_completed completed = true
is_completed _ = false

-- `status.get("state") not in {"completed", "stopped"}`
abbrev pub is_failure : WorkerStatus → Bool
is_failure s = not (is_completed s.state) && not (is_stopped s.state)

pub record Verdict : Type 0 where
  pub state : RunState
  pub exit_code : ℕ
  pub has_message : Bool

unfoldable pub first_failure : List WorkerStatus → ℕ
first_failure [] = 0
first_failure (s ∷ ss) = if is_failure s then s.exit_code else first_failure ss

-- The state by the workers; a report that cannot be built makes the run a failure.
unfoldable pub verdict : Bool → List WorkerStatus → Bool → Verdict
verdict stop_requested statuses report_built = record {
  state =
      if not report_built
      then failed
      else if stop_requested || any (λ s. is_stopped s.state) statuses
      then stopped
      else if any is_failure statuses
      then failed
      else completed;
  exit_code = first_failure statuses;
  has_message = not report_built || any is_failure statuses;
}

-- The exit code of the Job.
unfoldable pub job_exit : RunState → ℕ
job_exit state = if is_completed state || is_stopped state then 0 else 1

-- `finish`: a stop that was asked for in the meantime decides.
unfoldable pub finish : Verdict → Option String → Bool → Run → Run
finish v message summarised r =
    record (on_status
      (λ s. record s {
        state = if s.stop_requested then stopped else v.state;
        ended = true;
        exit_code = some v.exit_code;
        lease_until = none;
        message = elim message [ none ↦ s.message | some m ↦ some m ];
      })
      r) { has_summary = summarised; has_artifacts = true }

-- Every worker was completed.
abbrev pub all_completed : List WorkerStatus → Bool
all_completed [] = true
all_completed (s ∷ ss) = is_completed s.state && all_completed ss

state_cases : (s : RunState) → (is_completed s && not (is_stopped s)) ≡ is_completed s
state_cases completed = refl
state_cases RunState.submitted = refl
state_cases RunState.starting = refl
state_cases RunState.running = refl
state_cases RunState.stopping = refl
state_cases failed = refl
state_cases stopped = refl
state_cases RunState.interrupted = refl
state_cases RunState.unknown = refl

all_completed_lem :
    (ss : List WorkerStatus)
    → all_completed ss ≡ (not (any (λ s. is_stopped s.state) ss) && not (any is_failure ss))
all_completed_lem [] = refl
all_completed_lem (s ∷ ss) = ground (arith, all_completed_lem ss, state_cases s.state)

-- A run is stored as completed exactly if no stop was asked for, of the workers or of the run, every
-- worker was completed, and the report was built.
pub finish_completed :
    (stop report_built summarised : Bool) (statuses : List WorkerStatus) (message : Option String)
    (r : Run)
    → is_completed (finish (verdict stop statuses report_built) message summarised r).status.state
      ≡ (not r.status.stop_requested && (not stop && (report_built && all_completed statuses)))
unfolding finish verdict
finish_completed stop report_built summarised statuses message r =
    ground (arith, all_completed_lem statuses)
