-- ===== src/Runs/Manager.antt =====
-- `BenchmarkManager.start`, `_reconcile`, `details` and `stop`. Kubernetes is a parameter.
use microservices_demo_nats.Prelude.{
  ℕ, ◌+◌, String, Bool, true, false, Option, none, some, ltb, str_eq, Result, ok, err,
  if◌then◌else◌,
}
use microservices_demo_nats.Kv.{Reply, done, refused, broken, Bucket, World, create}
use microservices_demo_nats.Config.Values.{Python, Values, Checked}
use microservices_demo_nats.Config.Settings.{BenchmarkConfig, run_seconds, worker_count}
use microservices_demo_nats.Config.Request.{text, from_request}
use microservices_demo_nats.Runs.Records.{
  Key, key_has_eq, run_key, RunState, submitted, stopping, failed, stopped, interrupted, is_active,
  Status, Run, Doc, run_doc, RunsError, run_conflict, run_not_found, refused_config, store_failed,
  jobs_failed,
}
use microservices_demo_nats.Runs.Lease.{acquire_lease, release_lease}
use microservices_demo_nats.Runs.Updates.{get_run, mutate}

-- What `jobs.state` tells: JobNotFound, another exception, "failed", or another state.
pub data JobState : Type 0 where
  job_missing job_unreachable job_failed job_alive : JobState

-- `create` gives the job's name, or raises; `delete` tells whether it returned.
pub record Jobs : Type 1 where
  pub State : Type 0
  pub create : String → ℕ → ℕ → State → Option String × State
  pub delete : String → State → Bool × State
  pub state : String → State → JobState × State

abbrev pub on_status : (Status → Status) → Run → Run
on_status f r = record r { status = f r.status }

abbrev pub with_job : String → ℕ → Run → Run
with_job name workers =
    on_status (λ s. record s { job_name = some name; worker_count = some workers })

abbrev pub ended_as : RunState → String → Run → Run
ended_as state message =
    on_status (λ s. record s { state = state; ended = true; message = some message })

abbrev pub stop_asked : Run → Run
stop_asked = on_status (λ s. record s { state = stopping; stop_requested = true })

abbrev pub stop_done : Run → Run
stop_done = on_status (λ s. record s { state = stopped; ended = true })

abbrev pub new_run : String → BenchmarkConfig → ℕ → Run
new_run run_id config until = record {
  run_id = run_id;
  config = config;
  status = record {
    state = submitted;
    job_name = none;
    worker_count = none;
    lease_until = some until;
    stop_requested = false;
    ended = false;
    exit_code = none;
    message = none;
  };
  has_summary = false;
  has_artifacts = false;
}

abbrev pub lease_seconds : BenchmarkConfig → ℕ
lease_seconds config = run_seconds config + 300

pub record Platform (S J : Type 0) : Type 0 where
  pub store : World S
  pub jobs : J

-- `except (RunNotFound, RunConflict): pass`
abbrev pub is_passed : Result RunsError Run → Bool
is_passed (ok r) = true
is_passed (err run_not_found) = true
is_passed (err run_conflict) = true
is_passed (err _) = false

abbrev pub error_of : RunsError → Result RunsError Run → RunsError
error_of e (ok r) = e
error_of e (err d) = d

abbrev pub error_after : RunsError → Result RunsError (Unit {0}) → RunsError
error_after e (ok _) = e
error_after e (err d) = d

abbrev pub unless : Result RunsError (Unit {0}) → Run → Result RunsError Run
unless (ok _) r = ok r
unless (err e) r = err e

abbrev pub until_in : Option ℕ → ℕ
until_in none = 0
until_in (some t) = t

abbrev pub stop_state : Bool → RunState
stop_state asked = if asked then stopped else interrupted

module _ (b : Bucket Key Doc) (others : ℕ → b.State → b.State) (jobs : Jobs) (clock : ℕ → ℕ)
    (fresh : ℕ → String) where
  abbrev pub Site : Type 0
  Site = Platform b.State jobs.State

  -- What follows an exception of the submission: the run is marked as failed and the lease released.
  unfoldable pub undo : String → RunsError → Site → Result RunsError Run × Site
  undo run_id e p =
      let (marked, v) =
        mutate b others run_id (ended_as failed "could not submit benchmark Job") p.store in
      let (freed, u) = release_lease b others run_id v in
      if is_passed marked
      then (err (error_after e freed), record p { store = u })
      else (err (error_of e marked), record p { store = v })

  abbrev pub after_record :
      String → Result RunsError Run × World b.State → jobs.State → Result RunsError Run × Site
  after_record run_id (ok r, v) j = (ok r, record { store = v; jobs = j })
  after_record run_id (err e, v) j = undo run_id e (record { store = v; jobs = j })

  abbrev pub after_job :
      String
      → BenchmarkConfig
      → Option String × jobs.State
      → World b.State
      → Result RunsError Run × Site
  after_job run_id config (none, j) v = undo run_id jobs_failed (record { store = v; jobs = j })
  after_job run_id config (some name, j) v =
      after_record run_id (mutate b others run_id (with_job name (worker_count config)) v) j

  abbrev pub after_create :
      String → BenchmarkConfig → Reply (Unit {0}) → Site → Result RunsError Run × Site
  after_create run_id config (done _) p =
      after_job run_id config
        (jobs.create run_id (lease_seconds config) (worker_count config) p.jobs) p.store
  after_create run_id config refused p = undo run_id store_failed p
  after_create run_id config broken p = undo run_id store_failed p

  unfoldable pub submit : String → BenchmarkConfig → Site → Result RunsError Run × Site
  submit run_id config p =
      let run = new_run run_id config (clock p.store.time + lease_seconds config) in
      let (answer, v) = create b others (run_key run_id) (run_doc run) p.store in
      after_create run_id config answer (record p { store = v })

  abbrev pub after_lease :
      String → BenchmarkConfig → Result RunsError (Unit {0}) → Site → Result RunsError Run × Site
  after_lease run_id config (ok _) p = submit run_id config p
  after_lease run_id config (err e) p = (err e, p)

  unfoldable pub start_config : String → BenchmarkConfig → Site → Result RunsError Run × Site
  start_config run_id config p =
      let (taken, v) = acquire_lease b others clock fresh run_id (lease_seconds config) p.store in
      after_lease run_id config taken (record p { store = v })

  abbrev start_checked : String → Checked BenchmarkConfig → Site → Result RunsError Run × Site
  start_checked run_id (ok config) p = start_config run_id config p
  start_checked run_id (err e) p = (err refused_config, p)

  -- `new_run_id()` is an argument.
  unfoldable pub start :
      (py : Python) → Values py → String → String → Site → Result RunsError Run × Site
  start py values application_type run_id p =
      if str_eq (py.lower (py.strip (text py (values "workload") ""))) "fault_tolerance"
      then (err refused_config, p)
      else start_checked run_id (from_request py values application_type) p

  -- The end of `_reconcile` for a run whose job is gone or has failed.
  unfoldable pub terminate : String → RunState → String → Site → Result RunsError Run × Site
  terminate run_id terminal message p =
      let (marked, v) = mutate b others run_id (ended_as terminal message) p.store in
      let (freed, u) = release_lease b others run_id v in
      elim marked [
        | ok r ↦ (unless freed r, record p { store = u })
        | err e ↦ (err e, record p { store = v })
      ]

  abbrev pub reconcile_job : Run → JobState → Site → Result RunsError Run × Site
  reconcile_job r job_missing p =
      if ltb (clock p.store.time) (until_in r.status.lease_until)
      then (ok r, p)
      else terminate r.run_id (stop_state r.status.stop_requested)
          "benchmark Job disappeared before finalization" p
  reconcile_job r job_unreachable p = (ok r, p)
  reconcile_job r job_alive p = (ok r, p)
  reconcile_job r job_failed p =
      terminate r.run_id failed "benchmark Job failed before publishing a terminal status" p

  abbrev pub reconcile_named : Run → Option String → Site → Result RunsError Run × Site
  reconcile_named r none p = (ok r, p)
  reconcile_named r (some name) p =
      let (seen, j) = jobs.state name p.jobs in
      if str_eq name "" then (ok r, p) else reconcile_job r seen (record p { jobs = j })

  unfoldable pub reconcile : Run → Site → Result RunsError Run × Site
  reconcile r p =
      if is_active r.status.state then reconcile_named r r.status.job_name p else (ok r, p)

  unfoldable pub details : String → Site → Result RunsError Run × Site
  details run_id p =
      let (found, v) = get_run b others run_id p.store in
      elim found [
        | ok x ↦ reconcile x.0 (record p { store = v })
        | err e ↦ (err e, record p { store = v })
      ]

  abbrev pub deleted : Option String → jobs.State → Bool × jobs.State
  deleted none j = (true, j)
  deleted (some name) j = if str_eq name "" then (true, j) else jobs.delete name j

  unfoldable pub stop_active : Run → Site → Result RunsError Run × Site
  stop_active r p =
      let (asked, v) = mutate b others r.run_id stop_asked p.store in
      let (gone, j) = deleted r.status.job_name p.jobs in
      let (marked, u) = mutate b others r.run_id stop_done v in
      let (freed, t) = release_lease b others r.run_id u in
      elim asked [
        | err e ↦ (err e, record p { store = v })
        | ok _ ↦
            if gone
            then elim marked [
              | err e ↦ (err e, record { store = u; jobs = j })
              | ok q ↦ (unless freed q, record { store = t; jobs = j })
            ]
            else (err jobs_failed, record { store = v; jobs = j })
      ]

  unfoldable pub stop : String → Site → Result RunsError Run × Site
  stop run_id p =
      let (found, v) = get_run b others run_id p.store in
      elim found [
        | err e ↦ (err e, record p { store = v })
        | ok x ↦
            if is_active x.0.status.state
            then stop_active x.0 (record p { store = v })
            else (err run_conflict, record p { store = v })
      ]
