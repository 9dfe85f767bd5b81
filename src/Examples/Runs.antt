-- ===== src/Examples/Runs.antt =====
-- Runs and their lease in a bucket in memory.
use microservices_demo_nats.Prelude.{
  ℕ, ◌+◌, ◌*◌, String, ◌≡◌, ◌≢◌, refl, ap, ◌⊎◌, inl, inr, true, false, List, [], ◌∷◌, Option, none,
  some, arith, ok, err, retry,
}
use microservices_demo_nats.Kv.{
  Entry, Reply, done, refused, Bucket, Written, World, MemoryState, memory, memory-IsHealthy,
  empty_state, write, KeepsRevisions, still, get, create, update,
}
use microservices_demo_nats.Examples.Config.{crowd}
use microservices_demo_nats.Runs.Records.{
  Key, key_has_eq, lease_key, run_key, running, completed, failed, is_active, Run, Doc, lease_doc,
  run_doc, run_conflict, jobs_failed,
}
use microservices_demo_nats.Runs.Lease.{
  new_lease, freed, acquire_lease, acquire_round, acquire_answer, release_lease, release_round,
  release_answer,
}
use microservices_demo_nats.Runs.Exclusion.{Taken, acquire_lease-Taken}
use microservices_demo_nats.Runs.Release.{lease_of, LosesAnswers, acquire_lease_lost}
use microservices_demo_nats.Runs.Updates.{
  Changed, mutate, mutate-Changed, change_round, change_found,
}
use microservices_demo_nats.Runs.Manager.{
  Jobs, Platform, job_failed, ended_as, new_run, lease_seconds, start_config, terminate, reconcile,
}
use microservices_demo_nats.Runs.Failure.{start_config_fails, reconcile-HasEnded}
use microservices_demo_nats.Runs.Finish.{WorkerStatus}

abbrev bucket : Bucket Key Doc
bucket = memory

abbrev empty : World bucket.State
empty = record { state = empty_state; time = 0 }

-- Ten seconds pass between two calls.
abbrev clock : ℕ → ℕ
clock t = 1000 + 10 * t

abbrev stopped_clock : ℕ → ℕ
stopped_clock t = 1000

abbrev fresh : ℕ → String
fresh t = "controller"

still_keeps : KeepsRevisions bucket still
still_keeps n s k x y h g e = ap (λ (z : Entry Doc). z.value) same
  where
    same : x ≡ y
    same = cc

first_takes : (acquire_lease bucket still clock fresh "r1" 500 empty).0 ≡ ok tt
unfolding acquire_lease acquire_round acquire_answer retry get create
first_takes = refl

acquire_lease-Taken_example :
    Taken bucket still clock fresh "r1" 500
      (acquire_lease bucket still clock fresh "r1" 500 empty).1
acquire_lease-Taken_example =
    acquire_lease-Taken bucket still clock fresh "r1" 500 empty still_keeps first_takes

-- The bucket holds the lease of another run.
abbrev other_lease : Doc
other_lease = lease_doc (new_lease "r0" "controller" 2000)

abbrev occupied : World bucket.State
occupied = record { state = write empty_state lease_key other_lease; time = 0 }

-- A bucket that creates a lease and never answers that it did.
abbrev create_silently :
    Option (Entry Doc) → MemoryState Key Doc → Key → Doc → Reply (Unit {0}) × MemoryState Key Doc
create_silently none s k x = (refused, write s k x)
create_silently (some _) s k x = (refused, s)

silent_lem :
    (s : MemoryState Key Doc) (k : Key) (x : Doc) (o : Option (Entry Doc))
    → s.entry k ≡ o
    → ((create_silently o s k x).1 ≡ s)
      ⊎ ((s.entry k ≡ none)
          × Written (λ (t : MemoryState Key Doc) j. t.entry j) k x s (create_silently o s k x).1)
silent_lem s k x none h = inr (h, record { revision = s.last + 1; at = λ j. refl })
silent_lem s k x (some _) h = inl refl

never_done :
    (o : Option (Entry Doc)) (s : MemoryState Key Doc) (k : Key) (x : Doc)
    → (create_silently o s k x).0 ≢ done tt
never_done none s k x h = cc
never_done (some _) s k x h = cc

abbrev silent : Bucket Key Doc
silent = record {
  State = MemoryState Key Doc;
  peek = bucket.peek;
  get = bucket.get;
  create = λ s k x. create_silently (s.entry k) s k x;
  update = bucket.update;
  get_done = bucket.get_done;
  get_refused = bucket.get_refused;
  create_lem = λ s k x. silent_lem s k x (s.entry k) refl;
  create_done = λ s k x h. absurd (never_done (s.entry k) s k x h);
  update_lem = bucket.update_lem;
  update_done = bucket.update_done;
}

abbrev unheard : World silent.State
unheard = record { state = empty_state; time = 0 }

abbrev lost_lease : Doc
lost_lease = lease_doc (new_lease "r1" "controller" 1500)

answers_lost : LosesAnswers silent unheard.state lost_lease
answers_lost = record {
  reads = λ t x h. memory-IsHealthy.get_present t lease_key x h;
  absent = refl;
  replayed = refl;
  written = record { revision = 1; at = λ j. refl };
}

acquire_lease_lost_example :
    ((acquire_lease silent still clock fresh "r1" 500 unheard).0 ≡ err run_conflict)
    × (lease_of
          (silent.peek (acquire_lease silent still clock fresh "r1" 500 unheard).1.state lease_key)
        ≡ some lost_lease)
acquire_lease_lost_example =
    acquire_lease_lost silent clock fresh "r1" 500 unheard answers_lost (omega arith)

-- A run that is stored, and its change.
abbrev run : Run
run = record (new_run "r1" crowd 2000) {
  status = record (new_run "r1" crowd 2000).status { state = running; job_name = some "job" };
}

abbrev busy : World bucket.State
busy = record { state = write empty_state (run_key "r1") (run_doc run); time = 0 }

abbrev failing : Run → Run
failing = ended_as failed "benchmark Job failed before publishing a terminal status"

changed : (mutate bucket still "r1" failing busy).0 ≡ ok (failing run)
unfolding mutate change_round change_found retry get update
changed = refl

mutate-Changed_example :
    Changed bucket still "r1" failing (failing run) (mutate bucket still "r1" failing busy).1
mutate-Changed_example =
    mutate-Changed bucket still "r1" failing busy (failing run) still_keeps changed

-- No job can be created, and a job that is asked for has failed.
abbrev broken_jobs : Jobs
broken_jobs = record {
  State = Unit {0};
  create = λ run_id seconds workers j. (none, j);
  delete = λ name j. (true, j);
  state = λ name j. (job_failed, j);
}

abbrev platform : Platform bucket.State (Unit {0})
platform = record { store = empty; jobs = tt }

start_config_fails_example :
    let (x, q) = start_config bucket still broken_jobs clock fresh "r1" crowd platform in
    (x ≡ err jobs_failed)
    × (lease_of (bucket.peek q.store.state lease_key)
        ≡ some (freed (lease_doc (new_lease "r1" "controller" (1000 + lease_seconds crowd)))))
    × ((r : Run) × (lease_of (bucket.peek q.store.state (run_key "r1")) ≡ some (run_doc r))
        × (r.status.state ≡ failed))
start_config_fails_example =
    start_config_fails bucket memory-IsHealthy broken_jobs clock fresh "r1" refl crowd platform tt
      refl refl

reconciled :
    (reconcile bucket still broken_jobs clock fresh run (record { store = busy; jobs = tt })).0
    ≡ ok (failing run)
unfolding reconcile terminate release_lease release_round release_answer mutate change_round
    change_found retry get update
reconciled = refl

reconcile-HasEnded_example :
    (failing run ≡ run)
    ⊎ ((is_active run.status.state ≡ true) × (is_active (failing run).status.state ≡ false))
reconcile-HasEnded_example =
    reconcile-HasEnded bucket still broken_jobs clock fresh run (record { store = busy; jobs = tt })
      still_keeps (failing run) reconciled

abbrev workers : List WorkerStatus
workers =
    record { worker_index = 0; state = completed; exit_code = 0 }
    ∷ record { worker_index = 1; state = failed; exit_code = 3 }
    ∷ []
