-- ===== src/Runs/Failure.antt =====
-- A run that could not be submitted, and runs whose job has ended.
use microservices_demo_nats.Prelude.{
  ℕ, ◌+◌, String, ◌≡◌, refl, sym, ap, ◌∙◌, ◌⊎◌, inl, inr, Bool, true, false, Option, none, some,
  ltb, str_eq, str_eq_iff, Result, ok, err, Bool-cases,
}
use microservices_demo_nats.Kv.{
  still, create_quiet, Bucket, Written, World, IsHealthy, KeepsRevisions, create,
}
use microservices_demo_nats.Config.Settings.{BenchmarkConfig, worker_count}
use microservices_demo_nats.Runs.Records.{
  Key, key_has_eq, key_eq_iff, lease_key, run_key, RunState, failed, is_active, Run, Doc, lease_doc,
  run_doc, RunsError, jobs_failed,
}
use microservices_demo_nats.Runs.Lease.{new_lease, freed, acquire_lease}
use microservices_demo_nats.Runs.Exclusion.{IsFree}
use microservices_demo_nats.Runs.Updates.{is_bad_id, mutate, mutate-Changed}
use microservices_demo_nats.Runs.Release.{lease_of, freed_by, release_lease-Freed}
use microservices_demo_nats.Runs.Quiet.{acquire_lease_quiet, mutate_quiet}
use microservices_demo_nats.Runs.Manager.{
  JobState, job_missing, job_unreachable, job_failed, job_alive, Jobs, Platform, ended_as, new_run,
  lease_seconds, undo, submit, start_config, unless, until_in, stop_state, terminate, reconcile_job,
  reconcile_named, reconcile,
}

module _ (b : Bucket Key Doc) (healthy : IsHealthy b) (jobs : Jobs) (clock : ℕ → ℕ)
    (fresh : ℕ → String) (run_id : String) (fine : is_bad_id run_id ≡ false) where
  abbrev doc_at : b.State → Key → Option Doc
  doc_at s k = lease_of (b.peek s k)

  peek_written :
      (k : Key) (x : Doc) (s t : b.State) (written : Written b.peek k x s t)
      → b.peek t k ≡ some (record { value = x; revision = written.revision })
  peek_written k x s t written = rw (written.at k) (rw ((key_eq_iff k k).1 refl) refl)

  -- The run is marked, and its lease is released.
  undo_quiet :
      (e : RunsError) (v : World b.State) (j : jobs.State) (r : Run) (n : ℕ)
      → b.peek v.state (run_key run_id) ≡ some (record { value = run_doc r; revision = n })
      → r.run_id ≡ run_id
      → let (x, q) = undo b still jobs clock fresh run_id e (record { store = v; jobs = j }) in
        (x ≡ err e)
        × (doc_at q.store.state lease_key ≡ freed_by run_id (doc_at v.state lease_key))
        × (doc_at q.store.state (run_key run_id)
            ≡ some (run_doc (ended_as failed "could not submit benchmark Job" r)))
  unfolding undo
  undo_quiet e v j r n here own =
      let change = ended_as failed "could not submit benchmark Job" in
      let (marked, written) = mutate_quiet b healthy run_id change v r n here own fine in
      let u = (mutate b still run_id change v).1 in
      let (returned, freed_lease, rest) = release_lease-Freed b run_id u healthy in
      rw marked (
        rw returned (
          refl,
          freed_lease ∙ ap (λ o. freed_by run_id (lease_of o)) (written.at lease_key),
          ap lease_of (rest (run_key run_id) refl ∙ peek_written (run_key run_id) _ _ _ written),
        ))

  submit_fails :
      (config : BenchmarkConfig) (v : World b.State) (j : jobs.State)
      → b.peek v.state (run_key run_id) ≡ none
      → (jobs.create run_id (lease_seconds config) (worker_count config) j).0 ≡ none
      → let run = new_run run_id config (clock v.time + lease_seconds config) in
        let (x, q) =
          submit b still jobs clock fresh run_id config (record { store = v; jobs = j }) in
        (x ≡ err jobs_failed)
        × (doc_at q.store.state lease_key ≡ freed_by run_id (doc_at v.state lease_key))
        × (doc_at q.store.state (run_key run_id)
            ≡ some (run_doc (ended_as failed "could not submit benchmark Job" run)))
  unfolding submit
  submit_fails config v j absent no_job =
      let run = new_run run_id config (clock v.time + lease_seconds config) in
      let (answer, written) = create_quiet b healthy (run_key run_id) (run_doc run) v absent in
      let u = (create b still (run_key run_id) (run_doc run) v).1 in
      let there = peek_written (run_key run_id) _ _ _ written in
      let k = (jobs.create run_id (lease_seconds config) (worker_count config) j).1 in
      let (raised, lease, marked) = undo_quiet jobs_failed u k run written.revision there refl in
      rw answer (
        rw no_job
          (raised, lease ∙ ap (λ o. freed_by run_id (lease_of o)) (written.at lease_key), marked))

  -- In a healthy bucket that nobody else writes to, with no live lease and no run under a fresh ID:
  -- where the Job cannot be created, the start raises, the run is stored as failed, and the lease that
  -- was taken for it is released.
  pub start_config_fails :
      (config : BenchmarkConfig) (p : Platform b.State jobs.State)
      → IsFree (clock p.store.time) (b.peek p.store.state lease_key)
      → b.peek p.store.state (run_key run_id) ≡ none
      → (jobs.create run_id (lease_seconds config) (worker_count config) p.jobs).0 ≡ none
      → let (x, q) = start_config b still jobs clock fresh run_id config p in
        let until = clock p.store.time + lease_seconds config in
        (x ≡ err jobs_failed)
        × (doc_at q.store.state lease_key
            ≡ some (freed (lease_doc (new_lease run_id (fresh p.store.time) until))))
        × ((r : Run) × (doc_at q.store.state (run_key run_id) ≡ some (run_doc r))
            × (r.status.state ≡ failed))
  unfolding start_config
  start_config_fails config p free absent no_job =
      let (taken, written) =
        acquire_lease_quiet b healthy clock fresh run_id (lease_seconds config) p.store free in
      let v = (acquire_lease b still clock fresh run_id (lease_seconds config) p.store).1 in
      let run = new_run run_id config (clock v.time + lease_seconds config) in
      let (raised, lease, marked) =
        submit_fails config v p.jobs (written.at (run_key run_id) ∙ absent) no_job in
      let own : str_eq run_id run_id ≡ true = (str_eq_iff run_id run_id).1 refl in
      rw taken (
        raised,
        lease
            ∙ ap (λ o. freed_by run_id (lease_of o)) (peek_written lease_key _ _ _ written)
            ∙ rw own refl,
        (ended_as failed "could not submit benchmark Job" run, marked, refl),
      )

ok-injective : (a c : Run) → ◌≡◌ {A = Result RunsError Run} (ok a) (ok c) → a ≡ c
ok-injective a c h = cc

unless-ok : (f : Result RunsError (Unit {0})) (a q : Run) → unless f a ≡ ok q → a ≡ q
unless-ok (ok _) a q h = cc
unless-ok (err e) a q h = absurd (cc)

stop_state-inactive : (asked : Bool) → is_active (stop_state asked) ≡ false
stop_state-inactive true = refl
stop_state-inactive false = refl

-- A run is as it was, or it was active and has come to an end.
abbrev HasEnded : Run → Run → Type 0
HasEnded r q = (q ≡ r) ⊎ ((is_active r.status.state ≡ true) × (is_active q.status.state ≡ false))

module _ (b : Bucket Key Doc) (others : ℕ → b.State → b.State) (jobs : Jobs) (clock : ℕ → ℕ)
    (fresh : ℕ → String) where
  terminate-inactive :
      (run_id : String) (terminal : RunState) (message : String) (p : Platform b.State jobs.State)
      (q : Run)
      → KeepsRevisions b others
      → is_active terminal ≡ false
      → (terminate b others jobs clock fresh run_id terminal message p).0 ≡ ok q
      → is_active q.status.state ≡ false
  unfolding terminate
  terminate-inactive run_id terminal message p q unique over h =
      go (mutate b others run_id (ended_as terminal message) p.store).0 refl h
    where
      go :
          (m : Result RunsError Run)
          → (mutate b others run_id (ended_as terminal message) p.store).0 ≡ m
          → (terminate b others jobs clock fresh run_id terminal message p).0 ≡ ok q
          → is_active q.status.state ≡ false
      go (ok a) e g =
          let c = mutate-Changed b others run_id (ended_as terminal message) p.store a unique e in
          let same = unless-ok _ a q (rw (terminate, e) at g) in rw (← same) (rw c.changed over)
      go (err x) e g = absurd (cc (rw (terminate, e) at g))

  reconcile_job-HasEnded :
      (r : Run) (seen : JobState) (p : Platform b.State jobs.State)
      → KeepsRevisions b others
      → is_active r.status.state ≡ true
      → (q : Run) → (reconcile_job b others jobs clock fresh r seen p).0 ≡ ok q
      → HasEnded r q
  reconcile_job-HasEnded r job_unreachable p unique active q h = inl (sym (ok-injective r q h))
  reconcile_job-HasEnded r job_alive p unique active q h = inl (sym (ok-injective r q h))
  reconcile_job-HasEnded r job_failed p unique active q h =
      inr (active, terminate-inactive _ failed _ p q unique refl h)
  reconcile_job-HasEnded r job_missing p unique active q h =
      elim (Bool-cases (ltb (clock p.store.time) (until_in r.status.lease_until))) [
        | inl e ↦ inl (sym (ok-injective r q (rw e at h)))
        | inr e ↦ inr (
          active,
          terminate-inactive _ (stop_state r.status.stop_requested) _ p q unique
              (stop_state-inactive r.status.stop_requested) (rw e at h),
        )
      ]

  reconcile_named-HasEnded :
      (r : Run) (name : Option String) (p : Platform b.State jobs.State)
      → KeepsRevisions b others
      → is_active r.status.state ≡ true
      → (q : Run) → (reconcile_named b others jobs clock fresh r name p).0 ≡ ok q
      → HasEnded r q
  reconcile_named-HasEnded r none p unique active q h = inl (sym (ok-injective r q h))
  reconcile_named-HasEnded r (some name) p unique active q h = elim (Bool-cases (str_eq name "")) [
    | inl e ↦ inl (sym (ok-injective r q (rw e at h)))
    | inr e ↦ reconcile_job-HasEnded r (jobs.state name p.jobs).0 _ unique active q (rw e at h)
  ]

  -- Whatever others do, as long as they never reuse a revision of a key for another value: a run that
  -- `_reconcile` returns is the one it was given, or that one was active and the one that it returns
  -- has ended. A run that has ended is never made active.
  pub reconcile-HasEnded :
      (r : Run) (p : Platform b.State jobs.State)
      → KeepsRevisions b others
      → (q : Run) → (reconcile b others jobs clock fresh r p).0 ≡ ok q
      → HasEnded r q
  unfolding reconcile
  reconcile-HasEnded r p unique q h = elim (Bool-cases (is_active r.status.state)) [
    | inl e ↦ reconcile_named-HasEnded r r.status.job_name p unique e q (rw e at h)
    | inr e ↦ inl (sym (ok-injective r q (rw e at h)))
  ]
