-- ===== src/Runs/Quiet.antt =====
-- Acquiring the lease and updating a run in a healthy bucket that nobody else writes to.
use microservices_demo_nats.Prelude.{
  ℕ, ◌+◌, String, ◌≡◌, refl, true, false, Option, none, some, arith, ltb, str_eq, str_eq_iff, ok,
  finished, retry-finished,
}
use microservices_demo_nats.Kv.{
  still, create_quiet, update_quiet, Entry, Bucket, Written, World, IsHealthy, get, arrive,
}
use microservices_demo_nats.Runs.Records.{
  Key, key_has_eq, lease_key, run_key, Run, Doc, lease_doc, run_doc, until_of,
}
use microservices_demo_nats.Runs.Lease.{acquire_answer, new_lease, acquire_round, acquire_lease}
use microservices_demo_nats.Runs.Exclusion.{IsFree}
use microservices_demo_nats.Runs.Updates.{find_run, is_bad_id, change_found, change_round, mutate}

module _ (b : Bucket Key Doc) (healthy : IsHealthy b) where
  module _ (clock : ℕ → ℕ) (fresh : ℕ → String) (run_id : String) (duration : ℕ)
      (w : World b.State) where
    abbrev pub taken_lease : Doc
    taken_lease = lease_doc (new_lease run_id (fresh w.time) (clock w.time + duration))

    acquire_round_quiet :
        IsFree (clock w.time) (b.peek w.state lease_key)
        → ((acquire_round b still clock fresh run_id duration w).0 ≡ finished tt)
          × Written b.peek lease_key taken_lease w.state
              (acquire_round b still clock fresh run_id duration w).1.state
    unfolding acquire_round acquire_answer get
    acquire_round_quiet free = go (b.peek w.state lease_key) refl free
      where
        go :
            (o : Option (Entry Doc))
            → b.peek w.state lease_key ≡ o
            → IsFree (clock w.time) o
            → ((acquire_round b still clock fresh run_id duration w).0 ≡ finished tt)
              × Written b.peek lease_key taken_lease w.state
                  (acquire_round b still clock fresh run_id duration w).1.state
        go none h f =
            let (answer, written) =
              create_quiet b healthy lease_key taken_lease (arrive b still w) h in
            rw (healthy.get_absent w.state lease_key h) (rw answer, written)
        go (some x) h f =
            let (answer, written) =
              update_quiet b healthy lease_key taken_lease x (arrive b still w) h in
            let over : ltb (clock w.time) (until_of x.value) ≡ false = ground (arith, f) in
            rw (healthy.get_present w.state lease_key x h) (rw over (rw answer, written))

    pub acquire_lease_quiet :
        IsFree (clock w.time) (b.peek w.state lease_key)
        → ((acquire_lease b still clock fresh run_id duration w).0 ≡ ok tt)
          × Written b.peek lease_key taken_lease w.state
              (acquire_lease b still clock fresh run_id duration w).1.state
    unfolding acquire_lease
    acquire_lease_quiet free =
        let (ended, written) = acquire_round_quiet free in
        rw (retry-finished (acquire_round b still clock fresh run_id duration) 11 w tt ended)
          (refl, written)

  module _ (run_id : String) (change : Run → Run) (w : World b.State) (r : Run) (n : ℕ)
      (here : b.peek w.state (run_key run_id) ≡ some (record { value = run_doc r; revision = n }))
      (own : r.run_id ≡ run_id) where
    change_round_quiet :
        ((change_round b still (find_run run_id) run_id change w).0 ≡ finished (change r))
        × Written b.peek
            (run_key run_id)
            (run_doc (change r))
            w.state
            (change_round b still (find_run run_id) run_id change w).1.state
    unfolding change_round change_found get
    change_round_quiet =
        let same : str_eq r.run_id run_id ≡ true = (str_eq_iff r.run_id run_id).1 own in
        let (answer, written) =
          update_quiet b healthy (run_key run_id) (run_doc (change r))
            (record { value = run_doc r; revision = n }) (arrive b still w) here in
        rw (healthy.get_present w.state (run_key run_id) _ here) (rw same (rw answer, written))

    pub mutate_quiet :
        is_bad_id run_id ≡ false
        → ((mutate b still run_id change w).0 ≡ ok (change r))
          × Written b.peek
              (run_key run_id)
              (run_doc (change r))
              w.state
              (mutate b still run_id change w).1.state
    unfolding mutate
    mutate_quiet fine =
        let (ended, written) = change_round_quiet in
        rw fine (
          rw
            (retry-finished (change_round b still (find_run run_id) run_id change) 11 w (change r)
              ended)
            (refl, written))
