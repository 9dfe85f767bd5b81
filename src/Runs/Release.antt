-- ===== src/Runs/Release.antt =====
-- The lease after `_release_lease`, and after an answer to `_acquire_lease` that got lost.
use microservices_demo_nats.Prelude.{
  ℕ, suc, ◌+◌, ◌<◌, String, ◌≡◌, refl, ap, inl, inr, true, false, Option, none, some, arith, ltb,
  ok, err, Round, finished, again, crashed, retry-crashed, retry-again, retry-finished, Bool-cases,
  if◌then◌else◌,
}
use microservices_demo_nats.Kv.{
  still, Entry, done, refused, Bucket, Written, World, IsHealthy, get, create, update,
}
use microservices_demo_nats.Runs.Records.{
  Key, key_has_eq, key_eq, lease_key, Doc, lease_doc, has_id, RunsError, run_conflict,
}
use microservices_demo_nats.Runs.Lease.{
  acquire_answer, new_lease, acquire_round, acquire_lease, freed, release_answer, release_round,
  release_lease,
}

abbrev pub lease_of : Option (Entry Doc) → Option Doc
lease_of none = none
lease_of (some x) = some x.value

-- The lease is freed if it is the run's own.
abbrev pub freed_by : String → Option Doc → Option Doc
freed_by run_id none = none
freed_by run_id (some d) = some (if has_id run_id d then freed d else d)

module _ (b : Bucket Key Doc) where
  abbrev pub lease_at : b.State → Option Doc
  lease_at s = lease_of (b.peek s lease_key)

  pub record Freed (run_id : String) (s : b.State) (r : Round RunsError (Unit {0}) × World b.State)
      : Type 0 where
    pub ended : r.0 ≡ finished tt
    pub lease : lease_at r.1.state ≡ freed_by run_id (lease_at s)
    pub rest : (k : Key) → key_eq lease_key k ≡ false → b.peek r.1.state k ≡ b.peek s k

  release_round-Freed :
      (run_id : String) (w : World b.State)
      → IsHealthy b
      → Freed run_id w.state (release_round b still run_id w)
  unfolding release_round release_answer get update
  release_round-Freed run_id w healthy = go (b.peek w.state lease_key) refl
    where
      go :
          (o : Option (Entry Doc))
          → b.peek w.state lease_key ≡ o
          → Freed run_id w.state (release_round b still run_id w)
      go none h =
          rw (healthy.get_absent w.state lease_key h)
            (record { ended = refl; lease = rw h refl; rest = λ k e. refl })
      go (some x) h =
          rw (healthy.get_present w.state lease_key x h)
            (elim (Bool-cases (has_id run_id x.value)) [
              | inr other ↦
                  rw other (record { ended = refl; lease = rw h (rw other); rest = λ k e. refl })
              | inl own ↦
                  let e = healthy.update_current w.state lease_key (freed x.value) x h in
                  let (_, _, _, written) =
                    b.update_done w.state lease_key (freed x.value) x.revision e in
                  rw own (record {
                    ended = rw e;
                    lease = rw (written.at lease_key) (rw h (rw own));
                    rest = λ k f. rw (written.at k) (rw f);
                  })
            ])

  pub release_lease-Freed :
      (run_id : String) (w : World b.State)
      → IsHealthy b
      → let (r, v) = release_lease b still run_id w in
        (r ≡ ok tt)
        × (lease_at v.state ≡ freed_by run_id (lease_at w.state))
        × ((k : Key) → key_eq lease_key k ≡ false → b.peek v.state k ≡ b.peek w.state k)
  unfolding release_lease
  release_lease-Freed run_id w healthy =
      let done_at_once = release_round-Freed run_id w healthy in
      rw (retry-finished (release_round b still run_id) 11 w tt done_at_once.ended)
        (refl, done_at_once.lease, done_at_once.rest)

  -- A bucket whose reads work and whose `create` of a lease takes effect without an answer.
  pub record LosesAnswers (s : b.State) (lease : Doc) : Type 0 where
    pub reads :
        (t : b.State) (x : Entry Doc) → b.peek t lease_key ≡ some x → b.get t lease_key ≡ done x
    pub absent : b.get s lease_key ≡ refused
    pub replayed : (b.create s lease_key lease).0 ≡ refused
    pub written : Written b.peek lease_key lease s (b.create s lease_key lease).1

  module _ (clock : ℕ → ℕ) (fresh : ℕ → String) (run_id : String) (duration : ℕ)
      (w : World b.State) where
    abbrev own_lease : Doc
    own_lease = lease_doc (new_lease run_id (fresh w.time) (clock w.time + duration))

    abbrev after_create : World b.State
    after_create = record {
      state = (b.create w.state lease_key own_lease).1;
      time = suc (suc w.time);
    }

    first_round :
        LosesAnswers w.state own_lease
        → acquire_round b still clock fresh run_id duration w ≡ (again, after_create)
    unfolding acquire_round acquire_answer get create
    first_round lost = rw lost.absent (rw lost.replayed refl)

    abbrev HasOwn : Option (Entry Doc) → Type 0
    HasOwn o = (x : Entry Doc) × (o ≡ some x) × (x.value ≡ own_lease)

    left_behind : LosesAnswers w.state own_lease → HasOwn (b.peek after_create.state lease_key)
    left_behind lost = (
      record { value = own_lease; revision = lost.written.revision },
      lost.written.at lease_key,
      refl,
    )

    second_round :
        (x : Entry Doc)
        → LosesAnswers w.state own_lease
        → b.peek after_create.state lease_key ≡ some x
        → x.value ≡ own_lease
        → clock (suc (suc w.time)) < clock w.time + duration
        → (acquire_round b still clock fresh run_id duration after_create).0 ≡ crashed run_conflict
          × (lease_at (acquire_round b still clock fresh run_id duration after_create).1.state
              ≡ some own_lease)
    unfolding acquire_round acquire_answer get
    second_round x lost here own soon =
        let live : ltb (clock (suc (suc w.time))) (clock w.time + duration) ≡ true = ground arith in
        rw (lost.reads after_create.state x here) (rw own (rw live (refl, rw here (ap some own))))

  -- Where the answer to the creation of a lease is lost, so that the replay of the request is
  -- answered as a conflict, and nobody else acts: `_acquire_lease` reads back its own lease as that
  -- of an active run and raises RunConflict, and the lease stands although no run has started.
  pub acquire_lease_lost :
      (clock : ℕ → ℕ) (fresh : ℕ → String) (run_id : String) (duration : ℕ) (w : World b.State)
      → let lease = new_lease run_id (fresh w.time) (clock w.time + duration) in
        LosesAnswers w.state (lease_doc lease)
        → clock (suc (suc w.time)) < clock w.time + duration
        → let (r, v) = acquire_lease b still clock fresh run_id duration w in
          (r ≡ err run_conflict) × (lease_of (b.peek v.state lease_key) ≡ some (lease_doc lease))
  unfolding acquire_lease
  acquire_lease_lost clock fresh run_id duration w lost soon =
      let body = acquire_round b still clock fresh run_id duration in
      let u = after_create clock fresh run_id duration w in
      let (x, here, own) = left_behind clock fresh run_id duration w lost in
      let (crash, stands) = second_round clock fresh run_id duration w x lost here own soon in
      let one = first_round clock fresh run_id duration w lost in
      rw (retry-again body 11 w (ap (λ (r : Round RunsError (Unit {0}) × World b.State). r.0) one))
        (rw one (rw (retry-crashed body 10 u run_conflict crash) (refl, stands)))
