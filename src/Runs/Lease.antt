-- ===== src/Runs/Lease.antt =====
-- `_acquire_lease`, `_release_lease`, and the job's `renew_lease` and `release_lease`.
use microservices_demo_nats.Prelude.{
  ℕ, ◌+◌, String, true, false, Option, ltb, Result, ok, err, Round, finished, crashed, retry,
  if◌then◌else◌,
}
use microservices_demo_nats.Kv.{
  Entry, Reply, done, refused, broken, Bucket, World, get, create, update,
}
use microservices_demo_nats.Runs.Records.{
  Key, key_has_eq, lease_key, Lease, Doc, lease_doc, run_doc, blank, until_of, is_released, has_id,
  RunsError, run_conflict, record_not_found, store_failed, after_write, or_conflict,
}

-- `lease.update(...)`, or `released[...] = ...`: the other fields stay.
abbrev pub with_lease : (Lease → Lease) → Doc → Doc
with_lease f (lease_doc l) = lease_doc (f l)
with_lease f (run_doc r) = run_doc r
with_lease f blank = blank

abbrev pub freed : Doc → Doc
freed = with_lease (λ l. record l { lease_until = 0; released = true })

abbrev pub renewed : String → ℕ → Doc → Doc
renewed owner until = with_lease (λ l. record l { owner = owner; lease_until = until })

abbrev pub new_lease : String → String → ℕ → Lease
new_lease run_id owner until = record {
  run_id = run_id;
  owner = owner;
  lease_until = until;
  released = false;
}

module _ (b : Bucket Key Doc) (others : ℕ → b.State → b.State) where
  abbrev pub Site : Type 0
  Site = World b.State

  -- `clock` is a reading for each call to the store that came before it.
  unfoldable pub acquire_answer :
      Lease → ℕ → Reply (Entry Doc) → Site → Round RunsError (Unit {0}) × Site
  acquire_answer lease now broken w = (crashed store_failed, w)
  acquire_answer lease now refused w =
      let (r, v) = create b others lease_key (lease_doc lease) w in (after_write tt r, v)
  acquire_answer lease now (done current) w =
      if ltb now (until_of current.value)
      then (crashed run_conflict, w)
      else let (r, v) = update b others lease_key (lease_doc lease) current.revision w in
        (after_write tt r, v)

  -- The owner is a fresh name, made for each round.
  unfoldable pub acquire_round :
      (ℕ → ℕ) → (ℕ → String) → String → ℕ → Site → Round RunsError (Unit {0}) × Site
  acquire_round clock fresh run_id duration w =
      let now = clock w.time in
      let (found, v) = get b others lease_key w in
      acquire_answer (new_lease run_id (fresh w.time) (now + duration)) now found v

  unfoldable pub acquire_lease :
      (ℕ → ℕ) → (ℕ → String) → String → ℕ → Site → Result RunsError (Unit {0}) × Site
  acquire_lease clock fresh run_id duration w =
      let (r, v) = retry (acquire_round clock fresh run_id duration) 12 w in (or_conflict r, v)

  unfoldable pub release_answer :
      String → Reply (Entry Doc) → Site → Round RunsError (Unit {0}) × Site
  release_answer run_id broken w = (crashed store_failed, w)
  release_answer run_id refused w = (finished tt, w)
  release_answer run_id (done current) w =
      if has_id run_id current.value
      then (let (r, v) = update b others lease_key (freed current.value) current.revision w in
          (after_write tt r, v))
      else (finished tt, w)

  unfoldable pub release_round : String → Site → Round RunsError (Unit {0}) × Site
  release_round run_id w =
      let (found, v) = get b others lease_key w in release_answer run_id found v

  -- After twelve conflicts it returns all the same.
  abbrev pub given_up : Result RunsError (Option (Unit {0})) → Result RunsError (Unit {0})
  given_up (ok _) = ok tt
  given_up (err e) = err e

  unfoldable pub release_lease : String → Site → Result RunsError (Unit {0}) × Site
  release_lease run_id w = let (r, v) = retry (release_round run_id) 12 w in (given_up r, v)

  unfoldable pub renew_answer :
      String → String → ℕ → Reply (Entry Doc) → Site → Round RunsError ℕ × Site
  renew_answer run_id owner until broken w = (crashed store_failed, w)
  renew_answer run_id owner until refused w = (crashed record_not_found, w)
  renew_answer run_id owner until (done current) w =
      if has_id run_id current.value
      then if is_released current.value
        then (crashed run_conflict, w)
        else (let (r, v) =
              update b others lease_key (renewed owner until current.value) current.revision w in
            (after_write until r, v))
      else (crashed run_conflict, w)

  unfoldable pub renew_round : String → String → ℕ → Site → Round RunsError ℕ × Site
  renew_round run_id owner until w =
      let (found, v) = get b others lease_key w in renew_answer run_id owner until found v

  unfoldable pub renew_lease : (ℕ → ℕ) → String → String → ℕ → Site → Result RunsError ℕ × Site
  renew_lease clock run_id owner seconds w =
      let (r, v) = retry (renew_round run_id owner (clock w.time + seconds)) 12 w in
      (or_conflict r, v)
