-- ===== src/Runs/Exclusion.antt =====
-- At most one run holds a live lease.
use microservices_demo_nats.Prelude.{
  ℕ, suc, ◌+◌, ◌≤◌, ◌<◌, String, ◌≡◌, ◌≢◌, refl, sym, ◌∙◌, inl, inr, true, false, Option, none,
  some, arith, ltb, Result, ok, err, Round, finished, crashed, retry_result, retry-crashed,
  Bool-cases,
}
use microservices_demo_nats.Kv.{
  Entry, Reply, done, refused, broken, Bucket, Written, World, get, create, update, arrive,
  KeepsRevisions,
}
use microservices_demo_nats.Runs.Records.{
  Key, key_has_eq, lease_key, Doc, lease_doc, until_of, RunsError, after_write, or_conflict,
}
use microservices_demo_nats.Runs.Lease.{acquire_answer, new_lease, acquire_round, acquire_lease}

-- No lease is held at that time.
abbrev pub IsFree : ℕ → Option (Entry Doc) → Type 0
IsFree now none = Unit
IsFree now (some x) = until_of x.value ≤ now

some-injective : {A : Type 0} (a b : A) → some a ≡ some b → a ≡ b
some-injective a b h = cc

finished_done :
    (r : Reply (Unit {0}))
    → ◌≡◌ {A = Round RunsError (Unit {0})} (after_write tt r) (finished tt)
    → r ≡ done tt
finished_done (done _) h = refl
finished_done refused h = absurd (cc)
finished_done broken h = absurd (cc)

module _ (b : Bucket Key Doc) (others : ℕ → b.State → b.State) (clock : ℕ → ℕ) (fresh : ℕ → String)
    (run_id : String) (duration : ℕ) where
  -- The last write put the run's lease where none was held by the clock.
  pub record Taken (w : World b.State) : Type 0 where
    pub before : b.State
    pub call : ℕ
    pub free : IsFree (clock call) (b.peek before lease_key)
    pub written :
        Written b.peek lease_key
          (lease_doc (new_lease run_id (fresh call) (clock call + duration)))
          before
          w.state

  answer-Taken :
      (call : ℕ) (found : Reply (Entry Doc)) (v : World b.State)
      → KeepsRevisions b others
      → ((x : Entry Doc) → found ≡ done x → b.peek v.state lease_key ≡ some x)
      → let r =
          acquire_answer b others
            (new_lease run_id (fresh call) (clock call + duration))
            (clock call)
            found
            v in
        r.0 ≡ finished tt → Taken r.1
  unfolding acquire_answer create update
  answer-Taken call broken v unique reads h = absurd (cc)
  answer-Taken call refused v unique reads h =
      let s = others v.time v.state in
      let lease = lease_doc (new_lease run_id (fresh call) (clock call + duration)) in
      let (absent, written) = b.create_done s lease_key lease (finished_done _ h) in
      record { before = s; call = call; free = rw absent tt; written = written }
  answer-Taken call (done x) v unique reads h =
      elim (Bool-cases (ltb (clock call) (until_of x.value))) [
        | inl e ↦ absurd (live e h)
        | inr e ↦ rw e (taken e (rw e at h))
      ]
    where
      s : b.State
      s = others v.time v.state

      lease : Doc
      lease = lease_doc (new_lease run_id (fresh call) (clock call + duration))

      live :
          ltb (clock call) (until_of x.value) ≡ true
          → (acquire_answer b others
              (new_lease run_id (fresh call) (clock call + duration))
              (clock call)
              (done x)
              v).0
            ≡ finished tt
          → ⊥
      live e g = ground (arith, e, g)

      taken :
          ltb (clock call) (until_of x.value) ≡ false
          → after_write tt (b.update s lease_key lease x.revision).0 ≡ finished tt
          → Taken (record { state = (b.update s lease_key lease x.revision).1; time = suc v.time })
      taken e g =
          let (old, present, same, written) =
            b.update_done s lease_key lease x.revision (finished_done _ g) in
          let value = unique v.time v.state lease_key x old (reads x refl) present (sym same) in
          record {
            before = s;
            call = call;
            free = rw present (rw (← value) (ground (arith, e)));
            written = written;
          }

  round_Taken :
      (w : World b.State)
      → KeepsRevisions b others
      → (acquire_round b others clock fresh run_id duration w).0 ≡ finished tt
      → Taken (acquire_round b others clock fresh run_id duration w).1
  unfolding acquire_round get
  round_Taken w unique h =
      answer-Taken w.time (get b others lease_key w).0 (get b others lease_key w).1 unique
        (λ x e. b.get_done _ lease_key x e) h

  or_conflict-ok :
      (r : Result RunsError (Option (Unit {0}))) → or_conflict r ≡ ok tt → r ≡ ok (some tt)
  or_conflict-ok (ok none) h = absurd (cc)
  or_conflict-ok (ok (some _)) h = refl
  or_conflict-ok (err e) h = absurd (cc)

  -- Whatever other controllers and jobs do meanwhile, as long as they never reuse a revision of a key
  -- for another value: when `_acquire_lease` returns, the last write to the bucket put the run's own
  -- lease, for the duration from a reading of the clock, in the place of no lease or of one that had
  -- ended by that reading.
  pub acquire_lease-Taken :
      (w : World b.State)
      → KeepsRevisions b others
      → (acquire_lease b others clock fresh run_id duration w).0 ≡ ok tt
      → Taken (acquire_lease b others clock fresh run_id duration w).1
  unfolding acquire_lease
  acquire_lease-Taken w unique h =
      retry_result (acquire_round b others clock fresh run_id duration) (λ _. Unit) (λ _ _. tt)
        (λ _ v. Taken v) (λ v a _ e. round_Taken v unique e) 12 w tt tt (or_conflict-ok _ h)

  abbrev KeepLease : Type 0
  KeepLease = (n : ℕ) (s : b.State) → b.peek (others n s) lease_key ≡ b.peek s lease_key

  abbrev Refused : Entry Doc → Round RunsError (Unit {0}) × World b.State → Type 0
  Refused x (r, v) = ((e : RunsError) × (r ≡ crashed e)) × (b.peek v.state lease_key ≡ some x)

  answer_Refused :
      (now call : ℕ) (found : Reply (Entry Doc)) (v : World b.State) (x : Entry Doc)
      → now < until_of x.value
      → b.peek v.state lease_key ≡ some x
      → ((y : Entry Doc) → found ≡ done y → y ≡ x)
      → found ≢ refused
      → Refused x
          (acquire_answer b others (new_lease run_id (fresh call) (now + duration)) now found v)
  unfolding acquire_answer
  answer_Refused now call broken v x live there reads present = ((_, refl), there)
  answer_Refused now call refused v x live there reads present = absurd (present refl)
  answer_Refused now call (done y) v x live there reads present =
      let same = reads y refl in
      let long : ltb now (until_of x.value) ≡ true = ground arith in
      rw same (rw long ((_, refl), there))

  round_Refused :
      (w : World b.State) (x : Entry Doc)
      → KeepLease
      → b.peek w.state lease_key ≡ some x
      → clock w.time < until_of x.value
      → Refused x (acquire_round b others clock fresh run_id duration w)
  unfolding acquire_round get
  round_Refused w x keep here live =
      let s = others w.time w.state in
      let there = keep w.time w.state ∙ here in
      answer_Refused (clock w.time) w.time (b.get s lease_key) (arrive b others w) x live there
        (λ y e. some-injective y x (sym (b.get_done s lease_key y e) ∙ there))
        (λ e. absurd (cc (sym (b.get_refused s lease_key e) ∙ there)))

  -- As long as a lease stands that ends after every reading of the clock, and nobody else writes the
  -- lease, `_acquire_lease` never returns, and leaves that lease as it is.
  pub acquire_lease_held :
      (w : World b.State) (x : Entry Doc)
      → KeepLease
      → b.peek w.state lease_key ≡ some x
      → ((t : ℕ) → clock t < until_of x.value)
      → let (r, v) = acquire_lease b others clock fresh run_id duration w in
        (r ≢ ok tt) × (b.peek v.state lease_key ≡ some x)
  unfolding acquire_lease
  acquire_lease_held w x keep here live =
      let ((e, crash), there) = round_Refused w x keep here (live w.time) in
      rw (retry-crashed (acquire_round b others clock fresh run_id duration) 11 w e crash)
        (λ h. cc, there)
