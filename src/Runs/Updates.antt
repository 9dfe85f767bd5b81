-- ===== src/Runs/Updates.antt =====
-- `_get` and the two functions `mutate`, of the controller and of the job: read, change and write
-- back, again when somebody else has written in between.
use microservices_demo_nats.Prelude.{
  ℕ, String, ◌≡◌, refl, sym, ap, ◌∙◌, Bool, ◌||◌, Option, none, some, arith, ltb, str_eq, length,
  codes, Result, ok, err, Round, finished, crashed, retry, retry_result, if◌then◌else◌, Bool-cases,
  inl, inr,
}
use microservices_demo_nats.Kv.{
  Entry, Reply, done, refused, broken, Bucket, Written, World, get, update, KeepsRevisions,
}
use microservices_demo_nats.Runs.Records.{
  Key, key_has_eq, run_key, Run, Doc, lease_doc, run_doc, blank, RunsError, run_not_found,
  record_not_found, store_failed, after_write, or_conflict,
}

-- The run in a document that was read.
abbrev pub checked_run : String → Doc → Result RunsError Run
checked_run run_id (run_doc r) = if str_eq r.run_id run_id then ok r else err run_not_found
checked_run run_id (lease_doc l) =
    if str_eq l.run_id run_id then err store_failed else err run_not_found
checked_run run_id blank = err run_not_found

abbrev pub with_revision : ℕ → Result RunsError Run → Result RunsError (Run × ℕ)
with_revision n (ok r) = ok (r, n)
with_revision n (err e) = err e

-- What `_get` makes of an answer of the store, and what the job does.
abbrev pub find_run : String → Reply (Entry Doc) → Result RunsError (Run × ℕ)
find_run run_id broken = err store_failed
find_run run_id refused = err run_not_found
find_run run_id (done x) = with_revision x.revision (checked_run run_id x.value)

abbrev pub any_run : Doc → Result RunsError Run
any_run (run_doc r) = ok r
any_run (lease_doc l) = err store_failed
any_run blank = err store_failed

abbrev pub find_own : Reply (Entry Doc) → Result RunsError (Run × ℕ)
find_own broken = err store_failed
find_own refused = err record_not_found
find_own (done x) = with_revision x.revision (any_run x.value)

abbrev pub is_bad_id : String → Bool
is_bad_id run_id = str_eq run_id "" || ltb 64 (length (codes run_id))

module _ (b : Bucket Key Doc) (others : ℕ → b.State → b.State) where
  unfoldable pub get_run : String → World b.State → Result RunsError (Run × ℕ) × World b.State
  get_run run_id w =
      let (found, v) = get b others (run_key run_id) w in
      if is_bad_id run_id then (err run_not_found, w) else (find_run run_id found, v)

  unfoldable pub change_found :
      String
      → (Run → Run)
      → Result RunsError (Run × ℕ)
      → World b.State
      → Round RunsError Run × World b.State
  change_found run_id change (err e) v = (crashed e, v)
  change_found run_id change (ok (r, revision)) v =
      let (answer, u) = update b others (run_key run_id) (run_doc (change r)) revision v in
      (after_write (change r) answer, u)

  unfoldable pub change_round :
      (Reply (Entry Doc) → Result RunsError (Run × ℕ))
      → String
      → (Run → Run)
      → World b.State
      → Round RunsError Run × World b.State
  change_round find run_id change w =
      let (found, v) = get b others (run_key run_id) w in change_found run_id change (find found) v

  unfoldable pub mutate :
      String → (Run → Run) → World b.State → Result RunsError Run × World b.State
  mutate run_id change w =
      let (r, v) = retry (change_round (find_run run_id) run_id change) 12 w in
      if is_bad_id run_id then (err run_not_found, w) else (or_conflict r, v)

  unfoldable pub job_mutate :
      String → (Run → Run) → World b.State → Result RunsError Run × World b.State
  job_mutate run_id change w =
      let (r, v) = retry (change_round find_own run_id change) 12 w in (or_conflict r, v)

  -- The change was made to the run as it stood at the moment of the write.
  pub record Changed (run_id : String) (change : Run → Run) (r : Run) (w : World b.State)
      : Type 0 where
    pub before : b.State
    pub old : Run
    pub revision : ℕ
    pub present :
        b.peek before (run_key run_id) ≡ some (record { value = run_doc old; revision = revision })
    pub changed : r ≡ change old
    pub written : Written b.peek (run_key run_id) (run_doc r) before w.state

  -- A search that hands out what is stored.
  abbrev IsHonest : (Reply (Entry Doc) → Result RunsError (Run × ℕ)) → Type 0
  IsHonest find =
      (found : Reply (Entry Doc)) (r : Run) (n : ℕ)
      → find found ≡ ok (r, n)
      → found ≡ done (record { value = run_doc r; revision = n })

  found-Changed :
      (run_id : String) (change : Run → Run) (found : Result RunsError (Run × ℕ))
      (v : World b.State) (r : Run)
      → KeepsRevisions b others
      → ((old : Run) (n : ℕ)
          → found ≡ ok (old, n)
          → b.peek v.state (run_key run_id) ≡ some (record { value = run_doc old; revision = n }))
      → (change_found run_id change found v).0 ≡ finished r
      → Changed run_id change r (change_found run_id change found v).1
  unfolding change_found update
  found-Changed run_id change (err e) v r unique reads h = absurd (cc)
  found-Changed run_id change (ok (old, n)) v r unique reads h =
      let s = others v.time v.state in
      let key = run_key run_id in
      let (value, answered) = finished_write (change old) r _ h in
      let (x, present, same, written) = b.update_done s key (run_doc (change old)) n answered in
      let seen = reads old n refl in
      let kept =
        unique v.time v.state key (record { value = run_doc old; revision = n }) x seen present
          (sym same) in
      record {
        before = s;
        old = old;
        revision = n;
        present = rw present (
            ap (λ (d : Doc). some (record { value = d; revision = x.revision })) (sym kept)
            ∙ ap (λ (k : ℕ). some (record { value = run_doc old; revision = k })) same);
        changed = sym value;
        written = rw (← value) written;
      }
    where
      finished_write :
          (a c : Run) (t : Reply (Unit {0}))
          → after_write a t ≡ finished c
          → (a ≡ c) × (t ≡ done tt)
      finished_write a c (done _) g = (ground (arith, g), refl)
      finished_write a c refused g = absurd (cc)
      finished_write a c broken g = absurd (cc)

  round-Changed :
      (find : Reply (Entry Doc) → Result RunsError (Run × ℕ)) (run_id : String) (change : Run → Run)
      (w : World b.State) (r : Run)
      → IsHonest find
      → KeepsRevisions b others
      → (change_round find run_id change w).0 ≡ finished r
      → Changed run_id change r (change_round find run_id change w).1
  unfolding change_round get
  round-Changed find run_id change w r honest unique h =
      let s = others w.time w.state in
      found-Changed run_id change (find (b.get s (run_key run_id))) _ r unique
        (λ old n e. b.get_done s (run_key run_id) _ (honest _ old n e)) h

  or_conflict-ok :
      (r : Result RunsError (Option Run)) (a : Run) → or_conflict r ≡ ok a → r ≡ ok (some a)
  or_conflict-ok (ok none) a h = absurd (cc)
  or_conflict-ok (ok (some x)) a h = cc
  or_conflict-ok (err e) a h = absurd (cc)

  loop-Changed :
      (find : Reply (Entry Doc) → Result RunsError (Run × ℕ)) (run_id : String) (change : Run → Run)
      (w : World b.State) (r : Run)
      → IsHonest find
      → KeepsRevisions b others
      → or_conflict (retry (change_round find run_id change) 12 w).0 ≡ ok r
      → Changed run_id change r (retry (change_round find run_id change) 12 w).1
  loop-Changed find run_id change w r honest unique h =
      retry_result (change_round find run_id change) (λ _. Unit) (λ _ _. tt)
        (λ a v. Changed run_id change a v)
        (λ v a _ e. round-Changed find run_id change v a honest unique e) 12 w r tt
        (or_conflict-ok _ r h)

  checked-honest :
      (run_id : String) (x : Entry Doc) (r : Run) (n : ℕ)
      → with_revision x.revision (checked_run run_id x.value) ≡ ok (r, n)
      → x ≡ record { value = run_doc r; revision = n }
  checked-honest run_id x r n h = go x.value refl
    where
      go : (d : Doc) → x.value ≡ d → x ≡ record { value = run_doc r; revision = n }
      go (run_doc q) e = ground (arith, e, h)
      go (lease_doc l) e = absurd (ground (arith, e, h))
      go blank e = absurd (ground (arith, e, h))

  find_run-IsHonest : (run_id : String) → IsHonest (find_run run_id)
  find_run-IsHonest run_id broken r n h = absurd (cc)
  find_run-IsHonest run_id refused r n h = absurd (cc)
  find_run-IsHonest run_id (done x) r n h = ap done (checked-honest run_id x r n h)

  own-honest :
      (x : Entry Doc) (r : Run) (n : ℕ)
      → with_revision x.revision (any_run x.value) ≡ ok (r, n)
      → x ≡ record { value = run_doc r; revision = n }
  own-honest x r n h = go x.value refl
    where
      go : (d : Doc) → x.value ≡ d → x ≡ record { value = run_doc r; revision = n }
      go (run_doc q) e = ground (arith, e, h)
      go (lease_doc l) e = absurd (ground (arith, e, h))
      go blank e = absurd (ground (arith, e, h))

  find_own-IsHonest : IsHonest find_own
  find_own-IsHonest broken r n h = absurd (cc)
  find_own-IsHonest refused r n h = absurd (cc)
  find_own-IsHonest (done x) r n h = ap done (own-honest x r n h)

  -- No update is lost: as long as nobody reuses a revision of a key for another value, the run that
  -- the controller's `mutate` returns is the change of the run as it stood right before the last
  -- write to the bucket, which stored it.
  pub mutate-Changed :
      (run_id : String) (change : Run → Run) (w : World b.State) (r : Run)
      → KeepsRevisions b others
      → (mutate run_id change w).0 ≡ ok r
      → Changed run_id change r (mutate run_id change w).1
  unfolding mutate
  mutate-Changed run_id change w r unique h = elim (Bool-cases (is_bad_id run_id)) [
    | inl bad ↦ absurd (ground (arith, bad, h))
    | inr fine ↦ rw fine (
        loop-Changed (find_run run_id) run_id change w r (find_run-IsHonest run_id) unique
          (rw fine at h))
  ]

  -- The same holds of the job's `mutate`.
  pub job_mutate-Changed :
      (run_id : String) (change : Run → Run) (w : World b.State) (r : Run)
      → KeepsRevisions b others
      → (job_mutate run_id change w).0 ≡ ok r
      → Changed run_id change r (job_mutate run_id change w).1
  unfolding job_mutate
  job_mutate-Changed run_id change w r unique h =
      loop-Changed find_own run_id change w r find_own-IsHonest unique h
