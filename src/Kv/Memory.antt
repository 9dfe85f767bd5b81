-- ===== src/Kv/Memory.antt =====
-- A bucket in memory that never breaks, for the examples: it shows that the assumptions can be met.
use microservices_demo_nats.Prelude.{
  ℕ, ◌+◌, ◌≡◌, refl, ap, ◌⊎◌, inl, inr, Option, none, some, Eq, arith, ◌==◌, Bool-cases,
  if◌then◌else◌,
}
use microservices_demo_nats.Kv.Interface.{Entry, Reply, done, refused, Bucket, Written, IsHealthy}

pub record MemoryState (K V : Type 0) : Type 0 where
  pub entry : K → Option (Entry V)
  pub last : ℕ

abbrev pub empty_state : {K V : Type 0} → MemoryState K V
empty_state = record { entry = λ _. none; last = 0 }

module _ {V : Type 0} where
  abbrev answer : Option (Entry V) → Reply (Entry V)
  answer none = refused
  answer (some x) = done x

  pub answer_done : (o : Option (Entry V)) (x : Entry V) → answer o ≡ done x → o ≡ some x
  answer_done o x h = ground arith

  pub answer_refused : (o : Option (Entry V)) → answer o ≡ refused → o ≡ none
  answer_refused o h = ground arith

module _ {K V : Type 0} ⦃e : Eq K⦄ where
  abbrev pub write : MemoryState K V → K → V → MemoryState K V
  write s k x = record {
    entry =
        λ j. if e.eqb k j then some (record { value = x; revision = s.last + 1 }) else s.entry j;
    last = s.last + 1;
  }

  abbrev create_on : Option (Entry V) → MemoryState K V → K → V → Reply (Unit {0}) × MemoryState K V
  create_on none s k x = (done tt, write s k x)
  create_on (some _) s k x = (refused, s)

  abbrev update_on :
      Option (Entry V) → MemoryState K V → K → V → ℕ → Reply (Unit {0}) × MemoryState K V
  update_on none s k x r = (refused, s)
  update_on (some old) s k x r = if old.revision == r then (done tt, write s k x) else (refused, s)

  pub written :
      (s : MemoryState K V) (k : K) (x : V)
      → Written (λ (t : MemoryState K V) j. t.entry j) k x s (write s k x)
  written s k x = record { revision = s.last + 1; at = λ j. refl }

  abbrev peek : MemoryState K V → K → Option (Entry V)
  peek s k = s.entry k

  pub create_on_lem :
      (s : MemoryState K V) (k : K) (x : V) (o : Option (Entry V))
      → s.entry k ≡ o
      → ((create_on o s k x).1 ≡ s)
        ⊎ ((s.entry k ≡ none) × Written peek k x s (create_on o s k x).1)
  create_on_lem s k x none h = inr (h, written s k x)
  create_on_lem s k x (some _) h = inl refl

  pub create_on_done :
      (s : MemoryState K V) (k : K) (x : V) (o : Option (Entry V))
      → s.entry k ≡ o
      → (create_on o s k x).0 ≡ done tt
      → (s.entry k ≡ none) × Written peek k x s (create_on o s k x).1
  create_on_done s k x none e h = (e, written s k x)
  create_on_done s k x (some _) e h = absurd (cc)

  pub update_on_lem :
      (s : MemoryState K V) (k : K) (x : V) (r : ℕ) (o : Option (Entry V))
      → s.entry k ≡ o
      → ((update_on o s k x r).1 ≡ s)
        ⊎ ((old : Entry V) × (s.entry k ≡ some old)
            × (old.revision ≡ r)
            × Written peek k x s (update_on o s k x r).1)
  update_on_lem s k x r none h = inl refl
  update_on_lem s k x r (some old) h = elim (Bool-cases (old.revision == r)) [
    | inl same ↦ rw same (inr (old, h, ground arith, written s k x))
    | inr other ↦ rw other (inl refl)
  ]

  pub update_on_done :
      (s : MemoryState K V) (k : K) (x : V) (r : ℕ) (o : Option (Entry V))
      → s.entry k ≡ o
      → (update_on o s k x r).0 ≡ done tt
      → (old : Entry V) × (s.entry k ≡ some old)
        × (old.revision ≡ r)
        × Written peek k x s (update_on o s k x r).1
  update_on_done s k x r none e h = absurd (cc)
  update_on_done s k x r (some old) e h = elim (Bool-cases (old.revision == r)) [
    | inl same ↦ rw same (old, e, ground arith, written s k x)
    | inr other ↦ absurd (ground arith)
  ]

  abbrev pub memory : Bucket K V
  memory = record {
    State = MemoryState K V;
    peek = peek;
    get = λ s k. answer (s.entry k);
    create = λ s k x. create_on (s.entry k) s k x;
    update = λ s k x r. update_on (s.entry k) s k x r;
    get_done = λ s k x. answer_done (s.entry k) x;
    get_refused = λ s k. answer_refused (s.entry k);
    create_lem = λ s k x. create_on_lem s k x (s.entry k) refl;
    create_done = λ s k x. create_on_done s k x (s.entry k) refl;
    update_lem = λ s k x r. update_on_lem s k x r (s.entry k) refl;
    update_done = λ s k x r. update_on_done s k x r (s.entry k) refl;
  }

  pub memory-IsHealthy : IsHealthy memory
  memory-IsHealthy = record {
    get_present = λ s k x h. ap answer h;
    get_absent = λ s k h. ap answer h;
    create_absent = λ s k x h. ap (λ o. (create_on o s k x).0) h;
    update_current = λ s k x old h. rw h (ground arith);
  }
