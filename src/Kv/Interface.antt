-- ===== src/Kv/Interface.antt =====
-- What the services rely on of a bucket, stated of its operations.
use microservices_demo_nats.Prelude.{ℕ, ◌≡◌, ◌⊎◌, Option, none, some, Eq, if◌then◌else◌}

pub record Entry (V : Type 0) : Type 0 where
  pub value : V
  pub revision : ℕ

-- `refused` is the answer that the caller expects: no such key for `get`, a wrong last sequence for
-- the writes. `broken` is any other exception, such as a timeout.
pub data Reply {ℓ} (A : Type ℓ) : Type ℓ where
  done : A → Reply A
  refused : Reply A
  broken : Reply A

-- A write to one key leaves the other keys as they were.
pub record Written {K V S : Type 0} ⦃e : Eq K⦄ (peek : S → K → Option (Entry V)) (k : K) (x : V)
    (s t : S) : Type 0 where
  pub revision : ℕ
  pub at :
      (j : K)
      → peek t j
        ≡ (if e.eqb k j then some (record { value = x; revision = revision }) else peek s j)

pub record Bucket (K V : Type 0) ⦃e : Eq K⦄ : Type 1 where
  pub State : Type 0
  pub peek : State → K → Option (Entry V)
  pub get : State → K → Reply (Entry V)
  pub create : State → K → V → Reply (Unit {0}) × State
  pub update : State → K → V → ℕ → Reply (Unit {0}) × State
  pub get_done : (s : State) (k : K) (x : Entry V) → get s k ≡ done x → peek s k ≡ some x
  pub get_refused : (s : State) (k : K) → get s k ≡ refused → peek s k ≡ none
  -- A write happens or does not, and one that is answered `done` has happened.
  pub create_lem :
      (s : State) (k : K) (x : V)
      → ((create s k x).1 ≡ s) ⊎ ((peek s k ≡ none) × Written peek k x s (create s k x).1)
  pub create_done :
      (s : State) (k : K) (x : V)
      → (create s k x).0 ≡ done tt
      → (peek s k ≡ none) × Written peek k x s (create s k x).1
  pub update_lem :
      (s : State) (k : K) (x : V) (r : ℕ)
      → ((update s k x r).1 ≡ s)
        ⊎ ((old : Entry V) × (peek s k ≡ some old)
            × (old.revision ≡ r)
            × Written peek k x s (update s k x r).1)
  pub update_done :
      (s : State) (k : K) (x : V) (r : ℕ)
      → (update s k x r).0 ≡ done tt
      → (old : Entry V) × (peek s k ≡ some old)
        × (old.revision ≡ r)
        × Written peek k x s (update s k x r).1

-- Nothing breaks, and a call is refused only for the reason that it stands for.
pub record IsHealthy {K V : Type 0} ⦃e : Eq K⦄ (b : Bucket K V) : Type 0 where
  pub get_present : (s : b.State) (k : K) (x : Entry V) → b.peek s k ≡ some x → b.get s k ≡ done x
  pub get_absent : (s : b.State) (k : K) → b.peek s k ≡ none → b.get s k ≡ refused
  pub create_absent :
      (s : b.State) (k : K) (x : V) → b.peek s k ≡ none → (b.create s k x).0 ≡ done tt
  pub update_current :
      (s : b.State) (k : K) (x : V) (old : Entry V)
      → b.peek s k ≡ some old
      → (b.update s k x old.revision).0 ≡ done tt

-- What a replica sees of the bucket, and how many calls it has made.
pub record World (S : Type 0) : Type 0 where
  pub state : S
  pub time : ℕ
