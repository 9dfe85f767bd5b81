-- ===== src/Catalog/Versions/Levels.antt =====
-- The level of a key is the version, or the revision, of what is stored there, and 0 if nothing is.
use microservices_demo_nats.Prelude.{
  ℕ, ◌≤◌, ◌≡◌, refl, sym, inl, inr, Bool, true, Option, none, some, arith, if◌then◌else◌,
  Bool-cases,
}
use microservices_demo_nats.Kv.{
  Entry, done, Bucket, Written, World, get, create, update, KeepsRevisions,
}
use microservices_demo_nats.Catalog.Records.{Key, key_has_eq, key_eq, key_eq_iff, Stored}

abbrev pub level_in : (Stored → ℕ) → Option (Entry Stored) → ℕ
level_in m none = 0
level_in m (some x) = m x.value

abbrev pub level : (Stored → ℕ) → (b : Bucket Key Stored) → b.State → Key → ℕ
level m b s k = level_in m (b.peek s k)

-- Other replicas never lower the level of a tracked key.
abbrev pub OthersGrow :
    (Stored → ℕ) → (Key → Bool) → (b : Bucket Key Stored) → (ℕ → b.State → b.State) → Type 0
OthersGrow m tracked b others =
    (n : ℕ) (s : b.State) (k : Key) → tracked k ≡ true → level m b s k ≤ level m b (others n s) k

module _ (m : Stored → ℕ) (tracked : Key → Bool) (b : Bucket Key Stored)
    (others : ℕ → b.State → b.State) (grow : OthersGrow m tracked b others)
    (unique : KeepsRevisions b others) where
  pub level-Written :
      (s t : b.State) (k : Key) (x : Stored) (j : Key)
      → Written b.peek k x s t
      → level m b t j ≡ (if key_eq k j then m x else level m b s j)
  level-Written s t k x j h = rw (h.at j) (ground arith)

  pub get-grows :
      (k j : Key) (w : World b.State)
      → tracked j ≡ true
      → level m b w.state j ≤ level m b (get b others k w).1.state j
  unfolding get
  get-grows k j w h = grow w.time w.state j h

  -- A write whose level is not below what it replaces lowers nothing.
  level-le-Written :
      (s t : b.State) (k : Key) (x : Stored) (j : Key)
      → level m b s k ≤ m x
      → Written b.peek k x s t
      → level m b s j ≤ level m b t j
  level-le-Written s t k x j h w = rw (level-Written s t k x j w) (elim (Bool-cases (key_eq k j)) [
    | inl e ↦ rw e (rw ((key_eq_iff k j).0 e) at h)
    | inr e ↦ rw e (omega arith)
  ])

  create-level :
      (s : b.State) (k : Key) (x : Stored) (j : Key)
      → level m b s j ≤ level m b (b.create s k x).1 j
  create-level s k x j = elim (b.create_lem s k x) [
    | inl same ↦ rw same (omega arith)
    | inr (absent, h) ↦ level-le-Written s _ k x j (rw absent (omega arith)) h
  ]

  pub create-grows :
      (k : Key) (x : Stored) (j : Key) (w : World b.State)
      → tracked j ≡ true
      → level m b w.state j ≤ level m b (create b others k x w).1.state j
  unfolding create
  create-grows k x j w h =
      omega (arith, grow w.time w.state j h, create-level (others w.time w.state) k x j)

  update-level :
      (s : b.State) (k : Key) (x : Stored) (r : ℕ) (j : Key)
      → ((y : Entry Stored) → b.peek s k ≡ some y → y.revision ≡ r → m y.value ≤ m x)
      → level m b s j ≤ level m b (b.update s k x r).1 j
  update-level s k x r j old = elim (b.update_lem s k x r) [
    | inl same ↦ rw same (omega arith)
    | inr (y, present, current, h) ↦
        level-le-Written s _ k x j (rw present (old y present current)) h
  ]

  -- The entry that a successful compare-and-set replaces is the one that was read.
  pub update-grows :
      (k : Key) (x : Stored) (old : Entry Stored) (j : Key) (w : World b.State)
      → b.peek w.state k ≡ some old
      → m old.value ≤ m x
      → tracked j ≡ true
      → level m b w.state j ≤ level m b (update b others k x old.revision w).1.state j
  unfolding update
  update-grows k x old j w read newer h = omega (
    arith,
    grow w.time w.state j h,
    update-level (others w.time w.state) k x old.revision j (λ y present current.
        rw (← unique w.time w.state k old y read present (sym current)) newer),
  )

  pub create-done :
      (k : Key) (x : Stored) (w : World b.State)
      → (create b others k x w).0 ≡ done tt
      → level m b (create b others k x w).1.state k ≡ m x
  unfolding create
  create-done k x w h =
      rw (level-Written _ _ k x k (b.create_done _ k x h).1) (rw ((key_eq_iff k k).1 refl))

  pub update-done :
      (k : Key) (x : Stored) (r : ℕ) (w : World b.State)
      → (update b others k x r w).0 ≡ done tt
      → level m b (update b others k x r w).1.state k ≡ m x
  unfolding update
  update-done k x r w h =
      rw (level-Written _ _ k x k (b.update_done _ k x r h).3) (rw ((key_eq_iff k k).1 refl))
