-- ===== src/Catalog/Versions/Rounds.antt =====
-- One round of a compare-and-set loop lowers no level, and reports what it has made sure of.
use microservices_demo_nats.Prelude.{
  ℕ, ◌≤◌, String, ◌≡◌, refl, ap, ◌⊎◌, inl, inr, Bool, true, false, Option, none, some, sym, str_eq,
  str_eq_iff, arith, leb, finished, Bool-cases,
}
use microservices_demo_nats.Kv.{
  Entry, Reply, done, refused, broken, Bucket, World, get, KeepsRevisions,
}
use microservices_demo_nats.Catalog.Records.{Key, key_has_eq, Stored, Outcome, duplicate}
use microservices_demo_nats.Catalog.Apply.{cas_answer, cas_round, same_event}
use microservices_demo_nats.Catalog.Versions.Levels.{
  level, level_in, OthersGrow, get-grows, create-grows, update-grows, create-done, update-done,
}

-- What is stored was written for the event.
abbrev pub Holds : (b : Bucket Key Stored) → Key → String → World b.State → Type 0
Holds b key event w =
    (x : Entry Stored) × (b.peek w.state key ≡ some x) × (x.value.source_event_id ≡ some event)

-- What an outcome says of the record that was to be stored.
abbrev pub Settled :
    (Stored → ℕ) → ℕ → (b : Bucket Key Stored) → Key → String → Outcome → World b.State → Type 0
Settled m incoming b key event o w =
    ((o ≡ duplicate) × Holds b key event w) ⊎ (incoming ≤ level m b w.state key)

same_event_lem :
    (current : Stored) (event : String)
    → same_event current event ≡ true
    → current.source_event_id ≡ some event
same_event_lem current event h = go current.source_event_id h
  where
    go :
        (x : Option String)
        → (elim x [ none ↦ false | some id ↦ str_eq id event ]) ≡ true
        → x ≡ some event
    go none h = absurd (cc (h))
    go (some id) h = ap some ((str_eq_iff id event).0 h)

module _ (m : Stored → ℕ) (tracked : Key → Bool) (b : Bucket Key Stored)
    (others : ℕ → b.State → b.State) (grow : OthersGrow m tracked b others)
    (unique : KeepsRevisions b others) (key : Key) (encoded : Stored) (event : String) where
  abbrev test : Stored → Bool
  test current = leb (m encoded) (m current)

  Reads : Reply (Entry Stored) → World b.State → Type 0
  Reads found w = (x : Entry Stored) → found ≡ done x → b.peek w.state key ≡ some x

  answer-grows :
      (found : Reply (Entry Stored)) (w : World b.State) (j : Key)
      → Reads found w
      → tracked j ≡ true
      → level m b w.state j
        ≤ level m b (cas_answer b others key encoded event test found w).1.state j
  unfolding cas_answer Reads
  answer-grows broken w j reads h = omega arith
  answer-grows refused w j reads h = create-grows m tracked b others grow unique key encoded j w h
  answer-grows (done x) w j reads h = elim (Bool-cases (same_event x.value event)) [
    | inl e ↦ rw e (omega arith)
    | inr e ↦ rw e (elim (Bool-cases (test x.value)) [
      | inl f ↦ rw f (omega arith)
      | inr f ↦ rw f (
          update-grows m tracked b others grow unique key encoded x j w (reads x refl)
            (ground arith) h)
    ])
  ]

  -- `cas_round` lowers no tracked level.
  pub cas_round-grows :
      (w : World b.State) (j : Key)
      → tracked j ≡ true
      → level m b w.state j ≤ level m b (cas_round b others key encoded event test w).1.state j
  unfolding cas_round Reads get
  cas_round-grows w j h = omega (
    arith,
    get-grows m tracked b others grow unique key j w h,
    answer-grows (get b others key w).0 (get b others key w).1 j (λ x e. b.get_done _ key x e) h,
  )

  answer-Settled :
      (found : Reply (Entry Stored)) (w : World b.State) (o : Outcome)
      → Reads found w
      → (cas_answer b others key encoded event test found w).0 ≡ finished o
      → Settled m (m encoded) b key event o (cas_answer b others key encoded event test found w).1
  unfolding cas_answer Reads
  answer-Settled broken w o reads h = cc
  answer-Settled refused w o reads h =
      inr (ground (arith, create-done m tracked b others grow unique key encoded w))
  answer-Settled (done x) w o reads h = elim (Bool-cases (same_event x.value event)) [
    | inl e ↦
        let same : duplicate ≡ o = cc (rw e at h) in
        rw e (inl (sym same, (x, reads x refl, same_event_lem x.value event e)))
    | inr e ↦ rw e (
        inr (
          ground (
            arith,
            e,
            update-done m tracked b others grow unique key encoded x.revision w,
            ap (level_in m) (reads x refl),
          )))
  ]

  -- A round that ends has found the event already there, or the stored level is high enough.
  pub cas_round-Settled :
      (w : World b.State) (o : Outcome)
      → (cas_round b others key encoded event test w).0 ≡ finished o
      → Settled m (m encoded) b key event o (cas_round b others key encoded event test w).1
  unfolding cas_round Reads get
  cas_round-Settled w o h =
      answer-Settled (get b others key w).0 (get b others key w).1 o (λ x e. b.get_done _ key x e) h
