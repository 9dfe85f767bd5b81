-- ===== src/Catalog/Versions/Index.antt =====
-- Writing the product index leaves every other key as it was.
use microservices_demo_nats.Prelude.{
  ℕ, List, ◌≤◌, String, ◌≡◌, inl, inr, Bool, true, false, arith, Bool-cases, retry_keeps, str_eq,
}
use microservices_demo_nats.Kv.{
  Entry, Reply, done, refused, broken, Bucket, Written, World, get, create, update, KeepsRevisions,
}
use microservices_demo_nats.Catalog.Records.{
  Key, key_has_eq, key_eq, catalog_products, Stored, get_or,
}
use microservices_demo_nats.Catalog.Apply.{
  index_members, with_product, index_answer, index_round, reconcile_answer, reconcile_catalog_index,
}
use microservices_demo_nats.Catalog.Sets.{same_set}
use microservices_demo_nats.Catalog.Versions.Levels.{level, OthersGrow, level-Written, get-grows}

module _ (m : Stored → ℕ) (tracked : Key → Bool) (b : Bucket Key Stored)
    (others : ℕ → b.State → b.State) (grow : OthersGrow m tracked b others)
    (unique : KeepsRevisions b others)
    (untracked : (j : Key) → tracked j ≡ true → key_eq catalog_products j ≡ false) where
  level_elsewhere :
      (s t : b.State) (x : Stored) (j : Key)
      → tracked j ≡ true
      → Written b.peek catalog_products x s t
      → level m b s j ≤ level m b t j
  level_elsewhere s t x j h w =
      rw (level-Written m tracked b others grow unique s t catalog_products x j w)
        (rw (untracked j h) (omega arith))

  create_elsewhere :
      (x : Stored) (j : Key) (w : World b.State)
      → tracked j ≡ true
      → level m b w.state j ≤ level m b (create b others catalog_products x w).1.state j
  unfolding create
  create_elsewhere x j w h =
      let s = others w.time w.state in
      elim (b.create_lem s catalog_products x) [
        | inl same ↦ rw same (grow w.time w.state j h)
        | inr (_, written) ↦
            omega (arith, grow w.time w.state j h, level_elsewhere s _ x j h written)
      ]

  update_elsewhere :
      (x : Stored) (r : ℕ) (j : Key) (w : World b.State)
      → tracked j ≡ true
      → level m b w.state j ≤ level m b (update b others catalog_products x r w).1.state j
  unfolding update
  update_elsewhere x r j w h =
      let s = others w.time w.state in
      elim (b.update_lem s catalog_products x r) [
        | inl same ↦ rw same (grow w.time w.state j h)
        | inr (_, _, _, written) ↦
            omega (arith, grow w.time w.state j h, level_elsewhere s _ x j h written)
      ]

  index_answer-grows :
      (id : String) (removed : Bool) (found : Reply (Entry Stored)) (w : World b.State) (j : Key)
      → tracked j ≡ true
      → level m b w.state j ≤ level m b (index_answer b others id removed found w).1.state j
  unfolding index_answer
  index_answer-grows id removed broken w j h = omega arith
  index_answer-grows id removed refused w j h = create_elsewhere _ j w h
  index_answer-grows id removed (done x) w j h = elim (Bool-cases (same_set ids before)) [
    | inl e ↦ rw e (omega arith)
    | inr e ↦ rw e (update_elsewhere _ x.revision j w h)
  ]
    where
      before : List String
      before = index_members x.value

      ids : List String
      ids = with_product id removed before

  index_round-grows :
      (id : String) (removed : Bool) (w : World b.State) (j : Key)
      → tracked j ≡ true
      → level m b w.state j ≤ level m b (index_round b others id removed w).1.state j
  unfolding index_round
  index_round-grows id removed w j h = omega (
    arith,
    get-grows m tracked b others grow unique catalog_products j w h,
    index_answer-grows id removed (get b others catalog_products w).0
        (get b others catalog_products w).1 j h,
  )

  reconcile_answer-grows :
      (found : Reply (Entry Stored)) (n : ℕ) (w : World b.State) (j : Key)
      → tracked j ≡ true
      → level m b w.state j ≤ level m b (reconcile_answer b others found n w).1.state j
  unfolding reconcile_answer
  reconcile_answer-grows broken n w j h = omega arith
  reconcile_answer-grows refused n w j h = omega arith
  reconcile_answer-grows (done x) n w j h = elim (Bool-cases (str_eq id "")) [
    | inl e ↦ rw e (omega arith)
    | inr e ↦ rw e (
        retry_keeps (index_round b others id removed)
          (λ v. level m b w.state j ≤ level m b v.state j)
          (λ v p. omega (arith, index_round-grows id removed v j h)) n w (omega arith))
  ]
    where
      id : String
      id = get_or x.value.product_id ""

      removed : Bool
      removed = get_or x.value.removed false

  -- Reconciling the index lowers no tracked level.
  pub reconcile-grows :
      (key : Key) (n : ℕ) (w : World b.State) (j : Key)
      → tracked j ≡ true
      → level m b w.state j ≤ level m b (reconcile_catalog_index b others key n w).1.state j
  unfolding reconcile_catalog_index
  reconcile-grows key n w j h = omega (
    arith,
    get-grows m tracked b others grow unique key j w h,
    reconcile_answer-grows (get b others key w).0 n (get b others key w).1 j h,
  )
