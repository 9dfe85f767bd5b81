-- ===== src/Catalog/Selection.antt =====
-- What `catalog_snapshot` and `catalog_candidates` answer.
use microservices_demo_nats.Prelude.{
  ℕ, ◌≤◌, ◌<◌, String, ◌≡◌, refl, sym, ap, true, false, List, [], ◌∷◌, some, arith, ◌==◌, ltb, elem,
  str_eq_iff, Result, ok, err, length, min, Bool-cases, inl, inr,
}
use microservices_demo_nats.Kv.{Entry, Reply, done, refused, broken, Bucket, World, get}
use microservices_demo_nats.Catalog.Records.{
  Key, key_has_eq, catalog_products, catalog, Stored, get_or, CatalogError,
}
use microservices_demo_nats.Catalog.Apply.{revision_of, index_members}
use microservices_demo_nats.Catalog.Agreement.Index.{members_in}
use microservices_demo_nats.Catalog.Snapshot.{
  Sample, available, select_candidates, index_read, snapshot_read, catalog_snapshot,
  catalog_candidates,
}

-- `random.sample` without replacement draws that many members of the population.
pub record IsSample (sample : Sample) : Type 0 where
  pub drawn :
      (seed : String × String × ℕ) (xs : List String) (k : ℕ) (x : String)
      → elem x (sample seed xs k) ≡ true
      → elem x xs ≡ true
  pub count :
      (seed : String × String × ℕ) (xs : List String) (k : ℕ)
      → k ≤ length xs
      → length (sample seed xs k) ≡ k

elem-available :
    (x : String) (excluded xs : List String)
    → elem x (available excluded xs) ≡ true
    → (elem x xs ≡ true) × (elem x excluded ≡ false)
unfolding available
elem-available x excluded [] h = cc
elem-available x excluded (y ∷ ys) h = ground (arith, elem-available x excluded ys, str_eq_iff y x)

module _ (sample : Sample) (law : IsSample sample) (ids excluded : List String) (revision : ℕ)
    (seed model : String) (limit : ℕ) where
  abbrev chosen : List String
  chosen = (select_candidates sample ids revision excluded seed model limit).0

  -- The candidates are products of the catalog that are not excluded.
  pub select_candidates_sound :
      (x : String) → elem x chosen ≡ true → (elem x ids ≡ true) × (elem x excluded ≡ false)
  unfolding select_candidates
  select_candidates_sound x h = elem-available x excluded ids (law.drawn _ _ _ x h)

  -- There are as many as asked for, or all that are left.
  pub length-select_candidates : length chosen ≡ min limit (length (available excluded ids))
  unfolding select_candidates
  length-select_candidates = law.count _ _ _ (omega arith)

-- The index that a snapshot was made from, and that it was whole.
abbrev pub Whole :
    (b : Bucket Key Stored) → Result CatalogError (List String × ℕ) → b.State → Type 0
Whole b (err e) t = Unit
Whole b (ok (ids, revision)) t = (ids ≡ members_in (b.peek t catalog_products)) × (0 < revision)

module _ (b : Bucket Key Stored) (others : ℕ → b.State → b.State) where
  index_read-Whole :
      (found : Reply (Entry Stored)) (count revision : ℕ) (w : World b.State)
      → 0 < revision
      → ((x : Entry Stored) → found ≡ done x → b.peek w.state catalog_products ≡ some x)
      → Whole b
          (index_read b others found count revision w).0
          (index_read b others found count revision w).1.state
  unfolding index_read
  index_read-Whole broken count revision w pos reads = tt
  index_read-Whole refused count revision w pos reads = tt
  index_read-Whole (done x) count revision w pos reads =
      elim (Bool-cases (ltb (length (index_members x.value)) count)) [
        | inl e ↦ rw e tt
        | inr e ↦ rw e (ap members_in (sym (reads x refl)), pos)
      ]

  snapshot_read-Whole :
      (found : Reply (Entry Stored)) (w : World b.State)
      → Whole b (snapshot_read b others found w).0 (snapshot_read b others found w).1.state
  unfolding snapshot_read get
  snapshot_read-Whole broken w = tt
  snapshot_read-Whole refused w = tt
  snapshot_read-Whole (done x) w = elim (Bool-cases (revision_of x.value == 0)) [
    | inl e ↦ rw e tt
    | inr e ↦ rw e (
        index_read-Whole (get b others catalog_products w).0 (get_or x.value.product_count 0)
          (revision_of x.value) (get b others catalog_products w).1 (ground arith)
          (λ y h. b.get_done _ catalog_products y h))
  ]

  catalog_snapshot-Whole :
      (w : World b.State)
      → Whole b (catalog_snapshot b others w).0 (catalog_snapshot b others w).1.state
  unfolding catalog_snapshot
  catalog_snapshot-Whole w =
      snapshot_read-Whole (get b others catalog w).0 (get b others catalog w).1

  -- Where the sampler draws as many members of its population as it is asked for, and whatever the
  -- other replicas do: if candidates are returned, each is a member of the index as it stands at
  -- the end of the last read, none is excluded, there are as many as the limit or all that are
  -- available, and the catalog revision is positive.
  pub catalog_candidates_sound :
      (sample : Sample) (excluded : List String) (seed model : String) (limit : ℕ)
      (w : World b.State) (chosen : List String) (revision : ℕ)
      → IsSample sample
      → (catalog_candidates b others sample excluded seed model limit w).0 ≡ ok (chosen, revision)
      → let t = (catalog_candidates b others sample excluded seed model limit w).1.state in
        let ids = members_in (b.peek t catalog_products) in
        ((x : String) → elem x chosen ≡ true → (elem x ids ≡ true) × (elem x excluded ≡ false))
        × (length chosen ≡ min limit (length (available excluded ids)))
        × (0 < revision)
  unfolding catalog_candidates
  catalog_candidates_sound sample excluded seed model limit w chosen revision law h =
      go (catalog_snapshot b others w).0 (catalog_snapshot-Whole w) h
    where
      ids : List String
      ids = members_in (b.peek (catalog_snapshot b others w).1.state catalog_products)

      go :
          (r : Result CatalogError (List String × ℕ))
          → Whole b r (catalog_snapshot b others w).1.state
          → (elim r [
            | ok s ↦ ok (select_candidates sample s.0 s.1 excluded seed model limit)
            | err e ↦ err e
          ])
            ≡ ok (chosen, revision)
          → ((x : String) → elem x chosen ≡ true → (elem x ids ≡ true) × (elem x excluded ≡ false))
            × (length chosen ≡ min limit (length (available excluded ids)))
            × (0 < revision)
      go (err e) whole same = cc
      go (ok (xs, n)) (from_index, pos) same =
          let answer : select_candidates sample xs n excluded seed model limit
              ≡ (chosen, revision) =
            cc in
          let picked : (select_candidates sample xs n excluded seed model limit).0 ≡ chosen =
            ap (λ (p : List String × ℕ). p.0) answer in
          let current : n ≡ revision =
            unfold select_candidates in ap (λ (p : List String × ℕ). p.1) answer in
          rw (← picked, ← from_index)
            (
              select_candidates_sound sample law xs excluded n seed model limit,
              length-select_candidates sample law xs excluded n seed model limit,
              rw (← current) pos,
            )
