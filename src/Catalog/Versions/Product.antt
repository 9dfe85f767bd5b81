-- ===== src/Catalog/Versions/Product.antt =====
-- The versions of products under `apply_product`.
use microservices_demo_nats.Prelude.{
  ℕ, ◌≤◌, ◌≡◌, refl, ◌∙◌, ◌⊎◌, inl, inr, Bool, true, false, not, Option, none, some, arith, Result,
  ok, err, Bool-cases, retry, retry_keeps, retry_result, str_eq, ◌||◌, ◌==◌,
}
use microservices_demo_nats.Kv.{Bucket, World, KeepsRevisions}
use microservices_demo_nats.Catalog.Records.{
  Key, key_has_eq, key_eq, product, catalog_products, Stored, ProductRecord, encode_product,
  CatalogError, Outcome, duplicate, product_key, product_key-ok,
}
use microservices_demo_nats.Catalog.Apply.{
  version_of, product_round, after_product, apply_at, apply_product, reconcile_catalog_index,
}
use microservices_demo_nats.Catalog.Versions.Levels.{level, OthersGrow}
use microservices_demo_nats.Catalog.Versions.Rounds.{
  Holds, Settled, cas_round-grows, cas_round-Settled,
}
use microservices_demo_nats.Catalog.Versions.Index.{reconcile-grows}

-- Every key but the index.
abbrev pub is_record_key : Key → Bool
is_record_key key = not (key_eq catalog_products key)

untracked_index : (j : Key) → is_record_key j ≡ true → key_eq catalog_products j ≡ false
untracked_index j h = ground arith

module _ (b : Bucket Key Stored) (others : ℕ → b.State → b.State)
    (grow : OthersGrow version_of is_record_key b others) (unique : KeepsRevisions b others)
    (r : ProductRecord) where
  abbrev Above : World b.State → World b.State → Type 0
  Above w v =
      (j : Key)
      → is_record_key j ≡ true
      → level version_of b w.state j ≤ level version_of b v.state j

  round_keeps :
      (key : Key) (w v : World b.State) → Above w v → Above w (product_round b others key r v).1
  unfolding product_round
  round_keeps key w v h j t = omega (
    arith,
    h j t,
    cas_round-grows version_of is_record_key b others grow unique key (encode_product r)
        r.source_event_id v j t,
  )

  reconciled :
      (key : Key) (n : ℕ) (w v : World b.State)
      → Above w v
      → Above w (reconcile_catalog_index b others key n v).1
  reconciled key n w v h j t = omega (
    arith,
    h j t,
    reconcile-grows version_of is_record_key b others grow unique untracked_index key n v j t,
  )

  after_product-Above :
      (key : Key) (n : ℕ) (w v : World b.State) (o : Result CatalogError (Option Outcome))
      → Above w v
      → Above w (after_product b others key n (o, v)).1
  unfolding after_product
  after_product-Above key n w v (err e) h = h
  after_product-Above key n w v (ok none) h = h
  after_product-Above key n w v (ok (some o)) h = reconciled key n w v h

  loop : Key → ℕ → World b.State → Result CatalogError (Option Outcome) × World b.State
  loop key n w = retry (product_round b others key r) n w

  loop-Above : (key : Key) (n : ℕ) (w : World b.State) → Above w (loop key n w).1
  unfolding loop
  loop-Above key n w =
      retry_keeps (product_round b others key r) (Above w) (round_keeps key w) n w
        (λ j t. omega arith)

  apply_at-Above :
      (k : Result CatalogError Key) (n : ℕ) (w : World b.State)
      → Above w (apply_at b others k r n w).1
  unfolding apply_at loop
  apply_at-Above (err e) n w = λ j t. omega arith
  apply_at-Above (ok key) n w =
      elim (Bool-cases (r.product_version == 0 || str_eq r.source_event_id "")) [
        | inl e ↦ rw e (λ j t. omega arith)
        | inr e ↦
            rw e
              (after_product-Above key n w (loop key n w).1 (loop key n w).0 (loop-Above key n w))
      ]

  -- As long as the other replicas lower the version of no record and never reuse a revision of a
  -- key for another value, `apply_product`, whatever it returns or raises, leaves no record, the
  -- index aside, at a lower version than before.
  pub apply_product_grows :
      (n : ℕ) (w : World b.State) (j : Key)
      → is_record_key j ≡ true
      → level version_of b w.state j ≤ level version_of b (apply_product b others r n w).1.state j
  unfolding apply_product
  apply_product_grows n w = apply_at-Above (product_key r.product_id) n w

  loop-Settled :
      (key : Key) (n : ℕ) (w : World b.State) (o : Outcome)
      → (loop key n w).0 ≡ ok (some o)
      → Settled version_of r.product_version b key r.source_event_id o (loop key n w).1
  unfolding loop product_round
  loop-Settled key n w o h =
      retry_result (product_round b others key r) (λ _. Unit) (λ _ _. tt)
        (Settled version_of r.product_version b key r.source_event_id)
        (λ v a _ e.
          cas_round-Settled version_of is_record_key b others grow unique key (encode_product r)
            r.source_event_id v a e)
        n w o tt h

  -- When the index was begun to be reconciled, the record was written for the event.
  abbrev pub HadBeen : Key → ℕ → World b.State → Type 0
  HadBeen key n w =
      (v : World b.State) × ((reconcile_catalog_index b others key n v).1 ≡ w)
      × Holds b key r.source_event_id v

  abbrev pub HasApplied : Key → ℕ → Outcome → World b.State → Type 0
  HasApplied key n o w =
      ((o ≡ duplicate) × HadBeen key n w) ⊎ (r.product_version ≤ level version_of b w.state key)

  after_product-HasApplied :
      (key : Key) (n : ℕ) (v : World b.State) (l : Result CatalogError (Option Outcome))
      (o : Outcome)
      → is_record_key key ≡ true
      → ((p : Outcome)
          → l ≡ ok (some p)
          → Settled version_of r.product_version b key r.source_event_id p v)
      → (after_product b others key n (l, v)).0 ≡ ok o
      → HasApplied key n o (after_product b others key n (l, v)).1
  unfolding after_product
  after_product-HasApplied key n v (err e) o t h e' = cc
  after_product-HasApplied key n v (ok none) o t h e' = cc
  after_product-HasApplied key n v (ok (some p)) o t h e' = elim (h p refl) [
    | inl (same, held) ↦
        inl
          (as_answered (reconcile_catalog_index b others key n v).0 p o e' ∙ same, (v, refl, held))
    | inr above ↦ inr (omega (arith, above, reconciled key n v v (λ j u. omega arith) key t))
  ]
    where
      as_answered :
          (x : Result CatalogError (Unit {0})) (p o : Outcome)
          → ◌≡◌ {A = Result CatalogError Outcome} (elim x [ ok _ ↦ ok p | err e ↦ err e ]) (ok o)
          → o ≡ p
      as_answered (ok u) p o h = cc (h)
      as_answered (err e) p o h = absurd (cc (h))

  apply_ok-HasApplied :
      (key : Key) (n : ℕ) (w : World b.State) (o : Outcome)
      → is_record_key key ≡ true
      → (apply_at b others (ok key) r n w).0 ≡ ok o
      → HasApplied key n o (apply_at b others (ok key) r n w).1
  unfolding apply_at loop
  apply_ok-HasApplied key n w o t h =
      elim (Bool-cases (r.product_version == 0 || str_eq r.source_event_id "")) [
        | inl e ↦ absurd (ground arith)
        | inr e ↦ rw e (
            after_product-HasApplied key n (loop key n w).1 (loop key n w).0 o t
              (loop-Settled key n w) (rw e at h))
      ]

  apply_at-HasApplied :
      (k : Result CatalogError Key) (n : ℕ) (w : World b.State) (o : Outcome)
      → ((key : Key) → k ≡ ok key → key ≡ product r.product_id)
      → (apply_at b others k r n w).0 ≡ ok o
      → HasApplied (product r.product_id) n o (apply_at b others k r n w).1
  apply_at-HasApplied (err e) n w o same h = absurd (unfold apply_at in cc)
  apply_at-HasApplied (ok key) n w o same h =
      let e : key ≡ product r.product_id = same key refl in
      rw (← e) (apply_ok-HasApplied key n w o (rw e) h)

  -- As long as the other replicas lower the version of no record and never reuse a revision of a
  -- key for another value: when `apply_product` returns, the bucket holds the product at the given
  -- version or a later one, unless the record that was stored when the loop ended, before the index was
  -- reconciled, had been written for the same event.
  pub apply_product-Settled :
      (n : ℕ) (w : World b.State) (o : Outcome)
      → (apply_product b others r n w).0 ≡ ok o
      → ((o ≡ duplicate) × HadBeen (product r.product_id) n (apply_product b others r n w).1)
        ⊎ (r.product_version
            ≤ level version_of b (apply_product b others r n w).1.state (product r.product_id))
  unfolding apply_product
  apply_product-Settled n w o h =
      apply_at-HasApplied (product_key r.product_id) n w o (product_key-ok r.product_id) h
