-- ===== src/Catalog/Agreement.antt =====
-- With a healthy bucket and no other replica at work, `apply_product` succeeds at once and leaves
-- the index in agreement with the stored product.
pub mod Index
use microservices_demo_nats.Prelude.{
  ℕ, suc, ◌<◌, String, ◌≡◌, refl, ap, ◌∙◌, inl, inr, Bool, false, not, Option, none, some, arith,
  Result, ok, Round, finished, Bool-cases, Option-cases, elem, str_eq, str_eq_iff, if◌then◌else◌,
  retry, retry-finished, leb, ◌||◌, ◌==◌,
}
use microservices_demo_nats.Kv.{
  still, create_quiet, update_quiet, Entry, done, refused, Bucket, Written, World, IsHealthy, get,
  create, update, arrive,
}
use microservices_demo_nats.Catalog.Records.{
  Key, key_has_eq, key_eq, key_eq_iff, product, catalog_products, Stored, get_or, encode_product,
  ProductRecord, Outcome, created, duplicate, stale, updated, CatalogError, product_key,
  product_key-named,
}
use microservices_demo_nats.Catalog.Apply.{
  same_event, version_of, cas_answer, cas_round, index_round, reconcile_answer,
  reconcile_catalog_index, product_round, after_product, apply_at, apply_product,
}
use Index.{members, members_in, Reconciled, index_round_quiet}

module _ (b : Bucket Key Stored) (healthy : IsHealthy b) (r : ProductRecord) where
  abbrev key : Key
  key = product r.product_id

  -- Records are stored under their own key.
  abbrev Own : Entry Stored → Type 0
  Own x = x.value.product_id ≡ some r.product_id

  -- A round ended with the product's own record in its place and the index untouched.
  record Placed (s : b.State) (o : Round CatalogError Outcome) (t : b.State) : Type 0 where
    outcome : Outcome
    entry : Entry Stored
    ended : o ≡ finished outcome
    present : b.peek t key ≡ some entry
    own : Own entry
    index : members b healthy t ≡ members b healthy s

  Placed-Rewritten :
      (s t : b.State) (o : Outcome)
      → Written b.peek key (encode_product r) s t
      → Placed s (finished o) t
  Placed-Rewritten s t o h = record {
    outcome = o;
    entry = record { value = encode_product r; revision = h.revision };
    ended = refl;
    present = rw (h.at key) (rw ((key_eq_iff key key).1 refl));
    own = refl;
    index = ap (members_in) (h.at catalog_products);
  }

  abbrev is_stale : Stored → Bool
  is_stale current = leb r.product_version (version_of current)

  refused_Placed :
      (w : World b.State)
      → b.peek w.state key ≡ none
      → let (o, v) =
          cas_answer b still key (encode_product r) r.source_event_id is_stale refused w in
        Placed w.state o v.state
  unfolding cas_answer
  refused_Placed w h =
      let (answer, written) = create_quiet b healthy key (encode_product r) w h in
      rw answer (Placed-Rewritten w.state _ created written)

  done_Placed :
      (w : World b.State) (x : Entry Stored)
      → b.peek w.state key ≡ some x
      → Own x
      → let (o, v) =
          cas_answer b still key (encode_product r) r.source_event_id is_stale (done x) w in
        Placed w.state o v.state
  unfolding cas_answer
  done_Placed w x h own = elim (Bool-cases (same_event x.value r.source_event_id)) [
    | inl e ↦ rw e (unchanged duplicate)
    | inr e ↦ rw e (elim (Bool-cases (is_stale x.value)) [
      | inl f ↦ rw f (unchanged stale)
      | inr f ↦ rw f (
          let (answer, written) = update_quiet b healthy key (encode_product r) x w h in
          rw answer (Placed-Rewritten w.state _ updated written))
    ])
  ]
    where
      unchanged : (o : Outcome) → Placed w.state (finished o) w.state
      unchanged o = record {
        outcome = o;
        entry = x;
        ended = refl;
        present = h;
        own = own;
        index = refl;
      }

  round_Placed :
      (w : World b.State)
      → ((x : Entry Stored) → b.peek w.state key ≡ some x → Own x)
      → Placed w.state (product_round b still key r w).0 (product_round b still key r w).1.state
  unfolding product_round cas_round get
  round_Placed w own = elim (Option-cases (b.peek w.state key)) [
    | inl h ↦ rw (healthy.get_absent w.state key h) (refused_Placed (arrive b still w) h)
    | inr (x, h) ↦
        rw (healthy.get_present w.state key x h) (done_Placed (arrive b still w) x h (own x h))
  ]

  -- The stored product after a call, and what the index says of every product.
  pub record Agrees (s : b.State) (o : Result CatalogError Outcome) (t : b.State) : Type 0 where
    pub outcome : Outcome
    pub entry : Entry Stored
    pub returned : o ≡ ok outcome
    pub present : b.peek t key ≡ some entry
    pub index :
        (j : String)
        → elem j (members b healthy t) ≡ (
            if str_eq r.product_id j
            then not (get_or entry.value.removed false)
            else elem j (members b healthy s))

  reconcile_quiet :
      (n : ℕ) (w : World b.State) (x : Entry Stored)
      → b.peek w.state key ≡ some x
      → Own x
      → str_eq r.product_id "" ≡ false
      → reconcile_catalog_index b still key (suc n) w ≡ (
        ok tt,
        (index_round b still r.product_id (get_or x.value.removed false) (arrive b still w)).1,
      )
  unfolding reconcile_catalog_index reconcile_answer get
  reconcile_quiet n w x h own named =
      let removed = get_or x.value.removed false in
      let round = index_round b still r.product_id removed in
      let done_at_once =
        retry-finished round n (arrive b still w) tt
          (index_round_quiet b healthy r.product_id removed (arrive b still w) named).ended in
      rw (healthy.get_present w.state key x h) (rw own (rw named (rw done_at_once refl)))

  after_Agrees :
      (n : ℕ) (s : b.State) (o : Outcome) (w : World b.State) (x : Entry Stored)
      → b.peek w.state key ≡ some x
      → Own x
      → members b healthy w.state ≡ members b healthy s
      → str_eq r.product_id "" ≡ false
      → Agrees s
          (after_product b still key (suc n) (ok (some o), w)).0
          (after_product b still key (suc n) (ok (some o), w)).1.state
  unfolding after_product reconcile_catalog_index get
  after_Agrees n s o w x h own same named = rw (reconcile_quiet n w x h own named) (record {
    outcome = o;
    entry = x;
    returned = refl;
    present = reconciled.rest key refl ∙ h;
    index = λ j. rw (reconciled.index j) (ground (arith, ap (elem j) same));
  })
    where
      reconciled :
          Reconciled b healthy r.product_id
            (get_or x.value.removed false)
            w.state
            (index_round b still r.product_id (get_or x.value.removed false) (arrive b still w)).0
            (index_round b still r.product_id
              (get_or x.value.removed false)
              (arrive b still w)).1.state
      reconciled =
          index_round_quiet b healthy r.product_id (get_or x.value.removed false) (arrive b still w)
            named

  -- In a healthy bucket that no one else writes to, where a record stored under the product's key
  -- has its ID, a record with a valid ID, a positive version and an event ID is applied with no
  -- error in one or more attempts: the product is stored under its key, the index lists it exactly
  -- when the stored record is not a removal, and the index says the same as before of every other
  -- product.
  pub apply_product-Agrees :
      (n : ℕ) (w : World b.State)
      → product_key r.product_id ≡ ok (product r.product_id)
      → 0 < r.product_version
      → str_eq r.source_event_id "" ≡ false
      → ((x : Entry Stored) → b.peek w.state key ≡ some x → Own x)
      → Agrees w.state
          (apply_product b still r (suc n) w).0
          (apply_product b still r (suc n) w).1.state
  unfolding apply_product apply_at
  apply_product-Agrees n w valid positive event own = rw valid (
      rw event (
        rw positive_test (
          rw done_at_once (
            after_Agrees n w.state placed.outcome (product_round b still key r w).1 placed.entry
              placed.present placed.own placed.index (product_key-named r.product_id valid)))))
    where
      placed :
          Placed w.state (product_round b still key r w).0 (product_round b still key r w).1.state
      placed = round_Placed w own

      done_at_once :
          retry (product_round b still key r) (suc n) w
          ≡ (ok (some placed.outcome), (product_round b still key r w).1)
      done_at_once = retry-finished (product_round b still key r) n w placed.outcome placed.ended

      positive_test : (r.product_version == 0 || false) ≡ false
      positive_test = ground arith
