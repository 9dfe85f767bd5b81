-- ===== src/Catalog/Seeding.antt =====
-- `ensure_catalog_index` in a quiet, healthy bucket.
use microservices_demo_nats.Prelude.{
  String, ◌≡◌, refl, Bool, false, not, ◌&&◌, List, [], ◌∷◌, ◌++◌, Option, none, some, arith, elem,
  elem-append, str_eq, str_eq_iff, any, Result, ok,
}
use microservices_demo_nats.Kv.{
  still, create_quiet, Entry, Reply, done, Bucket, World, IsHealthy, get, arrive,
}
use microservices_demo_nats.Catalog.Records.{
  Key, key_has_eq, product, catalog_products, catalog, other, Stored, get_or, encode_index,
  CatalogError,
}
use microservices_demo_nats.Catalog.Sets.{sorted_set, elem-sorted_set}
use microservices_demo_nats.Catalog.Agreement.Index.{members, elem-index_members}
use microservices_demo_nats.Catalog.Snapshot.{
  Seeded, index_created, listed, collect, seed_collected, ensure_catalog_index,
}

-- A product is active if a record stored under a product key names it and is not removed.
abbrev pub is_active_in : Option (Entry Stored) → String → Bool
is_active_in none id = false
is_active_in (some x) id =
    not (str_eq id "")
    && str_eq (get_or x.value.product_id "") id
    && not (get_or x.value.removed false)

module _ (b : Bucket Key Stored) (healthy : IsHealthy b) where
  abbrev pub is_active : b.State → String → Key → Bool
  is_active s id (product k) = is_active_in (b.peek s (product k)) id
  is_active s id _ = false

  -- The loop returned, changed nothing, and its list holds the active products of `keys`.
  record Collected (s : b.State) (keys : List Key) (r : Result CatalogError (List String))
      (t : b.State) : Type 0 where
    ids : List String
    returned : r ≡ ok ids
    same : t ≡ s
    active : (id : String) → elem id ids ≡ any (is_active s id) keys

  elem-listed :
      (id : String) (x : Entry Stored) → elem id (listed x.value) ≡ is_active_in (some x) id
  elem-listed id x = ground (
    arith,
    str_eq_iff (get_or x.value.product_id "") "",
    str_eq_iff (get_or x.value.product_id "") id,
    str_eq_iff id "",
  )

  skipped :
      (key : Key) (keys : List Key) (s t : b.State) (r : Result CatalogError (List String))
      → ((id : String) → is_active s id key ≡ false)
      → Collected s keys r t
      → Collected s (key ∷ keys) r t
  skipped key keys s t r idle c = record {
    ids = c.ids;
    returned = c.returned;
    same = c.same;
    active = λ id. rw (idle id) (c.active id);
  }

  collect_quiet :
      (keys : List Key) (w : World b.State)
      → Collected w.state keys (collect b still keys w).0 (collect b still keys w).1.state
  unfolding collect get
  collect_quiet [] w = record { ids = []; returned = refl; same = refl; active = λ id. refl }
  collect_quiet (product k ∷ keys) w =
      go (b.peek w.state (product k)) refl (collect_quiet keys (arrive b still w))
    where
      go :
          (o : Option (Entry Stored))
          → b.peek w.state (product k) ≡ o
          → Collected w.state keys
              (collect b still keys (arrive b still w)).0
              (collect b still keys (arrive b still w)).1.state
          → Collected w.state
              (product k ∷ keys)
              (collect b still (product k ∷ keys) w).0
              (collect b still (product k ∷ keys) w).1.state
      go none h c =
          rw (healthy.get_absent w.state (product k) h)
            (skipped (product k) keys w.state _ _ (λ id. rw h) c)
      go (some x) h c = rw (healthy.get_present w.state (product k) x h) (record {
        ids = listed x.value ++ c.ids;
        returned = rw c.returned;
        same = c.same;
        active = λ id. rw h (rw elem-append (ground (arith, elem-listed id x, c.active id)));
      })
  collect_quiet (catalog_products ∷ keys) w =
      skipped catalog_products keys w.state _ _ (λ id. refl) (collect_quiet keys w)
  collect_quiet (catalog ∷ keys) w =
      skipped catalog keys w.state _ _ (λ id. refl) (collect_quiet keys w)
  collect_quiet (other k ∷ keys) w =
      skipped (other k) keys w.state _ _ (λ id. refl) (collect_quiet keys w)

  abbrev Lists : b.State → List Key → Result CatalogError Seeded × World b.State → Type 0
  Lists s keys (r, v) =
      (r ≡ ok index_created)
      × ((id : String)
          → str_eq id "" ≡ false
          → elem id (members b healthy v.state) ≡ any (is_active s id) keys)

  seeded_Lists :
      (keys : List Key) (s : b.State) (r : Result CatalogError (List String)) (v : World b.State)
      → b.peek s catalog_products ≡ none
      → Collected s keys r v.state
      → Lists s keys (seed_collected b still (r, v))
  unfolding seed_collected
  seeded_Lists keys s r v absent c = rw c.returned (
      let (answer, written) =
        create_quiet b healthy catalog_products (encode_index (sorted_set c.ids)) v
          (rw c.same absent) in
      (
        rw answer,
        λ id named.
            rw (written.at catalog_products)
              (rw elem-index_members (rw elem-sorted_set (ground (arith, c.active id)))),
      ))

  -- In a healthy bucket that no one else writes to, with no index and whose keys can be listed, the
  -- index is created, and it lists exactly the products with a nonempty ID that a record under one
  -- of the listed keys names and does not mark as removed.
  pub ensure_catalog_index_active :
      (keys : b.State → Reply (List Key)) (present : List Key) (w : World b.State)
      → keys w.state ≡ done present
      → b.peek w.state catalog_products ≡ none
      → let (r, v) = ensure_catalog_index b still keys w in
        (r ≡ ok index_created)
        × ((id : String)
            → str_eq id "" ≡ false
            → elem id (members b healthy v.state) ≡ any (is_active w.state id) present)
  unfolding ensure_catalog_index get
  ensure_catalog_index_active keys present w listing absent =
      let u = arrive b still (arrive b still w) in
      rw (healthy.get_absent w.state catalog_products absent) (
        rw listing (
          seeded_Lists present w.state (collect b still present u).0 (collect b still present u).1
            absent (collect_quiet present u)))
