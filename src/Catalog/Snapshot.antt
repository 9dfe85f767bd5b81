-- ===== src/Catalog/Snapshot.antt =====
-- `ensure_catalog_index`, `catalog_snapshot`, `select_candidates` and `catalog_candidates`. The
-- bucket's listing of keys and the seeded `random.Random(...).sample` are parameters.
use microservices_demo_nats.Prelude.{
  ℕ, String, false, not, List, [], ◌∷◌, ◌++◌, ◌==◌, ltb, elem, str_eq, Result, ok, err,
  if◌then◌else◌, ◌&&◌, length, min,
}
use microservices_demo_nats.Kv.{Entry, Reply, done, refused, broken, Bucket, get, create, arrive}
use microservices_demo_nats.Catalog.Records.{
  Key, key_has_eq, product, catalog_products, catalog, other, Stored, get_or, encode_index,
  CatalogError, not_ready, store_error,
}
use microservices_demo_nats.Catalog.Apply.{Catalog, revision_of, index_members}
use microservices_demo_nats.Catalog.Sets.{sorted_set}

pub data Seeded : Type 0 where
  index_created index_existing : Seeded

-- The ID that a stored record contributes to a new index.
abbrev pub listed : Stored → List String
listed x =
    let product_id = get_or x.product_id "" in
    if not (str_eq product_id "") && not (get_or x.removed false) then product_id ∷ [] else []

-- `[p for p in product_ids if p not in excluded]`
unfoldable pub available : List String → List String → List String
available excluded [] = []
available excluded (x ∷ xs) =
    let rest = available excluded xs in if elem x excluded then rest else x ∷ rest

-- `sample seed population k` stands for `random.Random(seed).sample(population, k)`; the seed joins
-- the trigger's seed, the model revision and the catalog revision.
abbrev pub Sample : Type 0
Sample = String × String × ℕ → List String → ℕ → List String

unfoldable pub select_candidates :
    Sample → List String → ℕ → List String → String → String → ℕ → List String × ℕ
select_candidates sample product_ids catalog_revision excluded seed model_revision limit =
    let pool = available excluded product_ids in
    (
      sample (seed, model_revision, catalog_revision) pool (min limit (length pool)),
      catalog_revision,
    )

module _ (b : Bucket Key Stored) (others : ℕ → b.State → b.State) where
  unfoldable pub index_read :
      Reply (Entry Stored)
      → ℕ
      → ℕ
      → Catalog b others
      → Result CatalogError (List String × ℕ) × Catalog b others
  index_read broken count revision w = (err store_error, w)
  index_read refused count revision w = (err not_ready, w)
  index_read (done index) count revision w =
      let product_ids = index_members index.value in
      if ltb (length product_ids) count then (err not_ready, w) else (ok (product_ids, revision), w)

  unfoldable pub snapshot_read :
      Reply (Entry Stored)
      → Catalog b others
      → Result CatalogError (List String × ℕ) × Catalog b others
  snapshot_read broken w = (err store_error, w)
  snapshot_read refused w = (err not_ready, w)
  snapshot_read (done snapshot) w =
      if revision_of snapshot.value == 0
      then (err not_ready, w)
      else let (index, v) = get b others catalog_products w in
        index_read index (get_or snapshot.value.product_count 0) (revision_of snapshot.value) v

  unfoldable pub catalog_snapshot :
      Catalog b others → Result CatalogError (List String × ℕ) × Catalog b others
  unfolding index_read snapshot_read
  catalog_snapshot w = let (snapshot, v) = get b others catalog w in snapshot_read snapshot v

  unfoldable pub catalog_candidates :
      Sample
      → List String
      → String
      → String
      → ℕ
      → Catalog b others
      → Result CatalogError (List String × ℕ) × Catalog b others
  catalog_candidates sample excluded seed model_revision limit w =
      let (r, v) = catalog_snapshot w in
      (
        elim r [
          | ok s ↦ ok (select_candidates sample s.0 s.1 excluded seed model_revision limit)
          | err e ↦ err e
        ],
        v,
      )

  -- `for key in await store.keys()`: the IDs of the products that are there and not removed.
  abbrev collect_found :
      (Catalog b others → Result CatalogError (List String) × Catalog b others)
      → Reply (Entry Stored) × Catalog b others
      → Result CatalogError (List String) × Catalog b others
  collect_found more (broken, w) = (err store_error, w)
  collect_found more (refused, w) = more w
  collect_found more (done x, w) =
      let (r, v) = more w in (elim r [ ok ids ↦ ok (listed x.value ++ ids) | err e ↦ err e ], v)

  unfoldable pub collect :
      List Key → Catalog b others → Result CatalogError (List String) × Catalog b others
  collect [] w = (ok [], w)
  collect (product id ∷ keys) w = collect_found (collect keys) (get b others (product id) w)
  collect (catalog_products ∷ keys) w = collect keys w
  collect (catalog ∷ keys) w = collect keys w
  collect (other _ ∷ keys) w = collect keys w

  abbrev seeded : Reply (Unit {0}) → Result CatalogError Seeded
  seeded (done _) = ok index_created
  seeded refused = ok index_existing
  seeded broken = err store_error

  unfoldable pub seed_collected :
      Result CatalogError (List String) × Catalog b others
      → Result CatalogError Seeded × Catalog b others
  seed_collected (err e, w) = (err e, w)
  seed_collected (ok ids, w) =
      let (r, v) = create b others catalog_products (encode_index (sorted_set ids)) w in
      (seeded r, v)

  -- `keys` of an empty bucket raises `NoKeysError`, which the adapter answers by an empty list.
  seed_keys : Reply (List Key) → Catalog b others → Result CatalogError Seeded × Catalog b others
  seed_keys broken w = (err store_error, w)
  seed_keys refused w = seed_collected (collect [] w)
  seed_keys (done keys) w = seed_collected (collect keys w)

  seed_index :
      (b.State → Reply (List Key))
      → Reply (Entry Stored)
      → Catalog b others
      → Result CatalogError Seeded × Catalog b others
  seed_index keys broken w = (err store_error, w)
  seed_index keys (done _) w = (ok index_existing, w)
  seed_index keys refused w = let v = arrive b others w in seed_keys (keys v.state) v

  unfoldable pub ensure_catalog_index :
      (b.State → Reply (List Key))
      → Catalog b others
      → Result CatalogError Seeded × Catalog b others
  unfolding seed_index seed_keys seed_collected collect
  ensure_catalog_index keys w =
      let (index, v) = get b others catalog_products w in seed_index keys index v
