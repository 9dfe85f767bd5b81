-- ===== src/Examples/Catalog.antt =====
-- A catalog of one product in an in-memory bucket that nobody else uses.
use microservices_demo_nats.Prelude.{
  ℕ, ◌≤◌, ◌<◌, String, ◌≡◌, refl, ap, ◌⊎◌, Bool, true, false, List, [], ◌∷◌, some, arith, elem,
  str_eq, any, ok, retry, min, length,
}
use microservices_demo_nats.Kv.{
  still, Entry, Reply, done, Bucket, World, memory, memory-IsHealthy, empty_state, KeepsRevisions,
  get, create,
}
use microservices_demo_nats.Catalog.Records.{
  Key, key_has_eq, product, catalog, catalog_products, Stored, ProductRecord, SnapshotRecord,
  Outcome, created, duplicate, product_key,
}
use microservices_demo_nats.Catalog.Apply.{
  version_of, revision_of, apply_product, apply_snapshot, cas_round, product_round, snapshot_round,
  reconcile_catalog_index, index_round, index_members,
}
use microservices_demo_nats.Catalog.Sets.{sorted_set, non_empty}
use microservices_demo_nats.Catalog.Versions.Levels.{level, OthersGrow}
use microservices_demo_nats.Catalog.Versions.Product.{
  is_record_key, apply_product_grows, HadBeen, apply_product-Settled,
}
use microservices_demo_nats.Catalog.Versions.Rounds.{Holds}
use microservices_demo_nats.Catalog.Versions.Snapshot.{is_snapshot_key, apply_snapshot_revision}
use microservices_demo_nats.Catalog.Agreement.{Agrees, apply_product-Agrees}
use microservices_demo_nats.Catalog.Agreement.Index.{members, members_in}
use microservices_demo_nats.Catalog.Snapshot.{
  Sample, available, select_candidates, catalog_snapshot, catalog_candidates, ensure_catalog_index,
  index_created,
}
use microservices_demo_nats.Catalog.Selection.{IsSample, catalog_candidates_sound}
use microservices_demo_nats.Catalog.Seeding.{is_active, ensure_catalog_index_active}

abbrev shop : Bucket Key Stored
shop = memory

abbrev start : World shop.State
start = record { state = empty_state; time = 0 }

abbrev mug : ProductRecord
mug = record {
  product_id = "MUG";
  product_version = 3;
  catalog_revision = 1;
  removed = false;
  source_event_id = "e1";
  source_version = 1;
}

still_grows : (m : Stored → ℕ) (tracked : Key → Bool) → OthersGrow m tracked shop still
still_grows m tracked n s k t = omega arith

still_keeps : KeepsRevisions shop still
still_keeps n s k x y h g e = ap (λ (z : Entry Stored). z.value) same
  where
    same : x ≡ y
    same = cc

apply_product_grows_example :
    level version_of shop start.state (product "MUG")
    ≤ level version_of shop (apply_product shop still mug 3 start).1.state (product "MUG")
apply_product_grows_example =
    apply_product_grows shop still (still_grows version_of is_record_key) still_keeps mug 3 start
      (product "MUG") refl

first_is_created : (apply_product shop still mug 3 start).0 ≡ ok created
unfolding apply_product product_key retry product_round cas_round get create reconcile_catalog_index
    index_round
first_is_created = refl

apply_product-Settled_example :
    ((created ≡ duplicate)
      × HadBeen shop still
          (still_grows version_of is_record_key)
          still_keeps
          mug
          (product "MUG")
          3
          (apply_product shop still mug 3 start).1)
    ⊎ (3 ≤ level version_of shop (apply_product shop still mug 3 start).1.state (product "MUG"))
apply_product-Settled_example =
    apply_product-Settled shop still (still_grows version_of is_record_key) still_keeps mug 3 start
      created first_is_created

abbrev finished_sync : SnapshotRecord
finished_sync = record {
  catalog_revision = 5;
  product_count = 1;
  checksum = "c";
  source_event_id = "s1";
  source_version = 1;
}

apply_snapshot_revision_example :
    (level revision_of shop start.state catalog
      ≤ level revision_of shop (apply_snapshot shop still finished_sync 3 start).1.state catalog)
    × ((o : Outcome)
        → (apply_snapshot shop still finished_sync 3 start).0 ≡ ok o
        → ((o ≡ duplicate)
            × Holds shop catalog "s1" (apply_snapshot shop still finished_sync 3 start).1)
          ⊎ (5
              ≤ level revision_of shop
                  (apply_snapshot shop still finished_sync 3 start).1.state
                  catalog))
apply_snapshot_revision_example =
    apply_snapshot_revision shop still (still_grows revision_of is_snapshot_key) still_keeps
      finished_sync 3 start

nothing_stored :
    (x : Entry Stored)
    → shop.peek start.state (product "MUG") ≡ some x
    → x.value.product_id ≡ some "MUG"
nothing_stored x h = cc

mug_key : product_key "MUG" ≡ ok (product "MUG")
unfolding product_key
mug_key = refl

apply_product-Agrees_example :
    Agrees shop memory-IsHealthy mug start.state
      (apply_product shop still mug 3 start).0
      (apply_product shop still mug 3 start).1.state
apply_product-Agrees_example =
    apply_product-Agrees shop memory-IsHealthy mug 2 start mug_key (omega arith) refl nothing_stored

abbrev first_ones : Sample
first_ones seed [] k = []
first_ones seed (x ∷ xs) ℕ.zero = []
first_ones seed (x ∷ xs) (ℕ.suc k) = x ∷ first_ones seed xs k

first_ones-drawn :
    (seed : String × String × ℕ) (xs : List String) (k : ℕ) (x : String)
    → elem x (first_ones seed xs k) ≡ true
    → elem x xs ≡ true
first_ones-drawn seed (y ∷ ys) (ℕ.suc k) x h = ground (arith, first_ones-drawn seed ys k x)
first_ones-drawn seed [] k x h = cc
first_ones-drawn seed (y ∷ ys) ℕ.zero x h = cc

first_ones-count :
    (seed : String × String × ℕ) (xs : List String) (k : ℕ)
    → k ≤ length xs
    → length (first_ones seed xs k) ≡ k
first_ones-count seed [] k h = omega arith
first_ones-count seed (x ∷ xs) ℕ.zero h = refl
first_ones-count seed (x ∷ xs) (ℕ.suc k) h = ap ℕ.suc (first_ones-count seed xs k (omega arith))

first_ones-IsSample : IsSample first_ones
first_ones-IsSample = record { drawn = first_ones-drawn; count = first_ones-count }

abbrev stocked : World shop.State
stocked = (apply_snapshot shop still finished_sync 3 (apply_product shop still mug 3 start).1).1

abbrev mugs : List String
mugs = "MUG" ∷ []

mug_is_chosen :
    (catalog_candidates shop still first_ones [] "seed" "model" 5 stocked).0 ≡ ok (mugs, 5)
unfolding catalog_candidates select_candidates catalog_snapshot available apply_product
    apply_snapshot product_key retry product_round snapshot_round cas_round get create
    reconcile_catalog_index index_round index_members sorted_set non_empty
mug_is_chosen = refl

catalog_candidates_sound_example :
    let t = (catalog_candidates shop still first_ones [] "seed" "model" 5 stocked).1.state in
    let ids = members_in (shop.peek t catalog_products) in
    ((x : String) → elem x mugs ≡ true → (elem x ids ≡ true) × (elem x [] ≡ false))
    × (length mugs ≡ min 5 (length (available [] ids)))
    × (◌<◌ 0 5)
catalog_candidates_sound_example =
    catalog_candidates_sound shop still first_ones [] "seed" "model" 5 stocked mugs 5
      first_ones-IsSample mug_is_chosen

list_nothing : shop.State → Reply (List Key)
list_nothing s = done []

nothing_listed : list_nothing start.state ≡ done []
unfolding list_nothing
nothing_listed = refl

ensure_catalog_index_active_example :
    let (r, v) = ensure_catalog_index shop still list_nothing start in
    (r ≡ ok index_created)
    × ((id : String)
        → str_eq id "" ≡ false
        → elem id (members shop memory-IsHealthy v.state)
          ≡ any (is_active shop memory-IsHealthy start.state id) [])
ensure_catalog_index_active_example =
    ensure_catalog_index_active shop memory-IsHealthy list_nothing [] start nothing_listed refl
