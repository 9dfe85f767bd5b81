-- ===== src/Catalog/Apply.antt =====
-- `apply_product`, `_reconcile_catalog_index` and `apply_snapshot`: compare-and-set loops on the
-- bucket. `_backoff` only sleeps, and what others do meanwhile is part of their next step.
use microservices_demo_nats.Prelude.{
  ℕ, List, String, Bool, false, [], ◌∷◌, ◌||◌, Option, none, some, ◌==◌, leb, str_eq, Result, ok,
  err, Round, finished, again, crashed, retry, if◌then◌else◌,
}
use microservices_demo_nats.Kv.{
  Entry, Reply, done, refused, broken, Bucket, World, get, create, update,
}
use microservices_demo_nats.Catalog.Records.{
  Key, key_has_eq, catalog_products, catalog, Stored, get_or, ProductRecord, SnapshotRecord,
  encode_product, encode_snapshot, encode_index, CatalogError, conflict, value_error, store_error,
  Outcome, created, duplicate, stale, updated, product_key,
}
use microservices_demo_nats.Catalog.Sets.{add, sorted_set, discard, non_empty, same_set}

-- What a write's answer means to the loop: `CatalogConflict` asks for another round.
abbrev pub after_write : {A : Type 0} → A → Reply (Unit {0}) → Round CatalogError A
after_write a (done _) = finished a
after_write a refused = again
after_write a broken = crashed store_error

-- `current.get("source_event_id") == record["source_event_id"]`
abbrev pub same_event : Stored → String → Bool
same_event current event = elim current.source_event_id [ none ↦ false | some id ↦ str_eq id event ]

abbrev pub version_of : Stored → ℕ
version_of current = get_or current.product_version 0

abbrev pub revision_of : Stored → ℕ
revision_of current = get_or current.catalog_revision 0

-- `if outcome is None: raise CatalogConflict`
abbrev pub or_conflict : {A : Type 0} → Result CatalogError (Option A) → Result CatalogError A
or_conflict (ok none) = err conflict
or_conflict (ok (some a)) = ok a
or_conflict (err e) = err e

-- The set of product IDs that the stored index holds.
unfoldable pub index_members : Stored → List String
index_members current = sorted_set (non_empty (get_or current.product_ids []))

-- The set that the index should hold.
unfoldable pub with_product : String → Bool → List String → List String
with_product product_id removed before =
    if removed then discard product_id before else add product_id before

module _ (b : Bucket Key Stored) (others : ℕ → b.State → b.State) where
  abbrev pub Catalog : Type 0
  Catalog = World b.State

  -- One attempt to write a versioned record, `is_stale` being the test on the stored version.
  unfoldable pub cas_answer :
      Key
      → Stored
      → String
      → (Stored → Bool)
      → Reply (Entry Stored)
      → Catalog
      → Round CatalogError Outcome × Catalog
  cas_answer key encoded event is_stale broken w = (crashed store_error, w)
  cas_answer key encoded event is_stale refused w =
      let (r, v) = create b others key encoded w in (after_write created r, v)
  cas_answer key encoded event is_stale (done current) w =
      if same_event current.value event
      then (finished duplicate, w)
      else if is_stale current.value
      then (finished stale, w)
      else let (r, v) = update b others key encoded current.revision w in (after_write updated r, v)

  unfoldable pub cas_round :
      Key → Stored → String → (Stored → Bool) → Catalog → Round CatalogError Outcome × Catalog
  unfolding cas_answer
  cas_round key encoded event is_stale w =
      let (found, v) = get b others key w in cas_answer key encoded event is_stale found v

  -- One attempt to make the index agree with a product.
  unfoldable pub index_answer :
      String → Bool → Reply (Entry Stored) → Catalog → Round CatalogError (Unit {0}) × Catalog
  index_answer product_id removed broken w = (crashed store_error, w)
  index_answer product_id removed refused w =
      let ids = if removed then [] else product_id ∷ [] in
      let (r, v) = create b others catalog_products (encode_index ids) w in (after_write tt r, v)
  index_answer product_id removed (done current) w =
      let before = index_members current.value in
      let ids = with_product product_id removed before in
      if same_set ids before
      then (finished tt, w)
      else let (r, v) = update b others catalog_products (encode_index ids) current.revision w in
        (after_write tt r, v)

  unfoldable pub index_round : String → Bool → Catalog → Round CatalogError (Unit {0}) × Catalog
  unfolding index_answer
  index_round product_id removed w =
      let (found, v) = get b others catalog_products w in index_answer product_id removed found v

  unfoldable pub reconcile_answer :
      Reply (Entry Stored) → ℕ → Catalog → Result CatalogError (Unit {0}) × Catalog
  reconcile_answer broken max_attempts w = (err store_error, w)
  reconcile_answer refused max_attempts w = (ok tt, w)
  reconcile_answer (done found) max_attempts w =
      let product_id = get_or found.value.product_id "" in
      let removed = get_or found.value.removed false in
      if str_eq product_id ""
      then (err value_error, w)
      else let (r, v) = retry (index_round product_id removed) max_attempts w in (or_conflict r, v)

  unfoldable pub reconcile_catalog_index :
      Key → ℕ → Catalog → Result CatalogError (Unit {0}) × Catalog
  unfolding reconcile_answer
  reconcile_catalog_index key max_attempts w =
      let (found, v) = get b others key w in reconcile_answer found max_attempts v

  unfoldable pub product_round :
      Key → ProductRecord → Catalog → Round CatalogError Outcome × Catalog
  product_round key record' =
      cas_round key (encode_product record') record'.source_event_id
        (λ current. leb record'.product_version (version_of current))

  -- What follows the loop: the index is reconciled, whatever the outcome was.
  unfoldable pub after_product :
      Key
      → ℕ
      → Result CatalogError (Option Outcome) × Catalog
      → Result CatalogError Outcome × Catalog
  after_product key max_attempts (err e, w) = (err e, w)
  after_product key max_attempts (ok none, w) = (err conflict, w)
  after_product key max_attempts (ok (some outcome), w) =
      let (r, v) = reconcile_catalog_index key max_attempts w in
      (elim r [ ok _ ↦ ok outcome | err e ↦ err e ], v)

  unfoldable pub apply_at :
      Result CatalogError Key → ProductRecord → ℕ → Catalog → Result CatalogError Outcome × Catalog
  unfolding after_product
  apply_at (err e) record' max_attempts w = (err e, w)
  apply_at (ok key) record' max_attempts w =
      if record'.product_version == 0 || str_eq record'.source_event_id ""
      then (err value_error, w)
      else after_product key max_attempts (retry (product_round key record') max_attempts w)

  unfoldable pub apply_product : ProductRecord → ℕ → Catalog → Result CatalogError Outcome × Catalog
  unfolding apply_at
  apply_product record' = apply_at (product_key record'.product_id) record'

  unfoldable pub snapshot_round : SnapshotRecord → Catalog → Round CatalogError Outcome × Catalog
  snapshot_round record' =
      cas_round catalog (encode_snapshot record') record'.source_event_id
        (λ current. leb record'.catalog_revision (revision_of current))

  unfoldable pub apply_snapshot :
      SnapshotRecord → ℕ → Catalog → Result CatalogError Outcome × Catalog
  apply_snapshot record' max_attempts w =
      if record'.catalog_revision == 0 || str_eq record'.source_event_id ""
      then (err value_error, w)
      else let (r, v) = retry (snapshot_round record') max_attempts w in (or_conflict r, v)
