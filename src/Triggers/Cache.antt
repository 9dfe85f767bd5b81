-- ===== src/Triggers/Cache.antt =====
-- The catalog cache: `_CatalogCache` and `_apply_catalog_and_invalidate` of
-- src/recommendationservice/nats_events.py.
use microservices_demo_nats.Prelude.{
  ℕ, ◌-◌, ◌≤◌, String, ◌≡◌, refl, ap, ◌∙◌, true, List, Option, none, some, leb, if◌then◌else◌,
  arith, Result, ok, err,
}
use microservices_demo_nats.Kv.{Bucket, World}
use microservices_demo_nats.Catalog.Records.{Key, key_has_eq, Stored, CatalogError, Outcome}
use microservices_demo_nats.Catalog.Snapshot.{
  Sample, select_candidates, catalog_snapshot, catalog_candidates,
}
use microservices_demo_nats.Triggers.Decode.{Message}
use microservices_demo_nats.Triggers.CatalogEvents.{
  CatalogCodec, EventError, Applied, ignored, applied, apply_catalog,
}

-- `_value` and `_refreshed_at`
pub record CatalogCache : Type 0 where
  pub value : Option (List String × ℕ)
  pub refreshed_at : ℕ

pub record Service (S : Type 0) : Type 0 where
  pub cache : CatalogCache
  pub store : World S

abbrev pub invalidate : CatalogCache → CatalogCache
invalidate cache = record cache { refreshed_at = 0 }

-- The value, unless there is none or it is due for a refresh.
abbrev pub fresh_value : ℕ → ℕ → CatalogCache → Option (List String × ℕ)
fresh_value refresh_seconds now cache = elim cache.value [
  | none ↦ none
  | some v ↦ if leb refresh_seconds (now - cache.refreshed_at) then none else some v
]

-- The monotonic clock is a function of the number of steps of the store; `meanwhile` is what the other
-- handlers do until this one has the lock.
module _ (b : Bucket Key Stored) (others : ℕ → b.State → b.State) (sample : Sample) (clock : ℕ → ℕ)
    (refresh_seconds : ℕ) (meanwhile : Service b.State → Service b.State) where
  abbrev now_of : Service b.State → ℕ
  now_of s = clock s.store.time

  unfoldable pub refresh : Service b.State → Result CatalogError (List String × ℕ) × Service b.State
  refresh s =
      let (r, v) = catalog_snapshot b others s.store in
      elim r [
        | ok value ↦ (
          ok value,
          record { cache = record { value = some value; refreshed_at = clock v.time }; store = v },
        )
        | err e ↦ (err e, record s { store = v })
      ]

  -- The second look, under the lock.
  unfoldable pub locked : Service b.State → Result CatalogError (List String × ℕ) × Service b.State
  locked s = elim (fresh_value refresh_seconds (now_of s) s.cache) [
    | some value ↦ (ok value, s)
    | none ↦ refresh s
  ]

  unfoldable pub cached : Service b.State → Result CatalogError (List String × ℕ) × Service b.State
  cached s = elim (fresh_value refresh_seconds (now_of s) s.cache) [
    | some value ↦ (ok value, s)
    | none ↦ locked (meanwhile s)
  ]

  unfoldable pub candidates :
      List String
      → String
      → String
      → ℕ
      → Service b.State
      → Result CatalogError (List String × ℕ) × Service b.State
  candidates excluded seed model_revision limit s =
      let (r, t) = cached s in
      (
        elim r [
          | ok (ids, revision) ↦
              ok (select_candidates sample ids revision excluded seed model_revision limit)
          | err e ↦ err e
        ],
        t,
      )

module _ (b : Bucket Key Stored) (others : ℕ → b.State → b.State) (c : CatalogCodec) where
  abbrev pub after_event : Result EventError Applied → CatalogCache → CatalogCache
  after_event (err e) cache = cache
  after_event (ok ignored) cache = cache
  after_event (ok (applied outcome)) cache = invalidate cache

  unfoldable pub apply_catalog_and_invalidate :
      Message c.Bytes → Service b.State → Result EventError Applied × Service b.State
  apply_catalog_and_invalidate m s =
      let (r, v) = apply_catalog b others c m s.store in
      (r, record { cache = after_event r s.cache; store = v })

due :
    (refresh_seconds now : ℕ) (value : Option (List String × ℕ)) (at : ℕ)
    → at ≡ 0
    → refresh_seconds ≤ now
    → fresh_value refresh_seconds now (record { value = value; refreshed_at = at }) ≡ none
due refresh_seconds now none at e h = refl
due refresh_seconds now (some v) at e h =
    let over : leb refresh_seconds (now - at) ≡ true = ground (arith, h, e) in rw over refl

module _ (b : Bucket Key Stored) (others : ℕ → b.State → b.State) (c : CatalogCodec) where
  after_zeroes :
      (r : Result EventError Applied) (cache : CatalogCache) (outcome : Outcome)
      → r ≡ ok (applied outcome)
      → (after_event b others c r cache).refreshed_at ≡ 0
  after_zeroes (err e) cache outcome h = absurd (cc)
  after_zeroes (ok ignored) cache outcome h = absurd (cc)
  after_zeroes (ok (applied o)) cache outcome h = refl

  applied_zeroes :
      (m : Message c.Bytes) (s : Service b.State) (outcome : Outcome)
      → (apply_catalog_and_invalidate b others c m s).0 ≡ ok (applied outcome)
      → (apply_catalog_and_invalidate b others c m s).1.cache.refreshed_at ≡ 0
  unfolding apply_catalog_and_invalidate
  applied_zeroes m s outcome h =
      after_zeroes (apply_catalog b others c m s.store).0 s.cache outcome h

module _ (b : Bucket Key Stored) (others : ℕ → b.State → b.State) (sample : Sample) (clock : ℕ → ℕ)
    (refresh_seconds : ℕ) (meanwhile : Service b.State → Service b.State) where
  refresh_value :
      (s : Service b.State)
      → (refresh b others sample clock refresh_seconds meanwhile s).0
        ≡ (catalog_snapshot b others s.store).0
  unfolding refresh
  refresh_value s = go (catalog_snapshot b others s.store).0 refl
    where
      go :
          (r : Result CatalogError (List String × ℕ))
          → (catalog_snapshot b others s.store).0 ≡ r
          → (refresh b others sample clock refresh_seconds meanwhile s).0 ≡ r
      go (ok v) e = rw (refresh, e) refl
      go (err x) e = rw (refresh, e) refl

  cached_value :
      (s : Service b.State)
      → s.cache.refreshed_at ≡ 0
      → (meanwhile s).cache ≡ s.cache
      → refresh_seconds ≤ clock s.store.time
      → refresh_seconds ≤ clock (meanwhile s).store.time
      → (cached b others sample clock refresh_seconds meanwhile s).0
        ≡ (catalog_snapshot b others (meanwhile s).store).0
  unfolding cached locked
  cached_value s zeroed same old later =
      let due_now : fresh_value refresh_seconds (clock s.store.time) s.cache ≡ none =
        due refresh_seconds (clock s.store.time) s.cache.value _ zeroed old in
      let due_then : fresh_value refresh_seconds (clock (meanwhile s).store.time)
            (meanwhile s).cache
          ≡ none =
        due refresh_seconds (clock (meanwhile s).store.time) (meanwhile s).cache.value _
          (ap (λ (c : CatalogCache). c.refreshed_at) same ∙ zeroed) later in
      rw (cached, due_now, locked, due_then) (refresh_value (meanwhile s))

  candidates_of :
      (excluded : List String) (seed model : String) (limit : ℕ) (s : Service b.State)
      (w : World b.State)
      → (cached b others sample clock refresh_seconds meanwhile s).0
        ≡ (catalog_snapshot b others w).0
      → (candidates b others sample clock refresh_seconds meanwhile excluded seed model limit s).0
        ≡ (catalog_candidates b others sample excluded seed model limit w).0
  unfolding candidates catalog_candidates
  candidates_of excluded seed model limit s w h = rw (candidates, h, catalog_candidates) refl

  -- After a catalog event was applied (not ignored), where the clock shows no less than the refresh
  -- interval and no other handler refreshes the cache first: whatever the replicas do to the bucket,
  -- the next candidates, or the exception, are those that the catalog itself gives when it is read.
  pub invalidated_candidates :
      (c : CatalogCodec) (m : Message c.Bytes) (s : Service b.State) (outcome : Outcome)
      (excluded : List String) (seed model : String) (limit : ℕ)
      → (apply_catalog_and_invalidate b others c m s).0 ≡ ok (applied outcome)
      → let t = (apply_catalog_and_invalidate b others c m s).1 in
        (meanwhile t).cache ≡ t.cache
        → refresh_seconds ≤ clock t.store.time
        → refresh_seconds ≤ clock (meanwhile t).store.time
        → (candidates b others sample clock refresh_seconds meanwhile excluded seed model limit t).0
          ≡ (catalog_candidates b others sample excluded seed model limit (meanwhile t).store).0
  invalidated_candidates c m s outcome excluded seed model limit h same old later =
      candidates_of excluded seed model limit _ _
        (cached_value _ (applied_zeroes b others c m s outcome h) same old later)
