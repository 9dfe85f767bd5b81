-- ===== src/Catalog/Versions/Snapshot.antt =====
-- The revision of the catalog snapshot under `apply_snapshot`.
use microservices_demo_nats.Prelude.{
  ℕ, ◌≤◌, ◌≡◌, refl, ◌⊎◌, Bool, some, arith, Result, ok, err, Option, none, Bool-cases, inl, inr,
  retry, retry_keeps, retry_result, str_eq, ◌||◌, ◌==◌,
}
use microservices_demo_nats.Kv.{Bucket, World, KeepsRevisions}
use microservices_demo_nats.Catalog.Records.{
  Key, key_has_eq, key_eq, catalog, Stored, SnapshotRecord, encode_snapshot, CatalogError, Outcome,
  duplicate,
}
use microservices_demo_nats.Catalog.Apply.{revision_of, snapshot_round, apply_snapshot, or_conflict}
use microservices_demo_nats.Catalog.Versions.Levels.{level, OthersGrow}
use microservices_demo_nats.Catalog.Versions.Rounds.{
  Holds, Settled, cas_round-grows, cas_round-Settled,
}

abbrev pub is_snapshot_key : Key → Bool
is_snapshot_key key = key_eq catalog key

or_conflict-ok :
    {A : Type 0} (r : Result CatalogError (Option A)) (a : A)
    → or_conflict r ≡ ok a
    → r ≡ ok (some a)
or_conflict-ok (ok none) a h = cc
or_conflict-ok (ok (some x)) a h = cc
or_conflict-ok (err e) a h = cc

module _ (b : Bucket Key Stored) (others : ℕ → b.State → b.State)
    (grow : OthersGrow revision_of is_snapshot_key b others) (unique : KeepsRevisions b others)
    (r : SnapshotRecord) where
  abbrev Above : World b.State → World b.State → Type 0
  Above w v = level revision_of b w.state catalog ≤ level revision_of b v.state catalog

  round_keeps : (w v : World b.State) → Above w v → Above w (snapshot_round b others r v).1
  unfolding snapshot_round
  round_keeps w v h = omega (
    arith,
    h,
    cas_round-grows revision_of is_snapshot_key b others grow unique catalog (encode_snapshot r)
        r.source_event_id v catalog refl,
  )

  loop-Settled :
      (n : ℕ) (w : World b.State) (o : Outcome)
      → (retry (snapshot_round b others r) n w).0 ≡ ok (some o)
      → Settled revision_of r.catalog_revision b catalog r.source_event_id o
          (retry (snapshot_round b others r) n w).1
  unfolding snapshot_round
  loop-Settled n w o h =
      retry_result (snapshot_round b others r) (λ _. Unit) (λ _ _. tt)
        (Settled revision_of r.catalog_revision b catalog r.source_event_id)
        (λ v a _ e.
          cas_round-Settled revision_of is_snapshot_key b others grow unique catalog
            (encode_snapshot r) r.source_event_id v a e)
        n w o tt h

  -- As long as the other replicas never lower the stored catalog revision and never reuse a
  -- revision of a key for another value, `apply_snapshot` never lowers it, whatever it returns or
  -- raises; and when it returns, the stored catalog revision is at least the given one, unless the
  -- snapshot that is stored was written for the same event.
  pub apply_snapshot_revision :
      (n : ℕ) (w : World b.State)
      → (level revision_of b w.state catalog
          ≤ level revision_of b (apply_snapshot b others r n w).1.state catalog)
        × ((o : Outcome)
            → (apply_snapshot b others r n w).0 ≡ ok o
            → ((o ≡ duplicate)
                × Holds b catalog r.source_event_id (apply_snapshot b others r n w).1)
              ⊎ (r.catalog_revision
                  ≤ level revision_of b (apply_snapshot b others r n w).1.state catalog))
  unfolding apply_snapshot
  apply_snapshot_revision n w =
      elim (Bool-cases (r.catalog_revision == 0 || str_eq r.source_event_id "")) [
        | inl e ↦ rw e (omega arith, λ o h. cc)
        | inr e ↦ rw e (
          retry_keeps (snapshot_round b others r) (Above w) (round_keeps w) n w (omega arith),
          λ o h. loop-Settled n w o (or_conflict-ok _ o h),
        )
      ]
