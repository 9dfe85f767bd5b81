-- ===== src/Parallel/Results.antt =====
-- The files that a merge of the workers' results writes (src/benchmarkservice/parallel.py,
-- `merge_worker_outputs`).
use microservices_demo_nats.Prelude.{
  ◌≡◌, refl, ap, List, [], ◌∷◌, map, some, String, Result, ok, err,
}
use microservices_demo_nats.Parallel.Records.{
  Record, Json, MergeError, IsFaithful, read_records, write_records, read_records-write_records,
  timestamp_of,
}
use microservices_demo_nats.Parallel.Merge.{
  merge, rebase, read_lanes, Statuses, WorkerDirectory, RunDirectory, read_statuses, combined,
  merge_worker_outputs,
}
use microservices_demo_nats.Parallel.Interleaving.{Interleaves, merge-Interleaves}
use microservices_demo_nats.Parallel.Sorting.{EachSorted, SortedFrom, merge-SortedFrom}
use microservices_demo_nats.Parallel.Outstanding.{
  EachCovered, Balanced, merged-Balanced, rebase-SortedFrom,
}

-- What a merge has written, as it is read back.
pub record Merged (json : Json) (business outstanding : List (List Record)) (b o : List String)
    : Type 0 where
  pub records : List Record
  pub totals : List Record
  pub reads : read_records json (some b) ≡ ok records
  pub reads_totals : read_records json (some o) ≡ ok totals
  pub interleaves : Interleaves business records
  pub sorted : SortedFrom timestamp_of 0 records
  pub sorted_totals : SortedFrom timestamp_of 0 totals
  pub balanced : Balanced 0 0 totals

module _ (json : Json) (faithful : IsFaithful json) {Status : Type 0} (statuses : Statuses Status)
    (business outstanding : List (List Record)) (in_order : EachSorted timestamp_of 0 business)
    (totals_in_order : EachSorted timestamp_of 0 outstanding)
    (covered : EachCovered outstanding) where
  written-Merged :
      Merged json business outstanding
        (write_records json (merge timestamp_of business))
        (write_records json (rebase 0 (merge timestamp_of outstanding)))
  written-Merged = record {
    records = merge timestamp_of business;
    totals = rebase 0 (merge timestamp_of outstanding);
    reads = read_records-write_records json faithful _;
    reads_totals = read_records-write_records json faithful _;
    interleaves = merge-Interleaves timestamp_of business;
    sorted = merge-SortedFrom timestamp_of 0 business in_order;
    sorted_totals =
        rebase-SortedFrom 0 0 _ (merge-SortedFrom timestamp_of 0 outstanding totals_in_order);
    balanced = merged-Balanced outstanding covered;
  }

  abbrev files_of : Result MergeError (RunDirectory Status) → List String × List String
  files_of (ok run) = (run.business, run.outstanding)
  files_of (err e) = ([], [])

  combined-Merged :
      (found : List Status) (workers : List WorkerDirectory) (run : RunDirectory Status)
      → combined json statuses
          (merge timestamp_of business)
          (rebase 0 (merge timestamp_of outstanding))
          found
          workers
        ≡ ok run
      → Merged json business outstanding run.business run.outstanding
  combined-Merged found [] run h = absurd (cc)
  combined-Merged found (w ∷ ws) run h =
      rw (← ap (λ x. (files_of x).0) h) (rw (← ap (λ x. (files_of x).1) h) written-Merged)

  -- Where records are printed as lines that are read back as the same records, the workers' files
  -- could be read, each worker's records are sorted by time, and no worker completes an order that it
  -- did not accept before: the run's files that a merge writes are read back, the business records are
  -- an interleaving of the workers' records, both files are sorted by time, and each outstanding
  -- record's total is the number of acceptances in all workers up to it less that of the other events.
  pub merge_worker_outputs-Merged :
      (workers : List WorkerDirectory) (run : RunDirectory Status)
      → read_lanes json (map (λ (w : WorkerDirectory). w.business) workers) ≡ ok business
      → read_lanes json (map (λ (w : WorkerDirectory). w.outstanding) workers) ≡ ok outstanding
      → merge_worker_outputs json statuses workers ≡ ok run
      → Merged json business outstanding run.business run.outstanding
  unfolding merge_worker_outputs
  merge_worker_outputs-Merged workers run read_b read_o h =
      go (read_statuses json statuses workers) refl
    where
      go :
          (r : Result MergeError (List Status))
          → read_statuses json statuses workers ≡ r
          → Merged json business outstanding run.business run.outstanding
      go (ok found) e =
          combined-Merged found workers run (rw (merge_worker_outputs, read_b, read_o, e) at h)
      go (err x) e = absurd (cc (rw (merge_worker_outputs, read_b, read_o, e) at h))
