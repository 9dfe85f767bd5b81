-- ===== src/Examples/Parallel.antt =====
-- Two workers' files, and an archive.
use microservices_demo_nats.Prelude.{
  ℕ, String, ◌≡◌, refl, arith, List, [], ◌∷◌, map, none, some, ok,
}
use microservices_demo_nats.Parallel.Records.{
  Record, write_records, read_records-write_records, timestamp_of,
}
use microservices_demo_nats.Parallel.Merge.{
  merge, merge_steps, least, rebase, Statuses, WorkerDirectory, RunDirectory, read_lanes,
  merge_worker_outputs, read_statuses, logs, copies,
}
use microservices_demo_nats.Parallel.Sorting.{EachSorted, nil, cons}
use microservices_demo_nats.Parallel.Outstanding.{EachCovered, settled, up, down}
use microservices_demo_nats.Parallel.Results.{Merged, merge_worker_outputs-Merged}
use microservices_demo_nats.Parallel.Archive.{
  Member, AllBelow, parts_of, split_path, is_unsafe, extract_all, check_members, extract_archive,
  extract_archive-AllBelow,
}
use microservices_demo_nats.Examples.Codec.{codec, codec-IsFaithful}

abbrev event_at : ℕ → String → Record
event_at t e = record { timestamp = some t; event = some e; outstanding = some 7; fields = "" }

abbrev first_events : List Record
first_events = event_at 10 "accepted" ∷ event_at 30 "completed" ∷ []

abbrev second_events : List Record
second_events = event_at 20 "accepted" ∷ event_at 25 "accepted" ∷ event_at 40 "failed" ∷ []

abbrev lanes : List (List Record)
lanes = first_events ∷ second_events ∷ []

merged_times : map timestamp_of (merge timestamp_of lanes) ≡ 10 ∷ 20 ∷ 25 ∷ 30 ∷ 40 ∷ []
unfolding merge merge_steps least
merged_times = refl

rebased_totals :
    map (λ (r : Record). r.outstanding) (rebase 0 (merge timestamp_of lanes))
    ≡ some 1 ∷ some 2 ∷ some 3 ∷ some 2 ∷ some 1 ∷ []
unfolding merge merge_steps least rebase
rebased_totals = refl

abbrev worker : List Record → WorkerDirectory
worker rs = record {
  business = some (write_records codec rs);
  outstanding = some (write_records codec rs);
  resources = none;
  saturation = some "";
  workflow_events = none;
  status = some "{}";
  log = none;
  statistics = ("_stats.csv", "") ∷ [];
}

abbrev statuses : Statuses (Unit {0})
statuses = record { load = λ text. some (some tt) }

abbrev workers : List WorkerDirectory
workers = worker first_events ∷ worker second_events ∷ []

abbrev run : RunDirectory (Unit {0})
run = record {
  business = write_records codec (merge timestamp_of lanes);
  outstanding = write_records codec (rebase 0 (merge timestamp_of lanes));
  resources = none;
  saturation = some "";
  workflow_events = none;
  workers = tt ∷ tt ∷ [];
  log = (0, none) ∷ (1, none) ∷ [];
  statistics = (0, "_stats.csv", "") ∷ (1, "_stats.csv", "") ∷ [];
}

lanes_read :
    read_lanes codec
      (some (write_records codec first_events) ∷ some (write_records codec second_events) ∷ [])
    ≡ ok lanes
unfolding read_lanes
lanes_read =
    rw (read_records-write_records codec codec-IsFaithful first_events)
      (rw (read_records-write_records codec codec-IsFaithful second_events) refl)

run_merged : merge_worker_outputs codec statuses workers ≡ ok run
unfolding merge_worker_outputs read_statuses logs copies
run_merged = rw lanes_read refl

in_order : EachSorted timestamp_of 0 lanes
in_order = (
  cons (omega arith) (cons (omega arith) nil),
  (cons (omega arith) (cons (omega arith) (cons (omega arith) nil)), tt),
)

covered : EachCovered lanes
covered = (up refl (down refl settled), (up refl (up refl (down refl settled)), tt))

merge_worker_outputs-Merged_example : Merged codec lanes lanes run.business run.outstanding
merge_worker_outputs-Merged_example =
    merge_worker_outputs-Merged codec codec-IsFaithful statuses lanes lanes in_order in_order
      covered workers run lanes_read lanes_read run_merged

abbrev member : String → Member
member name = record { filename = name; content = "" }

abbrev members : List Member
members = member "runner.log" ∷ member "a/./business.jsonl" ∷ []

accepted : extract_archive members ("runs" ∷ []) ≡ ok (extract_all ("runs" ∷ []) members)
unfolding extract_archive check_members is_unsafe parts_of split_path
accepted = refl

extract_archive-AllBelow_example : AllBelow ("runs" ∷ []) (extract_all ("runs" ∷ []) members)
extract_archive-AllBelow_example =
    extract_archive-AllBelow ("runs" ∷ []) refl members (extract_all ("runs" ∷ []) members) accepted
