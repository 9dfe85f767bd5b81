-- ===== src/Config/Settings.antt =====
-- `BenchmarkConfig`: its fields, the derived counts, and `for_worker`.
use microservices_demo_nats.Prelude.{
  ℕ, ◌+◌, ◌-◌, ◌*◌, ◌/◌, ◌%◌, ◌^◌, min, max, String, Bool, ◌&&◌, Option, Result, ok, err, ltb, leb,
  ◌==◌, if◌then◌else◌,
}

pub data Application : Type 0 where
  grpc nats : Application

pub data Workload : Type 0 where
  closed open_loop saturation fault_tolerance : Workload

-- A spawn rate in thousandths, divided among so many workers.
pub record SpawnRate : Type 0 where
  pub thousandths : ℕ
  pub over : ℕ

-- Rates and times other than whole seconds are in thousandths.
pub record BenchmarkConfig : Type 0 where
  pub application_type : Application
  pub target_url : String
  pub metrics_url : Option String
  pub workload : Workload
  pub warmup_seconds : ℕ
  pub duration_seconds : ℕ
  pub drain_seconds : ℕ
  pub users : ℕ
  pub spawn_rate : SpawnRate
  pub arrival_rate : ℕ
  pub saturation_start_rate : ℕ
  pub saturation_max_rate : ℕ
  pub saturation_step_seconds : ℕ
  pub outcome_timeout : ℕ
  pub settlement_timeout : ℕ
  pub resource_sample_interval : ℕ
  pub seed : ℕ
  pub collect_resources : Bool
  pub collect_nats_metrics : Bool

abbrev pub max_open_rate : ℕ
max_open_rate = 50_000

abbrev pub max_closed_users : ℕ
max_closed_users = 1000

-- `math.ceil(a / b)`
abbrev pub ceil_div : ℕ → ℕ → ℕ
ceil_div a b = (a + (b - 1)) / b

unfoldable pub run_seconds : BenchmarkConfig → ℕ
run_seconds c = c.warmup_seconds + c.duration_seconds + c.drain_seconds

unfoldable pub saturation_step_count : BenchmarkConfig → ℕ
saturation_step_count c = ceil_div c.duration_seconds c.saturation_step_seconds

unfoldable pub saturation_effective_max_rate : BenchmarkConfig → ℕ
saturation_effective_max_rate c =
    min c.saturation_max_rate (c.saturation_start_rate + (saturation_step_count c - 1) * 10_000)

abbrev pub count_for : Workload → BenchmarkConfig → ℕ
count_for closed c = max 1 (ceil_div c.users max_closed_users)
count_for saturation c = max 1 (ceil_div (saturation_effective_max_rate c) max_open_rate)
count_for open_loop c = max 1 (ceil_div c.arrival_rate max_open_rate)
count_for fault_tolerance c = max 1 (ceil_div c.arrival_rate max_open_rate)

unfoldable pub worker_count : BenchmarkConfig → ℕ
worker_count c = count_for c.workload c

-- `common`: the seed is shifted, and only worker 0 samples the shared target.
abbrev pub for_any : BenchmarkConfig → ℕ → BenchmarkConfig
for_any c index = record c {
  seed = (c.seed + index) % 2 ^ 31;
  collect_resources = c.collect_resources && index == 0;
  collect_nats_metrics = c.collect_nats_metrics && index == 0;
}

abbrev pub open_share : BenchmarkConfig → ℕ → BenchmarkConfig
open_share c index = record (for_any c index) {
  arrival_rate = min max_open_rate (c.arrival_rate - index * max_open_rate);
}

abbrev pub closed_share : BenchmarkConfig → ℕ → ℕ → BenchmarkConfig
closed_share c workers index = record (for_any c index) {
  users = c.users / workers + (if ltb index (c.users % workers) then 1 else 0);
  spawn_rate = record c.spawn_rate { over = c.spawn_rate.over * workers };
}

abbrev pub share_for : Workload → BenchmarkConfig → ℕ → ℕ → BenchmarkConfig
share_for open_loop c workers index = open_share c index
share_for fault_tolerance c workers index = open_share c index
share_for saturation c workers index = for_any c index
share_for closed c workers index = closed_share c workers index

pub data IndexError : Type 0 where
  index_error : IndexError

-- An index is not negative here; the source raises the same error for one that is.
unfoldable pub for_worker : BenchmarkConfig → ℕ → Result IndexError BenchmarkConfig
for_worker c index =
    let workers = worker_count c in
    if leb workers index then err index_error else ok (share_for c.workload c workers index)
