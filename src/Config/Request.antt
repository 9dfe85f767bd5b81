-- ===== src/Config/Request.antt =====
-- `BenchmarkConfig._from_values`, `from_request`, `from_dict` and `from_worker_dict`.
use microservices_demo_nats.Prelude.{
  ℕ, String, Bool, true, false, not, ◌||◌, Option, none, some, ltb, str_eq, ok, err, if◌then◌else◌,
}
use microservices_demo_nats.Config.Values.{
  Python, Values, Checked, config_error, ◌>>=◌, integer, number, boolean, normalize_target_url,
  normalize_metrics_url,
}
use microservices_demo_nats.Config.Settings.{
  Application, grpc, nats, Workload, closed, open_loop, saturation, fault_tolerance,
  BenchmarkConfig,
}

unfoldable pub application : String → Checked Application
application s =
    if str_eq s "GRPC" then ok grpc else if str_eq s "NATS" then ok nats else err config_error

unfoldable pub workload_of : String → Checked Workload
workload_of s =
    if str_eq s "closed"
    then ok closed
    else if str_eq s "open"
    then ok open_loop
    else if str_eq s "saturation"
    then ok saturation
    else if str_eq s "fault_tolerance"
    then ok fault_tolerance
    else err config_error

abbrev pub is_nats : Application → Bool
is_nats nats = true
is_nats grpc = false

abbrev pub default_duration : Workload → ℕ
default_duration saturation = 600
default_duration _ = 120

abbrev pub require : Bool → Checked (Unit {0})
require true = ok tt
require false = err config_error

module _ (py : Python) where
  -- `str(values.get(name, default))`
  abbrev pub text : Option py.Value → String → String
  text none default = default
  text (some raw) default = py.to_text raw

  -- `str(values.get(name) or "")`
  abbrev pub text_or_empty : Option py.Value → String
  text_or_empty none = ""
  text_or_empty (some raw) = if py.truthy raw then py.to_text raw else ""

  abbrev nats_flag : Application → Values py → Checked Bool
  nats_flag grpc values = ok false
  nats_flag nats values = boolean py values "collect_nats_metrics" true

  -- `metrics_url`, of `raw_metrics_url`.
  unfoldable pub metrics_address : String → Checked (Option String)
  metrics_address raw =
      if str_eq (py.strip raw) ""
      then ok none
      else do url ← normalize_metrics_url py raw; ok (some url)

  abbrev given : Option String → Bool
  given none = false
  given (some _) = true

  unfoldable pub from_values : Values py → String → ℕ → Checked BenchmarkConfig
  from_values values application_type minimum_spawn_rate = do
    app ← application (py.upper (py.strip application_type))
    workload ← workload_of (py.lower (py.strip (text (values "workload") "closed")))
    target ← normalize_target_url py (text (values "target_url") "")
    resources ← boolean py values "collect_resources" true
    nats_metrics ← nats_flag app values
    metrics ← metrics_address (text_or_empty (values "metrics_url"))
    _ ← require (not (resources || nats_metrics) || given metrics)
    interval ← number py values "resource_sample_interval_seconds" 5_000 1_000 60_000
    start_rate ← number py values "saturation_start_rate" 10_000 10 10_000_000
    max_rate ← number py values "saturation_max_rate" 1_000_000 10 10_000_000
    _ ← require (not (ltb max_rate start_rate))
    warmup ← integer py values "warmup_seconds" 30 0 3600
    duration ← integer py values "duration_seconds" (default_duration workload) 1 3600
    drain ← integer py values "drain_seconds" 60 1 1800
    users ← integer py values "users" 10 1 10_000
    spawn ← number py values "spawn_rate" 1_000 minimum_spawn_rate 10_000_000
    arrival ← number py values "arrival_rate" 1_000 10 10_000_000
    step ← integer py values "saturation_step_seconds" 30 10 300
    outcome ← number py values "outcome_timeout_seconds" 30_000 1_000 1_800_000
    settlement ← number py values "settlement_timeout_seconds" 60_000 1_000 3_600_000
    seed ← integer py values "seed" 1 0 2_147_483_647
    ok (record {
      application_type = app;
      target_url = target;
      metrics_url = metrics;
      workload = workload;
      warmup_seconds = warmup;
      duration_seconds = duration;
      drain_seconds = drain;
      users = users;
      spawn_rate = record { thousandths = spawn; over = 1 };
      arrival_rate = arrival;
      saturation_start_rate = start_rate;
      saturation_max_rate = max_rate;
      saturation_step_seconds = step;
      outcome_timeout = outcome;
      settlement_timeout = settlement;
      resource_sample_interval = interval;
      seed = seed;
      collect_resources = resources;
      collect_nats_metrics = nats_metrics;
    })

  unfoldable pub from_request : Values py → String → Checked BenchmarkConfig
  from_request values application_type = from_values values application_type 10

  -- `values.setdefault("saturation_step_seconds", 10)`; `ten` is the Python number.
  unfoldable pub with_legacy_step : py.Value → Values py → Values py
  with_legacy_step ten values name = elim (values name) [
    | some raw ↦ some raw
    | none ↦ if str_eq name "saturation_step_seconds" then some ten else none
  ]

  unfoldable pub from_dict : py.Value → Values py → Checked BenchmarkConfig
  from_dict ten values =
      from_request (with_legacy_step ten values) (text (values "application_type") "")

  -- A worker's share of the spawn rate may be ten times smaller: a thousandth.
  unfoldable pub from_worker_dict : py.Value → Values py → Checked BenchmarkConfig
  from_worker_dict ten values =
      from_values (with_legacy_step ten values) (text (values "application_type") "") 1
