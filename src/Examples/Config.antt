-- ===== src/Examples/Config.antt =====
-- Runs with a fixed configuration.
use microservices_demo_nats.Prelude.{
  ℕ, ◌≤◌, ◌<◌, String, ◌≡◌, ◌≢◌, refl, true, false, Option, none, some, arith, ok, str_eq, ◌||◌,
  if◌then◌else◌,
}
use microservices_demo_nats.Config.Values.{
  Python, Values, at, ◌>>=◌, boolean, number, integer, normalize_target_url, normalize_http_url,
  normalize_metrics_url,
}
use microservices_demo_nats.Config.Settings.{
  BenchmarkConfig, nats, grpc, closed, open_loop, worker_count, for_worker,
}
use microservices_demo_nats.Config.Request.{from_values, application, workload_of, metrics_address}
use microservices_demo_nats.Config.Bounds.{IsValid, from_values-IsValid}
use microservices_demo_nats.Config.Shares.{total, share_of, closed_users_shared, open_rate_shared}
use microservices_demo_nats.Config.Remainder.{small_share_refused}

abbrev pub crowd : BenchmarkConfig
crowd = record {
  application_type = grpc;
  target_url = "http://frontend:80";
  metrics_url = none;
  workload = closed;
  warmup_seconds = 30;
  duration_seconds = 120;
  drain_seconds = 60;
  users = 2500;
  spawn_rate = record { thousandths = 1000; over = 1 };
  arrival_rate = 1000;
  saturation_start_rate = 10_000;
  saturation_max_rate = 1_000_000;
  saturation_step_seconds = 30;
  outcome_timeout = 30_000;
  settlement_timeout = 60_000;
  resource_sample_interval = 5000;
  seed = 1;
  collect_resources = false;
  collect_nats_metrics = false;
}

-- 50.005 requests a second: one worker gets fifty, and the other 0.005.
abbrev stream : BenchmarkConfig
stream = record crowd { workload = open_loop; arrival_rate = 50_005 }

crowd-IsValid : IsValid 10 crowd
crowd-IsValid = omega arith

stream-IsValid : IsValid 10 stream
stream-IsValid = omega arith

closed_users_shared_example :
    (total (share_of (λ d. d.users) crowd) (worker_count crowd) ≡ crowd.users)
    × ((i : ℕ)
        → i < worker_count crowd
        → (1 ≤ share_of (λ d. d.users) crowd i) × (share_of (λ d. d.users) crowd i ≤ 1000))
closed_users_shared_example = closed_users_shared crowd crowd-IsValid refl

open_rate_shared_example :
    (total (share_of (λ d. d.arrival_rate) stream) (worker_count stream) ≡ stream.arrival_rate)
    × ((i : ℕ)
        → i < worker_count stream
        → (1 ≤ share_of (λ d. d.arrival_rate) stream i)
          × (share_of (λ d. d.arrival_rate) stream i ≤ 50_000))
open_rate_shared_example = open_rate_shared stream stream-IsValid refl

abbrev no_text : Option String
no_text = none

-- Values are numbers; texts are as they stand.
abbrev numeric : Python
numeric = record {
  Value = ℕ;
  truthy = λ n. true;
  as_bool = λ n. none;
  as_text = λ n. no_text;
  to_int = λ n. some (at n);
  to_float = λ n. some (at n);
  to_text = λ n. "http://frontend";
  strip = λ s. s;
  lower = λ s. s;
  upper = λ s. s;
  rstrip_slash = λ s. s;
  urlparse = λ s. record {
    scheme = "http";
    netloc = "frontend";
    username = "";
    password = "";
    query = "";
    fragment = "";
  };
}

abbrev first_share : BenchmarkConfig
first_share = record stream { arrival_rate = 50_000; seed = 1 }

abbrev last_share : BenchmarkConfig
last_share = record stream { arrival_rate = 5; seed = 2 }

first_is_first : for_worker stream 0 ≡ ok first_share
unfolding for_worker worker_count
first_is_first = refl

last_is_last : for_worker stream 1 ≡ ok last_share
unfolding for_worker worker_count
last_is_last = refl

two_workers : worker_count stream ≡ 2
unfolding worker_count
two_workers = refl

abbrev nothing_given : Values numeric
nothing_given name = none

small_share_refused_example : from_values numeric nothing_given "NATS" 1 ≢ ok last_share
unfolding worker_count
small_share_refused_example =
    small_share_refused numeric nothing_given "NATS" stream last_share stream-IsValid refl
      (omega arith) (omega arith) last_is_last

-- A request that gives only a target and a metrics URL.
abbrev urls_given : Values numeric
urls_given name = if str_eq name "target_url" || str_eq name "metrics_url" then some 100 else none

abbrev defaults : BenchmarkConfig
defaults = record {
  application_type = nats;
  target_url = "http://frontend";
  metrics_url = some "http://frontend";
  workload = closed;
  warmup_seconds = 30;
  duration_seconds = 120;
  drain_seconds = 60;
  users = 10;
  spawn_rate = record { thousandths = 1000; over = 1 };
  arrival_rate = 1000;
  saturation_start_rate = 10_000;
  saturation_max_rate = 1_000_000;
  saturation_step_seconds = 30;
  outcome_timeout = 30_000;
  settlement_timeout = 60_000;
  resource_sample_interval = 5000;
  seed = 1;
  collect_resources = true;
  collect_nats_metrics = true;
}

defaults_accepted : from_values numeric urls_given "NATS" 10 ≡ ok defaults
unfolding from_values application workload_of normalize_target_url normalize_http_url
    normalize_metrics_url metrics_address boolean number integer ◌>>=◌
defaults_accepted = refl

from_values-IsValid_example : IsValid 10 defaults
from_values-IsValid_example =
    from_values-IsValid numeric urls_given "NATS" 10 defaults defaults_accepted
