-- ===== src/Runs/Records.antt =====
-- The keys and documents of the bucket of runs. Timestamps that are only shown are left out; the
-- lease's end and the clock are in one unit of time.
use microservices_demo_nats.Prelude.{
  ℕ, String, ◌≡◌, ◌↔◌, Bool, true, false, Option, none, some, arith, Eq, str_eq, str_eq_iff, Result,
  ok, err, Round, finished, again, crashed,
}
use microservices_demo_nats.Kv.{Reply, done, refused, broken}
use microservices_demo_nats.Config.Settings.{BenchmarkConfig}

-- `lease.active`, `run.<id>` and any other key.
pub data Key : Type 0 where
  lease_key : Key
  run_key : String → Key
  other : String → Key

abbrev pub key_eq : Key → Key → Bool
key_eq lease_key lease_key = true
key_eq (run_key i) (run_key j) = str_eq i j
key_eq (other i) (other j) = str_eq i j
key_eq _ _ = false

pub key_eq_iff : (a b : Key) → (key_eq a b ≡ true) ↔ (a ≡ b)
key_eq_iff (run_key i) (run_key j) = ground (arith, str_eq_iff i j)
key_eq_iff (other i) (other j) = ground (arith, str_eq_iff i j)
key_eq_iff _ _ = ground arith

instance abbrev pub key_has_eq : Eq Key
key_has_eq = record { eqb = key_eq; eqb_iff = key_eq_iff }

pub data RunState : Type 0 where
  submitted starting running stopping completed failed stopped interrupted unknown : RunState

-- `state in ACTIVE_STATES`
abbrev pub is_active : RunState → Bool
is_active submitted = true
is_active starting = true
is_active running = true
is_active stopping = true
is_active _ = false

pub record Lease : Type 0 where
  pub run_id : String
  pub owner : String
  pub lease_until : ℕ
  pub released : Bool

pub record Status : Type 0 where
  pub state : RunState
  pub job_name : Option String
  pub worker_count : Option ℕ
  pub lease_until : Option ℕ
  pub stop_requested : Bool
  pub ended : Bool
  pub exit_code : Option ℕ
  pub message : Option String

-- A run's document; of its summary and its artifacts only whether they are there.
pub record Run : Type 0 where
  pub run_id : String
  pub config : BenchmarkConfig
  pub status : Status
  pub has_summary : Bool
  pub has_artifacts : Bool

pub data Doc : Type 0 where
  lease_doc : Lease → Doc
  run_doc : Run → Doc
  blank : Doc

-- `value.get("run_id")`
abbrev pub run_id_of : Doc → Option String
run_id_of (lease_doc l) = some l.run_id
run_id_of (run_doc r) = some r.run_id
run_id_of blank = none

-- `float(existing.get("lease_until", 0))`: a run's document has none at its top level.
abbrev pub until_of : Doc → ℕ
until_of (lease_doc l) = l.lease_until
until_of (run_doc r) = 0
until_of blank = 0

abbrev pub is_released : Doc → Bool
is_released (lease_doc l) = l.released
is_released _ = false

-- RunConflict, RunNotFound, ConfigError, RecordNotFound of the store, and any other exception.
pub data RunsError : Type 0 where
  run_conflict run_not_found refused_config record_not_found store_failed jobs_failed : RunsError

abbrev pub has_id : String → Doc → Bool
has_id run_id d = elim (run_id_of d) [ none ↦ false | some i ↦ str_eq i run_id ]

-- `RevisionConflict` asks for another round.
abbrev pub after_write : {A : Type 0} → A → Reply (Unit {0}) → Round RunsError A
after_write a (done _) = finished a
after_write a refused = again
after_write a broken = crashed store_failed

abbrev pub or_conflict : {A : Type 0} → Result RunsError (Option A) → Result RunsError A
or_conflict (ok none) = err run_conflict
or_conflict (ok (some a)) = ok a
or_conflict (err e) = err e
