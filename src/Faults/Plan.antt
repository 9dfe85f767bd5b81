-- ===== src/Faults/Plan.antt =====
-- `Kubectl`, `plan_from_args` and `config_from_args`.
use Prim.Native.String.{◌++◌ as then_text}
use microservices_demo_nats.Prelude.{
  ℕ, ◌+◌, String, Bool, true, false, not, ◌&&◌, List, [], ◌∷◌, ◌++◌, Option, none, some, ltb, leb,
  ◌==◌, str_eq, Result, ok, err, if◌then◌else◌,
}
use microservices_demo_nats.Config.Values.{Python, Values, Reading, negative, at, Checked}
use microservices_demo_nats.Config.Settings.{BenchmarkConfig}
use microservices_demo_nats.Config.Request.{from_request}
use microservices_demo_nats.Faults.Outside.{Fault}

-- ConfigError and RuntimeError.
pub data PlanError : Type 0 where
  bad_argument command_error : PlanError

abbrev pub Planned : Type 0 → Type 0
Planned A = Result PlanError A

-- Shut, so that proofs follow a `do` block step by step.
infixl 5 ◌>>=◌
unfoldable pub ◌>>=◌ : {A B : Type 0} → Planned A → (A → Planned B) → Planned B
ok a >>= f = f a
err e >>= f = err e

-- A `kubectl` executable with what a call of it prints, or nothing if the call fails; `int` is
-- Python's, and `is_yes` tests the stripped text in lower case.
pub record Kubectl : Type 0 where
  pub namespace : String
  pub context : Option String
  pub executable : String
  pub call : List String → Option String
  pub to_int : String → Option Reading
  pub is_yes : String → Bool

abbrev pub context_arguments : Option String → List String
context_arguments none = []
context_arguments (some c) = if str_eq c "" then [] else "--context" ∷ c ∷ []

unfoldable pub command : Kubectl → List String → List String
command k arguments =
    (k.executable ∷ context_arguments k.context) ++ ("--namespace" ∷ k.namespace ∷ arguments)

abbrev pub printed : Option String → Planned String
printed none = err command_error
printed (some s) = ok s

-- `_run`
unfoldable pub run_command : Kubectl → List String → Planned String
run_command k arguments = printed (k.call (command k arguments))

abbrev pub at_least_one : Option Reading → Planned ℕ
at_least_one none = err command_error
at_least_one (some negative) = err command_error
at_least_one (some (at n)) = if n == 0 then err command_error else ok n

unfoldable pub replicas : Kubectl → String → Planned ℕ
replicas k deployment = do
  raw ←
      run_command k
        ("get" ∷ "deployment" ∷ deployment ∷ "--output" ∷ "jsonpath={.spec.replicas}" ∷ [])
  at_least_one (k.to_int (if str_eq raw "" then "1" else raw))

abbrev pub checked : Bool → PlanError → Planned (Unit {0})
checked true e = ok tt
checked false e = err e

unfoldable pub ensure_scalable : Kubectl → String → Planned (Unit {0})
ensure_scalable k deployment = do
  allowed ← run_command k (
      "auth" ∷ "can-i" ∷ "update" ∷ then_text "deployment/" deployment ∷ "--subresource=scale" ∷ [])
  checked (k.is_yes allowed) command_error

-- The arguments of the command line that a plan is made of; the fraction is in thousandths.
pub record Arguments : Type 0 where
  pub startup_time : Reading
  pub disable_paymentservice_time : Reading
  pub between_disable_time : Reading
  pub disable_shippingservice_time : Reading
  pub recovery_time : Reading
  pub convergence_stable_seconds : Reading
  pub convergence_success_fraction : Reading
  pub convergence_pending_tolerance : Reading
  pub payment_deployment : String
  pub shipping_deployment : String

pub record FaultPlan : Type 0 where
  pub startup_time : ℕ
  pub disable_paymentservice_time : ℕ
  pub between_disable_time : ℕ
  pub disable_shippingservice_time : ℕ
  pub recovery_time : ℕ
  pub convergence_stable_seconds : ℕ
  pub convergence_success_fraction : ℕ
  pub convergence_pending_tolerance : ℕ
  pub payment : Fault
  pub shipping : Fault

unfoldable pub duration_seconds : FaultPlan → ℕ
duration_seconds p =
    p.startup_time + p.disable_paymentservice_time + p.between_disable_time
    + p.disable_shippingservice_time + p.recovery_time

abbrev pub faults : FaultPlan → List Fault
faults p = p.payment ∷ p.shipping ∷ []

abbrev pub positive : Reading → Planned ℕ
positive negative = err bad_argument
positive (at n) = if n == 0 then err bad_argument else ok n

abbrev pub not_negative : Reading → Planned ℕ
not_negative negative = err bad_argument
not_negative (at n) = ok n

abbrev pub fraction : Reading → Planned ℕ
fraction negative = err bad_argument
fraction (at n) = if ltb 0 n && leb n 1000 then ok n else err bad_argument

unfoldable pub plan_from_args : Kubectl → Arguments → Planned FaultPlan
plan_from_args k a = do
  startup ← positive a.startup_time
  payment_time ← positive a.disable_paymentservice_time
  between ← positive a.between_disable_time
  shipping_time ← positive a.disable_shippingservice_time
  recovery ← positive a.recovery_time
  stable ← positive a.convergence_stable_seconds
  _ ← checked (leb stable recovery) bad_argument
  success ← fraction a.convergence_success_fraction
  tolerance ← not_negative a.convergence_pending_tolerance
  _ ← checked (not (str_eq a.payment_deployment a.shipping_deployment)) bad_argument
  _ ← ensure_scalable k a.payment_deployment
  _ ← ensure_scalable k a.shipping_deployment
  payment_replicas ← replicas k a.payment_deployment
  shipping_replicas ← replicas k a.shipping_deployment
  ok (record {
    startup_time = startup;
    disable_paymentservice_time = payment_time;
    between_disable_time = between;
    disable_shippingservice_time = shipping_time;
    recovery_time = recovery;
    convergence_stable_seconds = stable;
    convergence_success_fraction = success;
    convergence_pending_tolerance = tolerance;
    payment = record {
      service = "paymentservice";
      deployment = a.payment_deployment;
      disable_at_seconds = startup;
      enable_at_seconds = startup + payment_time;
      original_replicas = payment_replicas;
    };
    shipping = record {
      service = "shippingservice";
      deployment = a.shipping_deployment;
      disable_at_seconds = startup + payment_time + between;
      enable_at_seconds = startup + payment_time + between + shipping_time;
      original_replicas = shipping_replicas;
    };
  })

-- Numbers, texts and truth values as Python's values.
pub record Literals (py : Python) : Type 0 where
  pub of_number : Reading → py.Value  -- in thousandths where it is a float
  pub of_text : String → py.Value
  pub of_bool : Bool → py.Value

pub record RunArguments : Type 0 where
  pub target_url : String
  pub metrics_url : String
  pub application_type : String
  pub arrival_rate : Reading
  pub drain_seconds : Reading
  pub outcome_timeout_seconds : Reading
  pub settlement_timeout_seconds : Reading
  pub seed : Reading

-- The dictionary that `config_from_args` builds.
unfoldable pub run_values : (py : Python) → Literals py → RunArguments → FaultPlan → Values py
run_values py l a p name =
    if str_eq name "target_url"
    then some (l.of_text a.target_url)
    else if str_eq name "metrics_url"
    then some (l.of_text a.metrics_url)
    else if str_eq name "workload"
    then some (l.of_text "fault_tolerance")
    else if str_eq name "warmup_seconds"
    then some (l.of_number (at 0))
    else if str_eq name "duration_seconds"
    then some (l.of_number (at (duration_seconds p)))
    else if str_eq name "drain_seconds"
    then some (l.of_number a.drain_seconds)
    else if str_eq name "arrival_rate"
    then some (l.of_number a.arrival_rate)
    else if str_eq name "outcome_timeout_seconds"
    then some (l.of_number a.outcome_timeout_seconds)
    else if str_eq name "settlement_timeout_seconds"
    then some (l.of_number a.settlement_timeout_seconds)
    else if str_eq name "resource_sample_interval_seconds"
    then some (l.of_number (at 1))
    else if str_eq name "seed"
    then some (l.of_number a.seed)
    else if str_eq name "collect_resources"
    then some (l.of_bool true)
    else if str_eq name "collect_nats_metrics"
    then some (l.of_bool (str_eq a.application_type "NATS"))
    else none

unfoldable pub config_from_args :
    (py : Python) → Literals py → RunArguments → FaultPlan → Checked BenchmarkConfig
config_from_args py l a p = from_request py (run_values py l a p) a.application_type
