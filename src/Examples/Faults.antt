-- ===== src/Examples/Faults.antt =====
-- A fault-tolerance run of two services, in a cluster whose commands all work.
use microservices_demo_nats.Prelude.{
  ℕ, ◌+◌, String, ◌≡◌, ◌≢◌, refl, Bool, true, ◌||◌, List, [], ◌∷◌, none, some, arith, ap, leb,
  str_eq, Result, ok, err, if◌then◌else◌, str_eq_iff,
}
use microservices_demo_nats.Config.Values.{at}
use microservices_demo_nats.Faults.Outside.{Fault, Outside, Advances, IsCluster}
use microservices_demo_nats.Faults.Controller.{
  RunError, interrupted, not_restored, journal_failed, wait_from, wait_until, inject, inject_all,
  restore_all, run_faults, mark, unmark, reversed_onto, ◌>>=◌,
}
use microservices_demo_nats.Faults.Waiting.{HasWaited, wait_until-HasWaited}
use microservices_demo_nats.Faults.Restore.{run_faults_restores}
use microservices_demo_nats.Faults.Plan.{
  Kubectl, Arguments, FaultPlan, plan_from_args, faults, ensure_scalable, replicas, run_command,
  command,
}
use microservices_demo_nats.Faults.Plan
use microservices_demo_nats.Faults.Schedule.{IsOrdered, plan_from_args-IsOrdered}

-- The time, the replicas of the payment service and those of the shipping service.
record Cluster : Type 0 where
  time : ℕ
  payment : ℕ
  shipping : ℕ
  stop_at : ℕ

abbrev count_of : Cluster → String → ℕ
count_of c dep = if str_eq "pay" dep then c.payment else if str_eq "ship" dep then c.shipping else 1

abbrev set_count : String → ℕ → Cluster → Cluster
set_count dep n c =
    if str_eq "pay" dep
    then record c { payment = n }
    else if str_eq "ship" dep
    then record c { shipping = n }
    else c

abbrev known_name : String → Bool
known_name dep = str_eq "pay" dep || str_eq "ship" dep

-- The stop is requested after `stop_at`.
abbrev cluster : Outside
cluster = record {
  State = Cluster;
  now = λ c. c.time;
  pause = λ d c. (leb c.stop_at c.time, record c { time = c.time + d });
  prepare = λ c. (true, c);
  note = λ f a c. (true, c);
  scale = λ dep n c. (known_name dep, set_count dep n c);
}

cluster-Advances : Advances cluster
cluster-Advances d s h = omega arith

cluster-IsCluster : IsCluster cluster count_of
cluster-IsCluster = record {
  at_pause = λ d s dep. refl;
  at_prepare = λ s dep. refl;
  at_note = λ f a s dep. refl;
  at_other = λ d dep n s h. ground (
    arith,
    str_eq_iff "pay" d,
    str_eq_iff "ship" d,
    str_eq_iff "pay" dep,
    str_eq_iff "ship" dep,
    str_eq_iff d dep,
    h,
  );
  at_scaled = λ d n s h. ground (arith, str_eq_iff "pay" d, str_eq_iff "ship" d, h);
}

abbrev start : Cluster
start = record { time = 0; payment = 2; shipping = 2; stop_at = 45_000 }

abbrev last : List String → String
last [] = ""
last (w ∷ []) = w
last (v ∷ w ∷ ws) = last (w ∷ ws)

abbrev kubectl : Kubectl
kubectl = record {
  namespace = "default";
  context = none;
  executable = "kubectl";
  call = λ words. some (last words);
  to_int = λ s. if str_eq s "jsonpath={.spec.replicas}" then some (at 2) else none;
  is_yes = λ s. str_eq s "--subresource=scale";
}

abbrev arguments : Arguments
arguments = record {
  startup_time = at 30;
  disable_paymentservice_time = at 30;
  between_disable_time = at 30;
  disable_shippingservice_time = at 30;
  recovery_time = at 60;
  convergence_stable_seconds = at 3;
  convergence_success_fraction = at 900;
  convergence_pending_tolerance = at 0;
  payment_deployment = "pay";
  shipping_deployment = "ship";
}

abbrev payment_fault : Fault
payment_fault = record {
  service = "paymentservice";
  deployment = "pay";
  disable_at_seconds = 30;
  enable_at_seconds = 60;
  original_replicas = 2;
}

abbrev shipping_fault : Fault
shipping_fault = record {
  service = "shippingservice";
  deployment = "ship";
  disable_at_seconds = 90;
  enable_at_seconds = 120;
  original_replicas = 2;
}

abbrev plan : FaultPlan
plan = record {
  startup_time = 30;
  disable_paymentservice_time = 30;
  between_disable_time = 30;
  disable_shippingservice_time = 30;
  recovery_time = 60;
  convergence_stable_seconds = 3;
  convergence_success_fraction = 900;
  convergence_pending_tolerance = 0;
  payment = payment_fault;
  shipping = shipping_fault;
}

accepted : plan_from_args kubectl arguments ≡ ok plan
unfolding plan_from_args ensure_scalable replicas run_command command Plan.◌>>=◌
accepted = refl

plan_from_args-IsOrdered_example : IsOrdered plan
plan_from_args-IsOrdered_example = plan_from_args-IsOrdered kubectl arguments plan accepted

wait_until-HasWaited_example : HasWaited cluster 2000 (wait_until cluster 2000 start)
wait_until-HasWaited_example = wait_until-HasWaited cluster 2000 start cluster-Advances

-- The run is stopped while the payment service is down.
abbrev stopped : Result RunError (Unit {0}) × Cluster
stopped = (err interrupted, record start { time = 45_500 })

run_is_stopped : run_faults cluster 0 180 (payment_fault ∷ []) start ≡ stopped
unfolding run_faults inject_all inject restore_all wait_until wait_from mark unmark reversed_onto
    ◌>>=◌
run_is_stopped = refl

not_given_up : (run_faults cluster 0 180 (payment_fault ∷ []) start).0 ≢ err not_restored
not_given_up h = cc (ap (λ (r : Result RunError (Unit {0}) × Cluster). r.0) run_is_stopped)

not_unwritten : (run_faults cluster 0 180 (payment_fault ∷ []) start).0 ≢ err journal_failed
not_unwritten h = cc (ap (λ (r : Result RunError (Unit {0}) × Cluster). r.0) run_is_stopped)

run_faults_restores_example :
    count_of (run_faults cluster 0 180 (payment_fault ∷ []) start).1 "pay" ≡ 2
run_faults_restores_example =
    run_faults_restores cluster count_of cluster-IsCluster (count_of start) 0 180
      (payment_fault ∷ []) start (refl, tt) (λ dep. refl) not_given_up not_unwritten "pay"
