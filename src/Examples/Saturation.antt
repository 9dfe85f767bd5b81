-- ===== src/Examples/Saturation.antt =====
-- A saturation run of two workers, in whole numbers.
use microservices_demo_nats.Prelude.{
  ℕ, ◌-◌, ◌*◌, ◌/◌, ◌%◌, max, ◌≡◌, refl, Bool, false, List, [], ◌∷◌, map, Option, none, some, leb,
  ◌==◌, length, sum, if◌then◌else◌, arith,
}
use microservices_demo_nats.Config.Settings.{
  BenchmarkConfig, saturation, saturation_step_count, saturation_effective_max_rate,
}
use microservices_demo_nats.Saturation.Ladder.{Rung, schedule, highest, schedule_complete}
use microservices_demo_nats.Saturation.Ordinals.{ordinals, occurrences, ordinals_shared}
use microservices_demo_nats.Saturation.Evaluation.{Floats, evaluate_rung}
use microservices_demo_nats.Saturation.Decision.{
  Sample, Window, Progress, Decision, progress_of, first_sampled, processed_between, decide,
}
use microservices_demo_nats.Saturation.Coordination.{
  collecting, awaiting, measuring, Returned, Cluster, put_progress, set_at, initial, decided,
  begin_first, begin_other, collect, settle, receive, Reachable, started, stepped,
}
use microservices_demo_nats.Saturation.Invariant.{Founded}
use microservices_demo_nats.Saturation.Agreement.{first, after, returned_agree}
use microservices_demo_nats.Examples.Config.{crowd}

-- Numbers of thousandths.
abbrev thousandths : Floats
thousandths = record {
  Float = ℕ;
  of_count = λ n. n * 1000;
  difference = λ a b. a - b;
  quotient = λ a b. a * 1000 / b;
  larger = max;
  at_most = leb;
  round6 = λ a. a;
  thousandth = 1;
  rapid_growth = 10_000;
}

abbrev ladder : BenchmarkConfig
ladder = record crowd { workload = saturation }

abbrev sample : ℕ → Option Sample
sample n = some (record { observer_id = some "o"; total = some n })

abbrev window : Bool → Window ℕ
window final = record {
  target_rate = 10_000;
  started_elapsed_seconds = 5000;
  ended_elapsed_seconds = 35_000;
  completed_before = 4;
  completed_after = 300;
  processed_before = sample 7;
  processed_after = sample 290;
  pending_start = some 2000;
  pending_end = some 5000;
  final_rung = final;
  maximum_rate_reached = false;
}

abbrev progresses : List (Progress ℕ)
progresses = progress_of 0 (window false) ∷ progress_of 1 (window false) ∷ []

abbrev stops : Rung → Bool
stops r =
    (decide thousandths "NATS" 2 r.number (window r.final_rung) none progresses).0.evaluation.stop

stops_last : (r : Rung) → stops r ≡ r.final_rung
unfolding decide evaluate_rung
stops_last r = refl

schedule_complete_example :
    let rungs = schedule ladder stops in
    (sum (map (λ (r : Rung). r.seconds) rungs) ≡ 120)
    × (length rungs ≡ saturation_step_count ladder)
    × (highest (map (λ (r : Rung). r.target_rate) rungs) ≡ saturation_effective_max_rate ladder)
schedule_complete_example = schedule_complete ladder stops (omega arith) stops_last (omega arith)

ordinals_shared_example : occurrences 7 (ordinals 1 3 20) ≡ (if 7 % 3 == 1 then 1 else 0)
ordinals_shared_example = ordinals_shared 1 3 20 7 (omega arith) (omega arith)

counted :
    let d = (decide thousandths "NATS" 2 0 (window false) none progresses).0 in
    d.evaluation.processed_during_rung ≡ some 283
unfolding decide evaluate_rung processed_between first_sampled progress_of
counted = refl

abbrev first_began : Cluster ℕ
first_began = record (put_progress 0 0 (window false) initial) {
  phase = set_at initial.phase 0 (collecting 0 (window false) []);
}

abbrev both_began : Cluster ℕ
both_began = record (put_progress 0 1 (window false) first_began) {
  phase = set_at first_began.phase 1 (awaiting 0);
}

abbrev one_read : Cluster ℕ
one_read = record both_began {
  phase =
      set_at both_began.phase 0 (collecting 0 (window false) (progress_of 0 (window false) ∷ []));
}

abbrev both_read : Cluster ℕ
both_read = record one_read {
  phase = set_at one_read.phase 0 (collecting 0 (window false) progresses);
}

abbrev settled : Cluster ℕ
settled = decided thousandths "NATS" 2 0 (window false) progresses both_read

abbrev decision : Decision ℕ
decision = (decide thousandths "NATS" 2 0 (window false) none progresses).0

abbrev returned_to : ℕ → Returned ℕ
returned_to index = record { worker = index; rung = 0; decision = decision }

abbrev both_returned : Cluster ℕ
both_returned = record settled {
  phase = set_at settled.phase 1 (measuring 1);
  returned = returned_to 1 ∷ settled.returned;
}

reached : Reachable thousandths "NATS" 2 both_returned
reached =
    stepped
      (stepped
        (stepped
          (stepped
            (stepped (stepped started (begin_first 0 (window false) refl))
              (begin_other 1 0 (window false) (λ e. omega (arith, e)) refl))
            (collect 0 (window false) [] (progress_of 0 (window false)) refl (omega arith) refl))
          (collect 0 (window false) (progress_of 0 (window false) ∷ [])
            (progress_of 1 (window false)) refl (omega arith) refl))
        (settle 0 (window false) progresses refl refl))
      (receive 1 0 decision refl refl)

returned_agree_example :
    (decision ≡ decision) × Founded thousandths "NATS" 2 both_returned.progress 0 decision
returned_agree_example =
    returned_agree thousandths "NATS" 2 both_returned (returned_to 0) (returned_to 1) reached
      (after first) first refl
