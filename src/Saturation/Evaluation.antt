-- ===== src/Saturation/Evaluation.antt =====
-- The verdict on a rung (src/benchmarkservice/saturation.py, `evaluate_rung`).
use microservices_demo_nats.Prelude.{
  ℕ, String, Bool, true, false, ◌&&◌, Option, none, some, str_eq, if◌then◌else◌,
}

-- Floating-point numbers and their operations.
pub record Floats : Type 1 where
  pub Float : Type 0
  pub of_count : ℕ → Float
  pub difference : Float → Float → Float
  pub quotient : Float → Float → Float
  pub larger : Float → Float → Float
  pub at_most : Float → Float → Bool
  pub round6 : Float → Float
  pub thousandth : Float
  pub rapid_growth : Float

pub record RungInput (F : Type 0) : Type 0 where
  pub application_type : String
  pub target_rate : F
  pub duration_seconds : F
  pub completed : ℕ
  pub processed : Option ℕ
  pub previous_goodput : Option F
  pub pending_start : Option F
  pub pending_end : Option F
  pub final_rung : Bool
  pub maximum_rate_reached : Bool

pub record Evaluation (F : Type 0) : Type 0 where
  pub target_requests_per_second : F
  pub duration_seconds : F
  pub completed_during_rung : ℕ
  pub client_observed_completed_during_rung : ℕ
  pub observed_goodput : F
  pub processed_during_rung : Option ℕ
  pub processing_goodput : Option F
  pub processing_goodput_source : Option String
  pub previous_goodput : Option F
  pub pending_start : Option F
  pub pending_end : Option F
  pub pending_growth : Option F
  pub pending_growth_per_second : Option F
  pub maximum_rate_reached : Bool
  pub stop : Bool
  pub saturated : Bool
  pub saturation_reason : Option String
  pub stop_reason : Option String

abbrev pub on_some {ℓ} : {A B : Type ℓ} → (A → B) → Option A → Option B
on_some f none = none
on_some f (some a) = some (f a)

abbrev pub is_nats : String → Bool
is_nats application_type = str_eq application_type "NATS"

module _ (fl : Floats) where
  abbrev pub growth : Option fl.Float → Option fl.Float → Option fl.Float
  growth (some start) (some end) = some (fl.difference end start)
  growth _ _ = none

  abbrev pub grows_rapidly : Option fl.Float → Bool
  grows_rapidly none = false
  grows_rapidly (some per_second) = fl.at_most fl.rapid_growth per_second

  abbrev pub stopped_increasing : Option fl.Float → Option fl.Float → Bool
  stopped_increasing (some previous) (some goodput) = fl.at_most goodput previous
  stopped_increasing _ _ = false

  abbrev pub reason_of : Bool → Bool → Option String
  reason_of rapid stopped =
      if rapid
      then some "nats_pending_increasing_rapidly"
      else if stopped
      then some "goodput_stopped_increasing"
      else none

  abbrev pub source_of : Bool → Option ℕ → Option String
  source_of false processed = some "client_outcomes"
  source_of true none = none
  source_of true (some _) = some "nats_order_completed_events"

  unfoldable pub evaluate_rung : RungInput fl.Float → Evaluation fl.Float
  evaluate_rung i =
      let nats = is_nats i.application_type in
      let duration = fl.larger i.duration_seconds fl.thousandth in
      let processed = if nats then i.processed else some i.completed in
      let goodput = on_some (λ (n : ℕ). fl.quotient (fl.of_count n) duration) processed in
      let pending_growth = growth i.pending_start i.pending_end in
      let per_second = on_some (λ (g : fl.Float). fl.quotient g duration) pending_growth in
      let rapid = nats && grows_rapidly per_second in
      let stopped = stopped_increasing i.previous_goodput goodput in
      record {
        target_requests_per_second = i.target_rate;
        duration_seconds = fl.round6 duration;
        completed_during_rung = i.completed;
        client_observed_completed_during_rung = i.completed;
        observed_goodput = fl.round6 (fl.quotient (fl.of_count i.completed) duration);
        processed_during_rung = processed;
        processing_goodput = on_some fl.round6 goodput;
        processing_goodput_source = source_of nats processed;
        previous_goodput = on_some fl.round6 i.previous_goodput;
        pending_start = i.pending_start;
        pending_end = i.pending_end;
        pending_growth = pending_growth;
        pending_growth_per_second = on_some fl.round6 per_second;
        maximum_rate_reached = i.maximum_rate_reached;
        stop = i.final_rung;
        saturated = if rapid then true else stopped;
        saturation_reason = reason_of rapid stopped;
        stop_reason = if i.final_rung then some "maximum_duration_reached" else none;
      }
