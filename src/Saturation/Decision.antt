-- ===== src/Saturation/Decision.antt =====
-- What is decided on a rung (src/benchmarkservice/saturation.py, the part of
-- `SaturationCoordinator.finish_rung` that worker 0 runs).
use microservices_demo_nats.Prelude.{
  ℕ, ◌-◌, String, Bool, true, false, not, List, [], ◌∷◌, map, Option, none, some, ltb, sum, str_eq,
  if◌then◌else◌,
}
use microservices_demo_nats.Saturation.Evaluation.{Floats, Evaluation, is_nats, evaluate_rung}

-- A sample of the observer of completed orders.
pub record Sample : Type 0 where
  pub observer_id : Option String
  pub total : Option ℕ

pub record Progress (F : Type 0) : Type 0 where
  pub worker_index : ℕ
  pub completed : ℕ
  pub processed_before : Option Sample
  pub processed_after : Option Sample
  pub pending_start : Option F
  pub pending_end : Option F

-- The arguments of `finish_rung`.
pub record Window (F : Type 0) : Type 0 where
  pub target_rate : F
  pub started_elapsed_seconds : F
  pub ended_elapsed_seconds : F
  pub completed_before : ℕ
  pub completed_after : ℕ
  pub processed_before : Option Sample
  pub processed_after : Option Sample
  pub pending_start : Option F
  pub pending_end : Option F
  pub final_rung : Bool
  pub maximum_rate_reached : Bool

pub record Decision (F : Type 0) : Type 0 where
  pub evaluation : Evaluation F
  pub rung : ℕ
  pub started_elapsed_seconds : F
  pub ended_elapsed_seconds : F
  pub worker_count : ℕ
  pub processing_goodput_unavailable_reason : Option String

unfoldable pub progress_of : {F : Type 0} → ℕ → Window F → Progress F
progress_of index w = record {
  worker_index = index;
  completed = w.completed_after - w.completed_before;
  processed_before = w.processed_before;
  processed_after = w.processed_after;
  pending_start = w.pending_start;
  pending_end = w.pending_end;
}

abbrev pub both : Option Sample → Option Sample → Option (Sample × Sample)
both (some before) (some after) = some (before, after)
both _ _ = none

-- The samples of the first worker that has both.
unfoldable pub first_sampled : {F : Type 0} → List (Progress F) → Option (Sample × Sample)
first_sampled [] = none
first_sampled (p ∷ ps) =
    let rest = first_sampled ps in
    elim (both p.processed_before p.processed_after) [ none ↦ rest | some s ↦ some s ]

abbrev pub same_observer : Option String → Option String → Bool
same_observer none none = true
same_observer (some a) (some b) = str_eq a b
same_observer _ _ = false

abbrev pub total_before : Sample → ℕ
total_before s = elim s.total [ none ↦ 0 | some n ↦ n ]

-- A total that is missing afterwards counts as -1.
abbrev pub has_decreased : Option ℕ → ℕ → Bool
has_decreased none before = true
has_decreased (some after) before = ltb after before

abbrev pub total_after : Option ℕ → ℕ
total_after none = 0
total_after (some n) = n

-- The number of orders processed between two samples, or the reason that it is not known.
unfoldable pub processed_between : Bool → Option (Sample × Sample) → Option ℕ × Option String
processed_between nats none =
    (none, if nats then some "NATS completed-order observer was unavailable" else none)
processed_between nats (some (before, after)) =
    if not (same_observer before.observer_id after.observer_id)
    then (none, some "NATS completed-order observer lost continuity")
    else if has_decreased after.total (total_before before)
    then (none, some "NATS completed-order observer count decreased")
    else (some (total_after after.total - total_before before), none)

module _ (fl : Floats) (application_type : String) (workers : ℕ) where
  abbrev pub or_previous : Option fl.Float → Option fl.Float → Option fl.Float
  or_previous none previous = previous
  or_previous (some goodput) previous = some goodput

  -- The decision on a rung, and the goodput that the next one is compared with.
  unfoldable pub decide :
      ℕ
      → Window fl.Float
      → Option fl.Float
      → List (Progress fl.Float)
      → Decision fl.Float × Option fl.Float
  decide rung w previous progresses =
      let found = processed_between (is_nats application_type) (first_sampled progresses) in
      let evaluation = evaluate_rung fl (record {
        application_type = application_type;
        target_rate = w.target_rate;
        duration_seconds =
            fl.larger fl.thousandth
              (fl.difference w.ended_elapsed_seconds w.started_elapsed_seconds);
        completed = sum (map (λ (p : Progress fl.Float). p.completed) progresses);
        processed = found.0;
        previous_goodput = previous;
        pending_start = w.pending_start;
        pending_end = w.pending_end;
        final_rung = w.final_rung;
        maximum_rate_reached = w.maximum_rate_reached;
      }) in
      (
        record {
          evaluation = evaluation;
          rung = rung;
          started_elapsed_seconds = fl.round6 w.started_elapsed_seconds;
          ended_elapsed_seconds = fl.round6 w.ended_elapsed_seconds;
          worker_count = workers;
          processing_goodput_unavailable_reason = found.1;
        },
        or_previous evaluation.processing_goodput previous,
      )
