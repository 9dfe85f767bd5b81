-- ===== src/Report/Convergence.antt =====
-- When a service has recovered from a fault (src/benchmarkservice/reporting.py,
-- `_fault_convergence`). Ratios are compared by products, so the rounding of floating-point numbers is
-- not modelled; the texts and rounded numbers of a result that are only shown are left out.
use microservices_demo_nats.Prelude.{
  ℕ, zero, suc, ◌+◌, ◌-◌, ◌*◌, ◌/◌, min, String, Bool, true, false, not, ◌&&◌, ◌||◌, List, [], ◌∷◌,
  map, Option, none, some, ltb, leb, ◌==◌, sum, length, str_eq, if◌then◌else◌,
}
use microservices_demo_nats.Report.Spans.{Span}

-- One second of the run; the age of the last sample of the metrics is in milliseconds.
pub record Point : Type 0 where
  pub elapsed_seconds : ℕ
  pub expected_requests : ℕ
  pub successfully_processed : ℕ
  pub lost_requests : ℕ
  pub nats_waiting_events : Option ℕ
  pub sample_age : Option ℕ

-- The fraction is counted in thousandths.
pub record Criteria : Type 0 where
  pub stable_seconds : ℕ
  pub success_fraction : ℕ
  pub pending_tolerance : ℕ
  pub duration_seconds : ℕ

pub data Reason : Type 0 where
  not_reenabled : Reason
  no_baseline_traffic : Reason
  no_baseline_pending : Reason
  not_stable : Reason

-- Whether and when the service has recovered, in seconds.
pub data Convergence : Type 0 where
  converged : ℕ → Convergence
  unconverged : Reason → Convergence

abbrev pub is_baseline : ℕ → Point → Bool
is_baseline down p =
    leb (down - 10_000) (p.elapsed_seconds * 1000) && ltb (p.elapsed_seconds * 1000) down

abbrev pub filtered : (Point → Bool) → List Point → List Point
filtered q [] = []
filtered q (p ∷ ps) = let rest = filtered q ps in if q p then p ∷ rest else rest

-- `points[candidate : candidate + stable_seconds]`
abbrev pub first_points : ℕ → List Point → List Point
first_points zero ps = []
first_points (suc n) [] = []
first_points (suc n) (p ∷ ps) = p ∷ first_points n ps

abbrev pub later_points : ℕ → List Point → List Point
later_points zero ps = ps
later_points (suc n) [] = []
later_points (suc n) (p ∷ ps) = later_points n ps

abbrev pub is_fresh : Option ℕ → Bool
is_fresh none = false
is_fresh (some age) = leb age 2000

-- What the last of the baseline's fresh samples had waiting.
abbrev pub baseline_pending : Option ℕ → List Point → Option ℕ
baseline_pending found [] = found
baseline_pending found (p ∷ ps) =
    baseline_pending
      (elim p.nats_waiting_events [
        | none ↦ found
        | some n ↦ if is_fresh p.sample_age then some n else found
      ])
      ps

abbrev pub total : (Point → ℕ) → List Point → ℕ
total f ps = sum (map f ps)

-- The baseline: its expected and successful requests, and what waited at its end.
pub record Baseline : Type 0 where
  pub expected : ℕ
  pub successful : ℕ
  pub pending : Option ℕ

abbrev pub baseline_of : ℕ → List Point → Baseline
baseline_of down points =
    let ps = filtered (is_baseline down) points in
    record {
      expected = total (λ p. p.expected_requests) ps;
      successful = total (λ p. p.successfully_processed) ps;
      pending = baseline_pending none ps;
    }

abbrev pub or_zero : Option ℕ → ℕ
or_zero none = 0
or_zero (some n) = n

-- The metrics of a second are fresh, and no more waits than before the fault.
abbrev pub is_drained : ℕ → Point → Bool
is_drained most p = elim p.nats_waiting_events [
  | none ↦ false
  | some n ↦ is_fresh p.sample_age && leb n most
]

abbrev pub all_points : (Point → Bool) → List Point → Bool
all_points q [] = true
all_points q (p ∷ ps) = q p && all_points q ps

-- `successful / expected < min(1.0, baseline_successful / baseline_expected) * success_fraction`
abbrev pub is_below : Criteria → Baseline → ℕ → ℕ → Bool
is_below c b successful expected =
    ltb (successful * b.expected * 1000)
      (min b.successful b.expected * c.success_fraction * expected)

module _ (c : Criteria) (application_type : String) (points : List Point) (b : Baseline) where
  abbrev pub window_at : ℕ → List Point
  window_at candidate = first_points c.stable_seconds (later_points candidate points)

  abbrev pub is_whole : ℕ → Bool
  is_whole candidate = length (window_at candidate) == c.stable_seconds

  abbrev pub is_failing : ℕ → Bool
  is_failing candidate =
      let expected = total (λ p. p.expected_requests) (window_at candidate) in
      let successful = total (λ p. p.successfully_processed) (window_at candidate) in
      expected == 0 || is_below c b successful expected

  abbrev pub is_lossless : ℕ → Bool
  is_lossless candidate = total (λ p. p.lost_requests) (window_at candidate) == 0

  abbrev pub is_settled : ℕ → Bool
  is_settled candidate =
      if str_eq application_type "NATS"
      then all_points (is_drained (or_zero b.pending + c.pending_tolerance)) (window_at candidate)
      else true

  -- The criteria on the seconds from the candidate on.
  unfoldable pub is_stable : ℕ → Bool
  is_stable t = is_whole t && (not (is_failing t) && (is_lossless t && is_settled t))

  -- The first of some candidates that is stable.
  unfoldable pub first_stable : ℕ → ℕ → Option ℕ
  first_stable candidate zero = none
  first_stable candidate (suc n) =
      let later = first_stable (suc candidate) n in
      if is_stable candidate then some candidate else later

abbrev pub verdict_of : Option ℕ → Convergence
verdict_of none = unconverged not_stable
verdict_of (some candidate) = converged candidate

-- `math.ceil(up)` and `math.floor(search_end)`
abbrev pub ceil_seconds : ℕ → ℕ
ceil_seconds t = (t + 999) / 1000

abbrev pub floor_seconds : ℕ → ℕ
floor_seconds t = t / 1000

abbrev pub is_unknown : Option ℕ → Bool
is_unknown none = true
is_unknown (some n) = false

unfoldable pub searched : Criteria → String → List Point → Baseline → ℕ → ℕ → Convergence
searched c application_type points b up search_end =
    let first_candidate = ceil_seconds up in
    let end = suc (floor_seconds search_end) - c.stable_seconds in
    if b.expected == 0 || b.successful == 0
    then unconverged no_baseline_traffic
    else if str_eq application_type "NATS" && is_unknown b.pending
    then unconverged no_baseline_pending
    else verdict_of
        (first_stable c application_type points b first_candidate (end - first_candidate))

-- The end of the search: where the next fault begins, or the run ends.
abbrev pub search_end : Criteria → List Span → ℕ
search_end c [] = c.duration_seconds * 1000
search_end c (next ∷ spans) = next.scale_down_started

unfoldable pub convergence : Criteria → String → List Point → Span → ℕ → Convergence
convergence c application_type points span end = elim span.scale_up_started [
  | none ↦ unconverged not_reenabled
  | some up ↦ elim span.reenabled [
    | none ↦ unconverged not_reenabled
    | some t ↦
        searched c application_type points (baseline_of span.scale_down_started points) up end
  ]
]

unfoldable pub fault_convergence : Criteria → String → List Point → List Span → List Convergence
fault_convergence c application_type points [] = []
fault_convergence c application_type points (span ∷ spans) =
    convergence c application_type points span (search_end c spans)
    ∷ fault_convergence c application_type points spans
