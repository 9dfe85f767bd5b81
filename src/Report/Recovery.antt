-- ===== src/Report/Recovery.antt =====
-- The verdicts on all faults of a run.
use microservices_demo_nats.Prelude.{
  ℕ, ◌+◌, ◌≤◌, ◌<◌, String, ◌≡◌, ◌⊎◌, ◌*◌, List, [], ◌∷◌, none, some,
}
use microservices_demo_nats.Report.Spans.{Span}
use microservices_demo_nats.Report.Convergence.{
  Point, Criteria, not_reenabled, no_baseline_traffic, no_baseline_pending, not_stable, Convergence,
  converged, unconverged, Baseline, baseline_of, ceil_seconds, floor_seconds,
}
use microservices_demo_nats.Report.Verdicts.{Stable}
use microservices_demo_nats.Report.Baselines.{Counted, LastWaiting}

module _ (c : Criteria) (application_type : String) (points : List Point) where
  abbrev baseline : Span → Baseline
  baseline span = baseline_of span.scale_down_started points

  -- What is expected and successful in the ten seconds before the fault, and the last fresh number of
  -- waiting events among them.
  pub record Baselines (span : Span) (b : Baseline) : Type 0 where
    pub expected : Counted span.scale_down_started (λ p. p.expected_requests) points b.expected
    pub successful :
        Counted span.scale_down_started (λ p. p.successfully_processed) points b.successful
    pub pending : LastWaiting span.scale_down_started points b.pending

  -- A verdict on a fault whose time for a recovery ends at `end`, compared with a baseline.
  pub data Judged (span : Span) (b : Baseline) (end : ℕ) : Convergence → Type 0 where
    left_disabled :
        (span.scale_up_started ≡ none) ⊎ (span.reenabled ≡ none)
        → Judged span b end (unconverged not_reenabled)
    no_traffic :
        (b.expected ≡ 0) ⊎ (b.successful ≡ 0) → Judged span b end (unconverged no_baseline_traffic)
    no_pending :
        application_type ≡ "NATS"
        → b.pending ≡ none
        → Judged span b end (unconverged no_baseline_pending)
    recovers :
        (up t : ℕ)
        → span.scale_up_started ≡ some up
        → ceil_seconds up ≤ t
        → t + c.stable_seconds ≤ floor_seconds end
        → Stable c application_type points b t
        → ((d : ℕ) → ceil_seconds up ≤ d → d < t → ¬ Stable c application_type points b d)
        → Judged span b end (converged t)
    never :
        (up : ℕ)
        → span.scale_up_started ≡ some up
        → ((d : ℕ)
            → ceil_seconds up ≤ d
            → d + c.stable_seconds ≤ floor_seconds end
            → ¬ Stable c application_type points b d)
        → Judged span b end (unconverged not_stable)

  -- The time for a recovery ends where the next fault begins.
  pub data AllJudged : List Span → List Convergence → Type 0 where
    none_left : AllJudged [] []
    last_judged :
        {span : Span} {b : Baseline} {v : Convergence}
        → Baselines span b
        → Judged span b (c.duration_seconds * 1000) v
        → AllJudged (span ∷ []) (v ∷ [])
    and_judged :
        {span next : Span} {spans : List Span} {b : Baseline} {v w : Convergence}
        {vs : List Convergence}
        → Baselines span b
        → Judged span b next.scale_down_started v
        → AllJudged (next ∷ spans) (w ∷ vs)
        → AllJudged (span ∷ next ∷ spans) (v ∷ w ∷ vs)
