-- ===== src/Examples/Report.antt =====
-- Two faults, of which the service recovers from the first.
use microservices_demo_nats.Prelude.{ℕ, ◌≡◌, refl, List, [], ◌∷◌, none, some}
use microservices_demo_nats.Report.Spans.{Span, phase_after, fault_phase}
use microservices_demo_nats.Report.Convergence.{
  Point, Criteria, not_reenabled, converged, unconverged, is_stable, first_stable, searched,
  convergence, fault_convergence,
}

abbrev point : ℕ → ℕ → Point
point t successful = record {
  elapsed_seconds = t;
  expected_requests = 10;
  successfully_processed = successful;
  lost_requests = 0;
  nats_waiting_events = some 0;
  sample_age = some 500;
}

abbrev criteria : Criteria
criteria = record {
  stable_seconds = 2;
  success_fraction = 900;
  pending_tolerance = 0;
  duration_seconds = 9;
}

abbrev points : List Point
points =
    point 0 10
    ∷ point 1 10
    ∷ point 2 0
    ∷ point 3 5
    ∷ point 4 9
    ∷ point 5 10
    ∷ point 6 10
    ∷ point 7 0
    ∷ point 8 0
    ∷ []

abbrev spans : List Span
spans =
    record {
      service = "email";
      scale_down_started = 2000;
      scale_up_started = some 2800;
      reenabled = some 3000;
    }
    ∷ record {
      service = "cart";
      scale_down_started = 7000;
      scale_up_started = none;
      reenabled = none;
    }
    ∷ []

verdicts :
    fault_convergence criteria "NATS" points spans ≡ converged 4 ∷ unconverged not_reenabled ∷ []
unfolding fault_convergence convergence searched first_stable is_stable
verdicts = refl

phases : fault_phase 2500 spans 9000 ≡ "email_disabled"
unfolding fault_phase phase_after
phases = refl
