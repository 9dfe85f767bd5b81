-- ===== src/Saturation/Goodput.antt =====
-- The orders that a rung processed, as the observer of completed orders counts them.
use microservices_demo_nats.Prelude.{
  ℕ, ◌+◌, ◌-◌, ◌≤◌, String, ◌≡◌, refl, ap, inl, inr, Bool, true, false, not, List, Option, none,
  some, ltb, Bool-cases, arith,
}
use microservices_demo_nats.Saturation.Evaluation.{Floats, is_nats, evaluate_rung}
use microservices_demo_nats.Saturation.Decision.{
  Progress, Window, Sample, first_sampled, same_observer, total_before, total_after, has_decreased,
  processed_between, decide,
}

-- The count is the growth of the total between two samples of one observer.
pub record Counted (n : ℕ) (samples : Option (Sample × Sample)) : Type 0 where
  pub before : Sample
  pub later : Sample
  pub total : ℕ
  pub sampled : samples ≡ some (before, later)
  pub continuous : same_observer before.observer_id later.observer_id ≡ true
  pub ends : later.total ≡ some total
  pub grown : n + total_before before ≡ total

difference_of :
    (a b : Sample) (t : Option ℕ) (n : ℕ)
    → a.total ≡ a.total
    → b.total ≡ t
    → same_observer a.observer_id b.observer_id ≡ true
    → has_decreased t (total_before a) ≡ false
    → total_after t - total_before a ≡ n
    → Counted n (some (a, b))
difference_of a b none n h e same fine count = absurd (cc)
difference_of a b (some m) n h e same fine count = record {
  before = a;
  later = b;
  total = m;
  sampled = refl;
  continuous = same;
  ends = e;
  grown = omega (arith, count, not_less m (total_before a) fine);
}
  where
    not_less : (x y : ℕ) → ltb x y ≡ false → y ≤ x
    not_less x y f = ground arith

abbrev count_of : Option ℕ → ℕ
count_of none = 0
count_of (some n) = n

not-false : (b : Bool) → not b ≡ false → b ≡ true
not-false true h = refl
not-false false h = cc

processed_between-Counted :
    (nats : Bool) (samples : Option (Sample × Sample)) (n : ℕ)
    → (processed_between nats samples).0 ≡ some n
    → Counted n samples
unfolding processed_between
processed_between-Counted nats none n h = absurd (cc)
processed_between-Counted nats (some (a, b)) n h =
    elim (Bool-cases (not (same_observer a.observer_id b.observer_id))) [
      | inl e ↦ absurd (cc (rw e at h))
      | inr e ↦ elim (Bool-cases (has_decreased b.total (total_before a))) [
        | inl g ↦ absurd (cc (rw (e, g) at h))
        | inr g ↦
            difference_of a b b.total n refl refl (not-false _ e) g (ap count_of (rw (e, g) at h))
      ]
    ]

-- In a NATS run, the number of processed orders that a decision reports is that by which the total of
-- one observer has grown, between the two samples of the first worker that has both.
pub decide-Counted :
    (fl : Floats) (application_type : String) (workers rung : ℕ) (w : Window fl.Float)
    (previous : Option fl.Float) (progresses : List (Progress fl.Float)) (n : ℕ)
    → is_nats application_type ≡ true
    → let d = (decide fl application_type workers rung w previous progresses).0 in
      d.evaluation.processed_during_rung ≡ some n → Counted n (first_sampled progresses)
unfolding decide evaluate_rung
decide-Counted fl application_type workers rung w previous progresses n nats h =
    processed_between-Counted true (first_sampled progresses) n (rw nats at h)
