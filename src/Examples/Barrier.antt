-- ===== src/Examples/Barrier.antt =====
-- Two workers that start together.
use microservices_demo_nats.Prelude.{
  ℕ, zero, suc, ◌<◌, ◌≡◌, refl, arith, true, false, List, [], ◌∷◌, ◌++◌,
}
use microservices_demo_nats.Runs.Barrier.{started, Signals, fresh_barrier, move, turn, turns}
use microservices_demo_nats.Runs.Barrier.Common.{started-common}
use microservices_demo_nats.Runs.Barrier.Progress.{is_out, calm}
use microservices_demo_nats.Runs.Barrier.Liveness.{fair_turns, everyone_starts}

-- Worker 0 is ready, finds its own object but not that of worker 1, and then all.
abbrev schedule : List (ℕ × Signals)
schedule =
    (0, calm 1)
    ∷ (0, calm 2)
    ∷ (0, calm 3)
    ∷ (1, calm 4)
    ∷ (1, calm 5)
    ∷ (0, calm 6)
    ∷ (0, calm 7)
    ∷ (1, calm 8)
    ∷ []

abbrev start_time : ℕ
start_time = 5_000_000_007

first_started : (turns 2 schedule fresh_barrier).stage 0 ≡ started start_time
unfolding turns turn move
first_started = refl

second_started : (turns 2 schedule fresh_barrier).stage 1 ≡ started start_time
unfolding turns turn move
second_started = refl

started-common_example :
    (start_time ≡ start_time) × ((k : ℕ) → k < 2 → (turns 2 schedule fresh_barrier).ready k ≡ true)
started-common_example =
    started-common 2 schedule 0 1 start_time start_time first_started second_started

abbrev early : List (ℕ × Signals)
early = (1, calm 1) ∷ (0, calm 2) ∷ []

nobody_out : (i : ℕ) → i < 2 → is_out ((turns 2 early fresh_barrier).stage i) ≡ false
unfolding turns turn move
nobody_out zero h = refl
nobody_out (suc zero) h = refl
nobody_out (suc (suc i)) h = absurd (omega (arith, h))

everyone_starts_example :
    (t : ℕ) × ((i : ℕ)
      → i < 2
      → (turns 2 (early ++ fair_turns 2 9) fresh_barrier).stage i ≡ started t)
everyone_starts_example = everyone_starts 2 9 early (omega arith) nobody_out
