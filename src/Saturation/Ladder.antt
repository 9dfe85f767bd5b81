-- ===== src/Saturation/Ladder.antt =====
-- The ladder of rates (src/benchmarkservice/locustfile.py, `SaturationDriver.schedule`).
use native.Mathlib.Nat.{div-eq_of_lt, div-eq-sub-div}
use microservices_demo_nats.Prelude.{
  ℕ, zero, suc, ◌+◌, ◌-◌, ◌*◌, ◌/◌, ◌≤◌, ◌<◌, min, max, ◌≡◌, refl, sym, ap, ◌∙◌, inl, inr, Bool,
  false, List, [], ◌∷◌, map, ◌==◌, ==_iff, leb, leb→le, length, sum, Bool-cases, if◌then◌else◌,
  arith,
}
use microservices_demo_nats.Config.Settings.{
  BenchmarkConfig, ceil_div, saturation_step_count, saturation_effective_max_rate,
}

pub record Rung : Type 0 where
  pub number : ℕ
  pub target_rate : ℕ
  pub seconds : ℕ
  pub final_rung : Bool
  pub maximum_rate_reached : Bool

abbrev pub rate_at : BenchmarkConfig → ℕ → ℕ
rate_at c rung = min c.saturation_max_rate (c.saturation_start_rate + rung * 10_000)

-- The rung that begins with `remaining` seconds left.
abbrev pub rung_at : BenchmarkConfig → ℕ → ℕ → Rung
rung_at c remaining rung =
    let duration = min c.saturation_step_seconds remaining in
    record {
      number = rung;
      target_rate = rate_at c rung;
      seconds = duration;
      final_rung = remaining - duration == 0;
      maximum_rate_reached = leb c.saturation_max_rate (rate_at c rung);
    }

module _ (c : BenchmarkConfig) (stops : Rung → Bool) where
  -- The loop `while remaining > 0`, where `stops` is what the coordinator decides on a rung.
  unfoldable pub climb : ℕ → ℕ → ℕ → List Rung
  climb zero remaining rung = []
  climb (suc n) remaining rung =
      let now = rung_at c remaining rung in
      let rest = climb n (remaining - now.seconds) (suc rung) in
      if remaining == 0 then [] else now ∷ (if stops now then [] else rest)

  -- At most one rung a second.
  unfoldable pub schedule : List Rung
  schedule = climb c.duration_seconds c.duration_seconds 0

abbrev pub highest : List ℕ → ℕ
highest [] = 0
highest (r ∷ rs) = max r (highest rs)

abbrev peak_of : BenchmarkConfig → ℕ → ℕ → ℕ
peak_of c remaining rung =
    if remaining == 0
    then 0
    else rate_at c (rung + (ceil_div remaining c.saturation_step_seconds - 1))

-- The rungs last for the time that is left, there are as many as it has steps, and the highest of
-- their rates is that of the last of as many steps.
record Climbs (c : BenchmarkConfig) (remaining rung : ℕ) (rungs : List Rung) : Type 0 where
  lasting : sum (map (λ (r : Rung). r.seconds) rungs) ≡ remaining
  count : length rungs ≡ ceil_div remaining c.saturation_step_seconds
  peak : highest (map (λ (r : Rung). r.target_rate) rungs) ≡ peak_of c remaining rung

ceil_zero : (s : ℕ) → 1 ≤ s → ceil_div 0 s ≡ 0
ceil_zero s h = div-eq_of_lt (omega (arith, h))

ceil_suc : (r s : ℕ) → 1 ≤ s → 1 ≤ r → ceil_div r s ≡ suc (ceil_div (r - s) s)
ceil_suc r s h k = one_step ∙ elim (Bool-cases (leb s r)) [
  | inl e ↦
      let le : s ≤ r = leb→le s r e in
      let same : r + (s - 1) - s ≡ r - s + (s - 1) = omega (arith, h, k, le) in
      rw same (omega arith)
  | inr e ↦
      let lt : r < s = ground arith in
      let small : (r + (s - 1) - s) / s ≡ 0 = div-eq_of_lt (omega (arith, h, k, lt)) in
      let none_left : (r - s + (s - 1)) / s ≡ 0 = div-eq_of_lt (omega (arith, h, lt)) in
      rw small (rw none_left (omega arith))
]
  where
    one_step : ceil_div r s ≡ (r + (s - 1) - s) / s + 1
    one_step = div-eq-sub-div h (omega (arith, h, k))

Climbs-none : (c : BenchmarkConfig) (rung : ℕ) → 1 ≤ c.saturation_step_seconds → Climbs c 0 rung []
Climbs-none c rung h = record {
  lasting = refl;
  count = sym (ceil_zero c.saturation_step_seconds h);
  peak = refl;
}

suc-not_zero : (n : ℕ) → (suc n == 0) ≡ false
suc-not_zero n = ground arith

rate_grows :
    (c : BenchmarkConfig) (rung t : ℕ)
    → max (rate_at c rung) (rate_at c (suc rung + (suc t - 1)))
      ≡ rate_at c (rung + (suc (suc t) - 1))
rate_grows c rung t = omega arith

peak_grows :
    (c : BenchmarkConfig) (left rung : ℕ)
    → 1 ≤ c.saturation_step_seconds
    → max (rate_at c rung) (peak_of c left (suc rung))
      ≡ rate_at c (rung + (suc (ceil_div left c.saturation_step_seconds) - 1))
peak_grows c zero rung h = rw (ceil_zero c.saturation_step_seconds h) (omega arith)
peak_grows c (suc n) rung h =
    rw (suc-not_zero n)
      (rw (ceil_suc (suc n) c.saturation_step_seconds h (omega arith)) (rate_grows c rung _))

Climbs-more :
    (c : BenchmarkConfig) (remaining rung : ℕ) (rungs : List Rung)
    → 1 ≤ c.saturation_step_seconds
    → 1 ≤ remaining
    → Climbs c (remaining - (rung_at c remaining rung).seconds) (suc rung) rungs
    → Climbs c remaining rung (rung_at c remaining rung ∷ rungs)
Climbs-more c remaining rung rungs h k q = record {
  lasting = omega (arith, q.lasting);
  count = ap suc q.count ∙ ap (λ t. suc (ceil_div t step)) less ∙ sym (ceil_suc remaining step h k);
  peak = rw some_left (rw more (rw q.peak higher));
}
  where
    step : ℕ
    step = c.saturation_step_seconds

    less : remaining - min step remaining ≡ remaining - step
    less = omega arith

    some_left : (remaining == 0) ≡ false
    some_left = ground (arith, k)

    more : ceil_div remaining step ≡ suc (ceil_div (remaining - step) step)
    more = ceil_suc remaining step h k

    higher :
        max (rate_at c rung) (peak_of c (remaining - min step remaining) (suc rung))
        ≡ rate_at c (rung + (suc (ceil_div (remaining - step) step) - 1))
    higher = rw less (peak_grows c (remaining - step) rung h)

module _ (c : BenchmarkConfig) (stops : Rung → Bool) (one_second : 1 ≤ c.saturation_step_seconds)
    (holds_out : (r : Rung) → stops r ≡ r.final_rung) where
  climb_none : (n rung : ℕ) → climb c stops n 0 rung ≡ []
  unfolding climb
  climb_none zero rung = refl
  climb_none (suc n) rung = refl

  climb-Climbs :
      (n remaining rung : ℕ)
      → remaining ≤ n
      → Climbs c remaining rung (climb c stops n remaining rung)
  unfolding climb
  climb-Climbs zero remaining rung h =
      let over : remaining ≡ 0 = omega (arith, h) in rw over (Climbs-none c rung one_second)
  climb-Climbs (suc n) zero rung h = Climbs-none c rung one_second
  climb-Climbs (suc n) (suc m) rung h = rw (suc-not_zero m) (
      Climbs-more c (suc m) rung _ one_second (omega arith) (
        rw (holds_out now) (elim (Bool-cases now.final_rung) [
          | inl e ↦
              let over : left ≡ 0 = (==_iff left 0).0 e in
              rw e (rw over (Climbs-none c (suc rung) one_second))
          | inr e ↦ rw e (climb-Climbs n left (suc rung) (omega (arith, h, one_second)))
        ])))
    where
      now : Rung
      now = rung_at c (suc m) rung

      left : ℕ
      left = suc m - now.seconds

  -- Where the coordinator stops on the final rung and on no other, and a step lasts at least a second:
  -- the rungs of a saturation run last for its whole duration, they are as many as the configuration
  -- counts, and the highest of their rates is the one by which the configuration counts the workers.
  pub schedule_complete :
      1 ≤ c.duration_seconds
      → let rungs = schedule c stops in
        (sum (map (λ (r : Rung). r.seconds) rungs) ≡ c.duration_seconds)
        × (length rungs ≡ saturation_step_count c)
        × (highest (map (λ (r : Rung). r.target_rate) rungs) ≡ saturation_effective_max_rate c)
  unfolding schedule saturation_step_count saturation_effective_max_rate
  schedule_complete h =
      let q = climb-Climbs c.duration_seconds c.duration_seconds 0 (omega arith) in
      let some : (c.duration_seconds == 0) ≡ false = ground (arith, h) in
      (q.lasting, q.count, q.peak ∙ rw some (omega arith))
