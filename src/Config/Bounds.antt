-- ===== src/Config/Bounds.antt =====
-- An accepted configuration is within its bounds.
use mathlib.Core.Path.{subst}
use microservices_demo_nats.Prelude.{
  ℕ, ◌≤◌, String, ◌≡◌, refl, Bool, true, false, not, arith, ltb, ok, err,
}
use microservices_demo_nats.Config.Values.{
  Python, Values, Checked, ConfigError, ◌>>=◌, InRange, integer, number, integer-InRange,
  number-InRange,
}
use microservices_demo_nats.Config.Settings.{BenchmarkConfig}
use microservices_demo_nats.Config.Request.{require, from_values}

pub record IsValid (minimum_spawn_rate : ℕ) (c : BenchmarkConfig) : Type 0 where
  pub warmup : c.warmup_seconds ≤ 3600
  pub duration : (1 ≤ c.duration_seconds) × (c.duration_seconds ≤ 3600)
  pub drain : (1 ≤ c.drain_seconds) × (c.drain_seconds ≤ 1800)
  pub users : (1 ≤ c.users) × (c.users ≤ 10_000)
  pub spawn :
      (minimum_spawn_rate ≤ c.spawn_rate.thousandths) × (c.spawn_rate.thousandths ≤ 10_000_000)
  pub undivided : c.spawn_rate.over ≡ 1
  pub arrival : (10 ≤ c.arrival_rate) × (c.arrival_rate ≤ 10_000_000)
  pub ladder :
      (10 ≤ c.saturation_start_rate)
      × (c.saturation_start_rate ≤ c.saturation_max_rate)
      × (c.saturation_max_rate ≤ 10_000_000)
  pub step : (10 ≤ c.saturation_step_seconds) × (c.saturation_step_seconds ≤ 300)
  pub seed : c.seed ≤ 2_147_483_647
  pub outcome : (1_000 ≤ c.outcome_timeout) × (c.outcome_timeout ≤ 1_800_000)
  pub settlement : (1_000 ≤ c.settlement_timeout) × (c.settlement_timeout ≤ 3_600_000)
  pub interval : (1_000 ≤ c.resource_sample_interval) × (c.resource_sample_interval ≤ 60_000)

ok-injective : {A : Type 0} (a b : A) → ◌≡◌ {A = Checked A} (ok a) (ok b) → a ≡ b
ok-injective a b h = cc

-- A postcondition of a result, and its rule for a bind.
data Ensures {A : Type 0} (P : A → Type 0) : Checked A → Type 0 where
  returned : {a : A} → P a → Ensures P (ok a)
  raised : {e : ConfigError} → Ensures P (err e)

module _ {B : Type 0} (P : B → Type 0) where
  then-Ensures :
      {A : Type 0} (m : Checked A) (f : A → Checked B)
      → ((a : A) → Ensures P (f a))
      → Ensures P (m >>= f)
  unfolding ◌>>=◌
  then-Ensures (ok a) f h = h a
  then-Ensures (err e) f h = raised

  require-Ensures :
      (t : Bool) (f : Unit {0} → Checked B)
      → (t ≡ true → Ensures P (f tt))
      → Ensures P (require t >>= f)
  unfolding ◌>>=◌
  require-Ensures true f h = h refl
  require-Ensures false f h = raised

  -- An integer or a number that was read is within its limits in what follows.
  reading-Ensures :
      (lo hi : ℕ) (m : Checked ℕ) (f : ℕ → Checked B)
      → InRange lo hi m
      → ((n : ℕ) → lo ≤ n → n ≤ hi → Ensures P (f n))
      → Ensures P (m >>= f)
  unfolding ◌>>=◌
  reading-Ensures lo hi (ok n) f (l, h) k = k n l h
  reading-Ensures lo hi (err e) f r k = raised

Ensures-ok : {A : Type 0} {P : A → Type 0} (a : A) (r : Checked A) → r ≡ ok a → Ensures P r → P a
Ensures-ok {P = P} a _ h (returned {a = b} p) = subst P (ok-injective b a h) p
Ensures-ok a _ h raised = cc

not-ltb→le : (a b : ℕ) → not (ltb b a) ≡ true → a ≤ b
not-ltb→le a b h = ground arith

within :
    {least : ℕ} {c : BenchmarkConfig}
    → c.warmup_seconds ≤ 3600
    → (1 ≤ c.duration_seconds) × (c.duration_seconds ≤ 3600)
    → (1 ≤ c.drain_seconds) × (c.drain_seconds ≤ 1800)
    → (1 ≤ c.users) × (c.users ≤ 10_000)
    → (least ≤ c.spawn_rate.thousandths) × (c.spawn_rate.thousandths ≤ 10_000_000)
    → c.spawn_rate.over ≡ 1
    → (10 ≤ c.arrival_rate) × (c.arrival_rate ≤ 10_000_000)
    → (10 ≤ c.saturation_start_rate)
      × (c.saturation_start_rate ≤ c.saturation_max_rate)
      × (c.saturation_max_rate ≤ 10_000_000)
    → (10 ≤ c.saturation_step_seconds) × (c.saturation_step_seconds ≤ 300)
    → c.seed ≤ 2_147_483_647
    → (1_000 ≤ c.outcome_timeout) × (c.outcome_timeout ≤ 1_800_000)
    → (1_000 ≤ c.settlement_timeout) × (c.settlement_timeout ≤ 3_600_000)
    → (1_000 ≤ c.resource_sample_interval) × (c.resource_sample_interval ≤ 60_000)
    → IsValid least c
within a b d e f g h i j k outcome settlement interval = record {
  warmup = a;
  duration = b;
  drain = d;
  users = e;
  spawn = f;
  undivided = g;
  arrival = h;
  ladder = i;
  step = j;
  seed = k;
  outcome = outcome;
  settlement = settlement;
  interval = interval;
}

module _ (py : Python) (values : Values py) (app : String) (least : ℕ) where
  abbrev Valid : BenchmarkConfig → Type 0
  Valid = IsValid least

  int_step :
      (name : String) (default lo hi : ℕ) (f : ℕ → Checked BenchmarkConfig)
      → ((n : ℕ) → lo ≤ n → n ≤ hi → Ensures Valid (f n))
      → Ensures Valid (integer py values name default lo hi >>= f)
  int_step name default lo hi f =
      reading-Ensures Valid lo hi (integer py values name default lo hi) f
        (integer-InRange py values name default lo hi)

  num_step :
      (name : String) (default lo hi : ℕ) (f : ℕ → Checked BenchmarkConfig)
      → ((n : ℕ) → lo ≤ n → n ≤ hi → Ensures Valid (f n))
      → Ensures Valid (number py values name default lo hi >>= f)
  num_step name default lo hi f =
      reading-Ensures Valid lo hi (number py values name default lo hi) f
        (number-InRange py values name default lo hi)

  from_values-Ensures : Ensures Valid (from_values py values app least)
  unfolding from_values
  from_values-Ensures = then-Ensures Valid _ _ λ a. then-Ensures Valid _ _ λ w.
      then-Ensures Valid _ _ λ t. then-Ensures Valid _ _ λ r. then-Ensures Valid _ _ λ q.
        then-Ensures Valid _ _ λ m. then-Ensures Valid _ _ λ _. num_step _ _ _ _ _ λ i il ih.
          num_step _ _ _ _ _ λ s sl sh. num_step _ _ _ _ _ λ x xl xh.
            require-Ensures Valid _ _ λ ordered. int_step _ _ _ _ _ λ wu wl wh.
              int_step _ _ _ _ _ λ d dl dh. int_step _ _ _ _ _ λ dr rl rh.
                int_step _ _ _ _ _ λ u ul uh. num_step _ _ _ _ _ λ sp pl ph.
                  num_step _ _ _ _ _ λ ar al ah. int_step _ _ _ _ _ λ st tl th.
                    num_step _ _ _ _ _ λ o ol oh. num_step _ _ _ _ _ λ se el eh.
                      int_step _ _ _ _ _ λ sd fl fh. returned (
                        within wh (dl, dh) (rl, rh) (ul, uh) (pl, ph) refl (al, ah)
                          (sl, not-ltb→le s x ordered, xh) (tl, th) fh (ol, oh) (el, eh) (il, ih))

  -- Whatever the request holds, as long as its numbers are whole thousandths and not NaN: an accepted
  -- configuration is within the bounds of each of its numeric fields, its ladder is ordered, and its
  -- spawn rate is at least the required least rate.
  pub from_values-IsValid :
      (c : BenchmarkConfig) → from_values py values app least ≡ ok c → IsValid least c
  from_values-IsValid c h = Ensures-ok c _ h from_values-Ensures
