-- ===== src/Config/Shares.antt =====
-- The workers' shares make up the whole, and each is within what one worker may take.
use native.Mathlib.Nat.{div-add-mod', mod-lt, mul-le-mul_right}
use native.Mathlib.Decide.{dec_le, dec_lt}
use microservices_demo_nats.Prelude.{
  ℕ, zero, suc, ◌+◌, ◌-◌, ◌*◌, ◌/◌, ◌%◌, ◌≤◌, ◌<◌, min, max, ◌≡◌, refl, sym, ◌∙◌, Bool, true, false,
  arith, ltb, Result, ok, err, if◌then◌else◌, Bool-cases, inl, inr,
}
use microservices_demo_nats.Config.Settings.{
  BenchmarkConfig, Workload, closed, open_loop, fault_tolerance, worker_count, for_worker,
  share_for, IndexError,
}
use microservices_demo_nats.Config.Bounds.{IsValid}

-- `f 0 + ... + f (n - 1)`
abbrev pub total : (ℕ → ℕ) → ℕ → ℕ
total f zero = 0
total f (suc n) = total f n + f n

abbrev pub field_of : (BenchmarkConfig → ℕ) → Result IndexError BenchmarkConfig → ℕ
field_of field (ok c) = field c
field_of field (err _) = 0

abbrev pub share_of : (BenchmarkConfig → ℕ) → BenchmarkConfig → ℕ → ℕ
share_of field c i = field_of field (for_worker c i)

total_congruent : (f g : ℕ → ℕ) (n : ℕ) → ((i : ℕ) → i < n → f i ≡ g i) → total f n ≡ total g n
total_congruent f g zero h = refl
total_congruent f g (suc n) h =
    omega (arith, total_congruent f g n (λ i l. h i (omega arith)), h n (omega arith))

-- An even division with the remainder spread over the first workers.
total_division : (q r n : ℕ) → total (λ i. q + (if ltb i r then 1 else 0)) n ≡ q * n + min r n
total_division q r zero = omega arith
total_division q r (suc n) = ground (arith, total_division q r n)

-- Slices of `k` of which the last is what is left.
total_slices : (a k n : ℕ) → total (λ i. min k (a - i * k)) n ≡ min a (n * k)
total_slices a k zero = omega arith
total_slices a k (suc n) = omega (arith, total_slices a k n)

worker_accepts :
    (c : BenchmarkConfig) (i : ℕ)
    → i < worker_count c
    → for_worker c i ≡ ok (share_for c.workload c (worker_count c) i)
unfolding for_worker
worker_accepts c i h = ground arith

share_of_eq :
    (field : BenchmarkConfig → ℕ) (c : BenchmarkConfig) (i : ℕ)
    → i < worker_count c
    → share_of field c i ≡ field (share_for c.workload c (worker_count c) i)
share_of_eq field c i h = rw (worker_accepts c i h)

abbrev pub is_open : Workload → Bool
is_open open_loop = true
is_open fault_tolerance = true
is_open _ = false

quotient_le : (q r n u m : ℕ) → u ≡ q * n + r → 1 ≤ n → u ≤ n * m → q ≤ m
quotient_le q r n u m e h k = elim (dec_le q m) [
  | yes p ↦ p
  | no p ↦ absurd (omega (arith, mul-le-mul_right n (let l : suc m ≤ q = omega arith in l)))
]

quotient_lt : (q r n u m : ℕ) → u ≡ q * n + r → 1 ≤ n → 1 ≤ r → u ≤ n * m → q < m
quotient_lt q r n u m e h pos k = elim (dec_lt q m) [
  | yes p ↦ p
  | no p ↦ absurd (omega (arith, mul-le-mul_right n (let l : m ≤ q = omega arith in l)))
]

quotient_pos : (q r n u : ℕ) → u ≡ q * n + r → r < n → n ≤ u → 1 ≤ q
quotient_pos zero r n u e h k = absurd (omega arith)
quotient_pos (suc q) r n u e h k = omega arith

division_bounds :
    (u n i : ℕ)
    → 1 ≤ n
    → n ≤ u
    → u ≤ n * 1000
    → (1 ≤ u / n + (if ltb i (u % n) then 1 else 0))
      × (u / n + (if ltb i (u % n) then 1 else 0) ≤ 1000)
division_bounds u n i h k l = elim (Bool-cases (ltb i (u % n))) [
  | inl e ↦ rw e (
    omega (arith, least),
    omega (arith, quotient_lt (u / n) (u % n) n u 1000 whole h (ground arith) l),
  )
  | inr e ↦
      rw e (omega (arith, least), omega (arith, quotient_le (u / n) (u % n) n u 1000 whole h l))
]
  where
    whole : u ≡ u / n * n + u % n
    whole = sym (div-add-mod' u n)

    least : 1 ≤ u / n
    least = quotient_pos (u / n) (u % n) n u whole (mod-lt u h) k

division_whole : (u n : ℕ) → 1 ≤ n → u / n * n + min (u % n) n ≡ u
division_whole u n h = omega (arith, div-add-mod' u n, mod-lt u h)

users_share :
    (c : BenchmarkConfig) (i : ℕ)
    → c.workload ≡ closed
    → i < worker_count c
    → share_of (λ d. d.users) c i
      ≡ c.users / worker_count c + (if ltb i (c.users % worker_count c) then 1 else 0)
users_share c i h l = rw (worker_accepts c i l) (rw h refl)

closed_count :
    (c : BenchmarkConfig) → c.workload ≡ closed → worker_count c ≡ max 1 ((c.users + 999) / 1000)
unfolding worker_count
closed_count c h = rw h refl

-- A valid closed-loop configuration divides its users: the shares of the workers add up to them,
-- and each worker has from one to a thousand users.
pub closed_users_shared :
    (c : BenchmarkConfig)
    → IsValid 10 c
    → c.workload ≡ closed
    → (total (share_of (λ d. d.users) c) (worker_count c) ≡ c.users)
      × ((i : ℕ)
          → i < worker_count c
          → (1 ≤ share_of (λ d. d.users) c i) × (share_of (λ d. d.users) c i ≤ 1000))
closed_users_shared c v h = (
  total_congruent (share_of (λ d. d.users) c)
        (λ i. c.users / worker_count c + (if ltb i (c.users % worker_count c) then 1 else 0))
        (worker_count c) (λ i l. users_share c i h l)
      ∙ total_division (c.users / worker_count c) (c.users % worker_count c) (worker_count c)
      ∙ division_whole c.users (worker_count c) (omega (arith, closed_count c h)),
  λ i l. rw (users_share c i h l) (
      division_bounds c.users (worker_count c) i (omega (arith, closed_count c h))
        (omega (arith, closed_count c h, v.users)) (omega (arith, closed_count c h, v.users))),
)

pub open_count :
    (c : BenchmarkConfig)
    → is_open c.workload ≡ true
    → worker_count c ≡ max 1 ((c.arrival_rate + 49_999) / 50_000)
unfolding worker_count
open_count c h = ground arith

pub rate_share :
    (c : BenchmarkConfig) (i : ℕ)
    → is_open c.workload ≡ true
    → i < worker_count c
    → share_of (λ d. d.arrival_rate) c i ≡ min 50_000 (c.arrival_rate - i * 50_000)
rate_share c i h l = rw (worker_accepts c i l) (ground arith)

-- A valid open-loop or fault-tolerance configuration divides its arrival rate: the shares of the
-- workers add up to it, and each worker has a positive share of at most fifty requests a second.
pub open_rate_shared :
    (c : BenchmarkConfig)
    → IsValid 10 c
    → is_open c.workload ≡ true
    → (total (share_of (λ d. d.arrival_rate) c) (worker_count c) ≡ c.arrival_rate)
      × ((i : ℕ)
          → i < worker_count c
          → (1 ≤ share_of (λ d. d.arrival_rate) c i)
            × (share_of (λ d. d.arrival_rate) c i ≤ 50_000))
open_rate_shared c v h = (
  total_congruent (share_of (λ d. d.arrival_rate) c) (λ i. min 50_000 (c.arrival_rate - i * 50_000))
        (worker_count c) (λ i l. rate_share c i h l)
      ∙ total_slices c.arrival_rate 50_000 (worker_count c)
      ∙ omega (arith, open_count c h, v.arrival),
  λ i l.
      rw (rate_share c i h l)
        (omega (arith, open_count c h, v.arrival), omega (arith, open_count c h, v.arrival)),
)
