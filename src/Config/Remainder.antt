-- ===== src/Config/Remainder.antt =====
-- What a worker's share keeps of the whole, and an open-loop share that `from_worker_dict` refuses.
use microservices_demo_nats.Prelude.{
  ℕ, ◌+◌, ◌-◌, ◌*◌, ◌%◌, ◌^◌, ◌≤◌, ◌<◌, min, String, ◌≡◌, ◌≢◌, sym, ap, ◌∙◌, Bool, true, false,
  ◌&&◌, arith, leb, ◌==◌, ok, Bool-cases, inl, inr,
}
use microservices_demo_nats.Config.Values.{Python, Values}
use microservices_demo_nats.Config.Settings.{
  BenchmarkConfig, Workload, worker_count, for_worker, share_for,
}
use microservices_demo_nats.Config.Request.{from_values}
use microservices_demo_nats.Config.Bounds.{IsValid, from_values-IsValid}
use microservices_demo_nats.Config.Shares.{is_open, field_of, rate_share, open_count}

share_samples :
    (k : Workload) (c : BenchmarkConfig) (n i : ℕ)
    → let d = share_for k c n i in
      (d.collect_resources ≡ (c.collect_resources && i == 0))
      × (d.collect_nats_metrics ≡ (c.collect_nats_metrics && i == 0))
      × (d.seed ≡ (c.seed + i) % 2 ^ 31)
share_samples k c n i = ground arith

accepted :
    (c d : BenchmarkConfig) (i : ℕ)
    → for_worker c i ≡ ok d
    → (i < worker_count c) × (d ≡ share_for c.workload c (worker_count c) i)
unfolding for_worker
accepted c d i h = elim (Bool-cases (leb (worker_count c) i)) [
  | inl e ↦ absurd (ground arith)
  | inr e ↦ (ground arith, ground arith)
]

later_false : (b : Bool) (j : ℕ) → 0 < j → (b && j == 0) ≡ false
later_false b j h = ground arith

-- Whatever the workload, of two workers of a run the later one does not sample the target, and
-- their seeds differ, provided there are no more than 2^31 workers.
pub for_worker_distinct :
    (c d e : BenchmarkConfig) (i j : ℕ)
    → worker_count c ≤ 2 ^ 31
    → for_worker c i ≡ ok d
    → for_worker c j ≡ ok e
    → i < j
    → (e.collect_resources ≡ false) × (e.collect_nats_metrics ≡ false) × (d.seed ≢ e.seed)
for_worker_distinct c d e i j few h k l =
    let (here, d_share) = accepted c d i h in
    let (there, e_share) = accepted c e j k in
    let (_, _, d_seed) = share_samples c.workload c (worker_count c) i in
    let (e_resources, e_nats, e_seed) = share_samples c.workload c (worker_count c) j in
    rw (d_share, e_share)
      (
        e_resources ∙ later_false c.collect_resources j (omega arith),
        e_nats ∙ later_false c.collect_nats_metrics j (omega arith),
        λ same. omega (arith, d_seed, e_seed),
      )

-- Where the arrival rate of a valid open-loop or fault-tolerance configuration is above a multiple
-- of fifty by less than a hundredth, the last worker's share is a configuration that reading a
-- worker's values never gives: it is below the least rate.
pub small_share_refused :
    (py : Python) (values : Values py) (app : String) (c d : BenchmarkConfig)
    → IsValid 10 c
    → is_open c.workload ≡ true
    → 1 ≤ c.arrival_rate % 50_000
    → c.arrival_rate % 50_000 < 10
    → for_worker c (worker_count c - 1) ≡ ok d
    → from_values py values app 1 ≢ ok d
small_share_refused py values app c d v o low high h r = absurd (
    omega
      (arith, (from_values-IsValid py values app 1 d r).arrival, share, open_count c o, v.arrival))
  where
    share : d.arrival_rate ≡ min 50_000 (c.arrival_rate - (worker_count c - 1) * 50_000)
    share =
        sym (ap (field_of (λ x. x.arrival_rate)) h)
        ∙ rate_share c (worker_count c - 1) o (omega (arith, open_count c o))
