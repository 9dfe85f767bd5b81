-- ===== src/Faults/Waiting.antt =====
-- `_wait_until` ends.
use microservices_demo_nats.Prelude.{
  ℕ, zero, suc, ◌-◌, ◌≤◌, ◌<◌, min, ◌≡◌, refl, ◌⊎◌, true, leb, Bool-cases, inl, inr, arith, Result,
  ok, err,
}
use microservices_demo_nats.Faults.Outside.{Outside, Advances}
use microservices_demo_nats.Faults.Controller.{RunError, interrupted, wait_from, wait_until}

module _ (o : Outside) where
  -- The last thing that was done is a pause that the stop cut short.
  abbrev pub WasStopped : o.State → Type 0
  WasStopped t = (d : ℕ) × (v : o.State) × ((o.pause d v).0 ≡ true) × ((o.pause d v).1 ≡ t)

  -- The wait returned, no sooner than its deadline, or it was interrupted by the stop; there is no
  -- third way.
  abbrev pub HasWaited : ℕ → Result RunError (Unit {0}) × o.State → Type 0
  HasWaited deadline (r, t) =
      ((r ≡ ok tt) × (deadline ≤ o.now t)) ⊎ ((r ≡ err interrupted) × WasStopped t)

  wait_from-HasWaited :
      (deadline n : ℕ) (s : o.State)
      → Advances o
      → deadline - o.now s < n
      → HasWaited deadline (wait_from o n deadline s)
  unfolding wait_from
  wait_from-HasWaited deadline zero s on h = absurd (omega arith)
  wait_from-HasWaited deadline (suc n) s on h = elim (Bool-cases (leb deadline (o.now s))) [
    | inl e ↦ rw e (inl (refl, ground arith))
    | inr e ↦ rw e (
        let d : ℕ = min (deadline - o.now s) 500 in
        elim (Bool-cases (o.pause d s).0) [
          | inl g ↦ rw g (inr (refl, (d, s, g, refl)))
          | inr g ↦
              rw g (wait_from-HasWaited deadline n (o.pause d s).1 on (ground (arith, on d s g)))
        ])
  ]

  -- As long as an uninterrupted pause lasts as long as it was asked to, `_wait_until` ends: it raises
  -- `InterruptedError` right after a pause that the stop cut short, or it returns at its deadline or
  -- later.
  pub wait_until-HasWaited :
      (deadline : ℕ) (s : o.State) → Advances o → HasWaited deadline (wait_until o deadline s)
  unfolding wait_until
  wait_until-HasWaited deadline s on =
      wait_from-HasWaited deadline (suc (deadline - o.now s)) s on (omega arith)
