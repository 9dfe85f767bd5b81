-- ===== src/Checkout/Wait/Settled/Rounds.antt =====
-- The rounds of the wait for a settlement come to an end.
use microservices_demo_nats.Prelude.{
  ℕ, zero, suc, ◌-◌, ◌<◌, String, ◌≡◌, refl, ◌∙◌, ap, inl, inr, Bool, true, List, Option, leb,
  leb_false→lt, Bool-cases, arith,
}
use microservices_demo_nats.Checkout.Outside.{OrderEvent, Outside, IsTimely}
use microservices_demo_nats.Checkout.Context.{Recorded}
use microservices_demo_nats.Checkout.Outcome.{Tracking}
use microservices_demo_nats.Checkout.Settlement.{is_settling, record_settlement_event}
use microservices_demo_nats.Checkout.Settlement.Receipts.{record_settlement_event_lem}
use microservices_demo_nats.Checkout.Wait.{Waited, wait_on, wait_round, wait_rounds}
use microservices_demo_nats.Checkout.Wait.Settled.{has_settled, settling_lem}
use microservices_demo_nats.Checkout.Wait.Settled.Ends.{
  Waiting, Waits, Ready, started_well, too_late, settled-Waits, given_up-Waits, waiting-Waits,
}

module _ (o : Outside) (timely : IsTimely o) (started per_order deadline : ℕ) (base : ℕ)
    (before : List Recorded) (accepted : Bool) (wanted : String) where
  abbrev K : Tracking o.World → Type 0
  K = Waiting o base before accepted wanted

  abbrev End : Option (Waited o.World) → Type 0
  End = Waits o base before accepted wanted

  noted-Waiting :
      (order : OrderEvent) (s : Tracking o.World)
      → K s
      → K (record s { context = (record_settlement_event s.context order).1 })
  noted-Waiting order s k =
      let same = (record_settlement_event_lem s.context order).0 in
      record {
        kept = record {
          recorded = k.kept.recorded;
          streams = k.kept.streams;
          same = ap (λ x. x.0.0) same ∙ k.kept.same;
        };
        outcome = ap (λ x. x.0.1) same ∙ k.outcome;
      }

  settling_read :
      (order : OrderEvent) (s : Tracking o.World)
      → Ready o base before accepted wanted deadline order s
      → is_settling order ≡ true
      → s.open_stream ≡ true
      → s.is_started ≡ true
  settling_read order s (started_well read) settling = read
  settling_read order s (too_late late unsettled) settling = absurd (cc (settling, unsettled))

  -- An event that settles the order ends the wait, also after the deadline.
  wait_round-Waits :
      (more : OrderEvent → Tracking o.World → Option (Waited o.World)) (order : OrderEvent)
      (s : Tracking o.World)
      → ((e : OrderEvent) (u : Tracking o.World)
          → o.now s.site.world < deadline
          → K u
          → Ready o base before accepted wanted deadline e u
          → o.now s.site.world < o.now u.site.world
          → End (more e u))
      → K s
      → Ready o base before accepted wanted deadline order s
      → End (wait_round o started per_order deadline more order s)
  unfolding wait_round wait_on record_settlement_event
  wait_round-Waits more order s good k ready = elim (Bool-cases (is_settling order)) [
    | inl e ↦
        let left = (record_settlement_event_lem s.context order).1 in
        rw e (
          settled-Waits o timely started per_order deadline base before accepted wanted _
            (noted-Waiting order s k) (settling_read order s ready e)
            (ap has_settled left ∙ settling_lem order e))
    | inr e ↦ elim (Bool-cases (leb deadline (o.now s.site.world))) [
      | inl late ↦ rw e (
          rw late (
            given_up-Waits o timely started per_order deadline base before accepted wanted _
              (noted-Waiting order s k)))
      | inr early ↦
          let soon : o.now s.site.world < deadline = leb_false→lt _ _ early in
          rw e (
            rw early (
              waiting-Waits o timely started per_order deadline base before accepted wanted
                (o.now s.site.world) soon more (λ e u q there passes. good e u soon q there passes)
                order _ (noted-Waiting order s k) e refl))
    ]
  ]

  pub wait_rounds-Waits :
      (n : ℕ) (order : OrderEvent) (s : Tracking o.World)
      → K s
      → Ready o base before accepted wanted deadline order s
      → deadline - o.now s.site.world < n
      → End (wait_rounds o started per_order deadline n order s)
  unfolding wait_rounds
  wait_rounds-Waits zero order s k ready enough = absurd (omega (arith, enough))
  wait_rounds-Waits (suc n) order s k ready enough =
      wait_round-Waits _ order s
        (λ e u soon q there passes.
          wait_rounds-Waits n e u q there (omega (arith, passes, soon, enough)))
        k ready
