-- ===== src/Checkout/Outcome/Closings.antt =====
-- What the ends of the loop over an order's events keep, and its reconnection.
use microservices_demo_nats.Prelude.{
  ℕ, suc, ◌+◌, ◌≤◌, ◌<◌, ◌≡◌, refl, sym, ◌∙◌, inl, inr, Bool, true, List, [], ◌∷◌, Option, some,
  ltb, leb, Bool-cases, ◌⊎◌, ◌||◌, or-true, elem, elem_sooner, str_eq, str_eq_iff, arith,
}
use microservices_demo_nats.Checkout.Outside.{OrderEvent, deadline_reached, Outside, IsTimely}
use microservices_demo_nats.Checkout.Context.{
  failure_message, BusinessFailure, Recorded, terminal_order_statuses,
}
use microservices_demo_nats.Checkout.Reconnect.{next_order_event_before, pause_passes, pause_keeps}
use microservices_demo_nats.Checkout.Reconnect.Answers.{stream_failures}
use microservices_demo_nats.Checkout.Outcome.{
  Tracking, CheckoutOutcome, is_terminal, closed, fail, give_up, with_order, failed_order, arrive,
  reconnected,
}
use microservices_demo_nats.Checkout.Outcome.Ends.{
  Left, released, unread, known_outcomes, completes, fails, Kept, Done, Finishes, received_accepted,
}

module _ (o : Outside) (timely : IsTimely o) (started per_order deadline : ℕ) (base : ℕ)
    (before : List Recorded) (accepted : Bool) where
  abbrev K : Tracking o.World → Type 0
  K = Kept o base before accepted

  abbrev D : CheckoutOutcome o.World → Type 0
  D = Done o base before accepted

  abbrev Fin : Option (CheckoutOutcome o.World) → Type 0
  Fin = Finishes o base before accepted

  pub closed_same :
      (s : Tracking o.World)
      → ((closed o started per_order deadline s).recorded ≡ s.site.recorded)
        × ((closed o started per_order deadline s).world ≡ s.site.world)
  closed_same s = elim (Bool-cases s.open_stream) [
    | inl e ↦ elim (Bool-cases s.is_started) [
      | inl r ↦ rw e (rw r (refl, refl))
      | inr r ↦ rw e (rw r (refl, refl))
    ]
    | inr e ↦ rw e (refl, refl)
  ]

  -- A stream that was never read from may be left.
  pub closed-Left :
      (s : Tracking o.World)
      → K s
      → ((closed o started per_order deadline s).streams ≡ base)
        ⊎ ((closed o started per_order deadline s).streams ≡ suc base)
  closed-Left s k = elim (Bool-cases s.open_stream) [
    | inl e ↦
        let one : s.site.streams ≡ base + 1 = rw e at k.streams in
        elim (Bool-cases s.is_started) [
          | inl r ↦ rw e (rw r (inl (omega (arith, one))))
          | inr r ↦ rw e (rw r (inr (omega (arith, one))))
        ]
    | inr e ↦
        let none_open : s.site.streams ≡ base + 0 = rw e at k.streams in
        rw e (inl (omega (arith, none_open)))
  ]

  pub closed-Kept :
      (s : Tracking o.World)
      → K s
      → (s.open_stream ≡ true → s.is_started ≡ true)
      → ((closed o started per_order deadline s).streams ≡ base)
        × ((closed o started per_order deadline s).recorded ≡ before)
        × ((closed o started per_order deadline s).world ≡ s.site.world)
  closed-Kept s k read = elim (Bool-cases s.open_stream) [
    | inl e ↦
        let one : s.site.streams ≡ base + 1 = rw e at k.streams in
        let r = read e in rw e (rw r (omega (arith, one), k.recorded, refl))
    | inr e ↦
        let none_open : s.site.streams ≡ base + 0 = rw e at k.streams in
        rw e (omega (arith, none_open), k.recorded, refl)
  ]

  fail-Done :
      (e : BusinessFailure) (s : Tracking o.World)
      → elem e.outcome known_outcomes ≡ true
      → K s
      → Left (base + 0) (some e) (closed o started per_order deadline s).streams
      → D (fail o started per_order deadline e s)
  unfolding fail
  fail-Done e s known k left =
      let kept = closed_same s in
      let (same, outcome) = received_accepted (record s.context { outcome = e.outcome }) e in
      record {
        recorded = rw (kept.0 ∙ k.recorded) (rw outcome refl);
        streams = left;
        read = λ h. absurd (cc (h));
        same = same ∙ k.same;
        known = rw outcome known;
        ends = fails e refl refl (sym outcome);
      }

  pub read-Done :
      (e : BusinessFailure) (s : Tracking o.World)
      → elem e.outcome known_outcomes ≡ true
      → K s
      → (s.open_stream ≡ true → s.is_started ≡ true)
      → D (fail o started per_order deadline e s)
  read-Done e s known k read =
      let (streams, recorded, world) = closed-Kept s k read in
      fail-Done e s known k (released (omega (arith, streams)))

  pub left_given_up :
      (e : BusinessFailure) (s : Tracking o.World)
      → K s
      → elem e.outcome ("INCOMPLETE" ∷ "TIMEOUT" ∷ "SETTLEMENT_TIMEOUT" ∷ []) ≡ true
      → Left (base + 0) (some e) (closed o started per_order deadline s).streams
  left_given_up e s k h = elim (closed-Left s k) [
    | inl streams ↦ released (omega (arith, streams))
    | inr streams ↦ unread (omega (arith, streams)) (e, refl, h)
  ]

  pub give_up-Done : (s : Tracking o.World) → K s → D (give_up o started per_order deadline s)
  unfolding give_up
  give_up-Done s k = elim (Bool-cases (leb (o.drain_deadline s.site.world) per_order)) [
    | inl e ↦ rw e (fail-Done _ s refl k (left_given_up (failure_message "INCOMPLETE") s k refl))
    | inr e ↦ rw e (fail-Done _ s refl k (left_given_up (failure_message "TIMEOUT") s k refl))
  ]

  pub arrive-Done :
      (e : OrderEvent) (s : Tracking o.World)
      → is_terminal e.status ≡ true
      → K s
      → (s.open_stream ≡ true → s.is_started ≡ true)
      → D (arrive o started per_order deadline e s)
  unfolding arrive
  arrive-Done e s last k read =
      let known =
        elem_sooner e.status terminal_order_statuses ("INCOMPLETE" ∷ stream_failures) last in
      elim (Bool-cases (str_eq e.status "COMPLETED")) [
        | inl q ↦
            let is_completed = (str_eq_iff e.status "COMPLETED").0 q in
            rw q (record {
              recorded = rw k.recorded refl;
              streams = released k.streams;
              read = read;
              same = k.same;
              known = known;
              ends = completes e refl refl refl is_completed;
            })
        | inr q ↦
            let (streams, recorded, world) = closed-Kept s k read in
            let (same, outcome) =
              received_accepted (with_order o started per_order deadline e s.context)
                (failed_order e) in
            rw q (record {
              recorded = rw recorded (rw outcome refl);
              streams = released (omega (arith, streams));
              read = λ h. absurd (cc (h));
              same = same ∙ k.same;
              known = rw outcome known;
              ends = fails (failed_order e) refl refl (sym outcome);
            })
      ]

  -- A new attempt begins later than the one before, with no stream open.
  pub reconnected-Kept :
      (t : ℕ)
      → t < deadline
      → (retry_after : Option ℕ) (s : Tracking o.World) → K s
      → (s.open_stream ≡ true → s.is_started ≡ true)
      → t ≤ o.now s.site.world
      → K (reconnected o started per_order deadline retry_after s)
        × (t < o.now (reconnected o started per_order deadline retry_after s).site.world)
  reconnected-Kept t soon retry_after s k read passed =
      let (streams, recorded, world) = closed-Kept s k read in
      let held =
        pause_keeps o timely deadline s.reconnect_attempt retry_after
          (closed o started per_order deadline s) in
      (
        record {
          recorded = held.0 ∙ recorded;
          streams = omega (arith, held, streams);
          same = k.same;
        },
        pause_passes o timely t deadline s.reconnect_attempt retry_after _ soon (rw world passed),
      )

  pub begun :
      (s : Tracking o.World)
      → ((next_order_event_before o deadline s.site).0 ≡ deadline_reached)
        ⊎ (ltb (o.now s.site.world) deadline ≡ true)
      → ((next_order_event_before o deadline s.site).0 ≡ deadline_reached)
        ⊎ ((s.is_started || ltb (o.now s.site.world) deadline) ≡ true)
  begun s (inl h) = inl h
  begun s (inr h) = inr (rw h (or-true s.is_started))
