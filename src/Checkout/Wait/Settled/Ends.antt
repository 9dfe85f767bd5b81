-- ===== src/Checkout/Wait/Settled/Ends.antt =====
-- Each round of the wait for a settlement keeps what it found, and the wait ends.
use microservices_demo_nats.Prelude.{
  ℕ, ◌+◌, ◌≤◌, ◌<◌, String, ◌≡◌, refl, ◌∙◌, ◌⊎◌, inl, inr, Bool, true, false, List, [], ◌∷◌, Option,
  none, some, leb, Bool-cases, elem, elem_later, if◌then◌else◌, arith,
}
use microservices_demo_nats.Checkout.Outside.{
  OrderEvent, Heard, event, deadline_reached, protocol_error, ended, interrupted, Outside, IsTimely,
}
use microservices_demo_nats.Checkout.Context.{Context, failure_message, BusinessFailure, Recorded}
use microservices_demo_nats.Checkout.Reconnect.{
  Opened, streaming, refused_for, failing, is_streaming, open_passes, open_streams, open_recorded,
  next_called, next_passes, next_read, next_keeps, next_waited,
}
use microservices_demo_nats.Checkout.Reconnect.Answers.{stream_failures, Known, open-Known}
use microservices_demo_nats.Checkout.Outcome.{Tracking, closed, reconnected}
use microservices_demo_nats.Checkout.Outcome.Ends.{Left, released, left_plain, Kept, received_same}
use microservices_demo_nats.Checkout.Outcome.Closings.{
  closed_same, left_given_up, begun, closed-Kept, reconnected-Kept,
}
use microservices_demo_nats.Checkout.Settlement.{is_settling}
use microservices_demo_nats.Checkout.Settlement.Receipts.{statuses}
use microservices_demo_nats.Checkout.Wait.{
  Waited, wait_failed, wait_settled, wait_given_up, wait_heard, wait_listen, wait_dialled,
  wait_dial,
}
use microservices_demo_nats.Checkout.Wait.Settled.{
  has_settled, wait_failures, Concludes, settles, gives_up,
}

module _ (o : Outside) (base : ℕ) (before : List Recorded) (accepted : Bool) (wanted : String) where
  pub record Waiting (s : Tracking o.World) : Type 0 where
    pub kept : Kept o base before accepted s
    pub outcome : s.context.outcome ≡ wanted

  pub record Over (r : Waited o.World) : Type 0 where
    pub recorded : r.site.recorded ≡ before
    pub streams : Left base r.error r.site.streams
    pub same : r.context.accepted ≡ accepted
    pub outcome : r.context.outcome ≡ wanted
    pub concludes : Concludes r.context r.error

  pub data Waits : Option (Waited o.World) → Type 0 where
    waits : {r : Waited o.World} → Over r → Waits (some r)

  -- Between two rounds an open stream has been read from, or the deadline has passed with the order not
  -- settled.
  pub data Ready (deadline : ℕ) (order : OrderEvent) (s : Tracking o.World) : Type 0 where
    started_well : (s.open_stream ≡ true → s.is_started ≡ true) → Ready deadline order s
    too_late : deadline ≤ o.now s.site.world → is_settling order ≡ false → Ready deadline order s

module _ (o : Outside) (timely : IsTimely o) (started per_order deadline : ℕ) (base : ℕ)
    (before : List Recorded) (accepted : Bool) (wanted : String) where
  abbrev K : Tracking o.World → Type 0
  K = Waiting o base before accepted wanted

  abbrev End : Option (Waited o.World) → Type 0
  End = Waits o base before accepted wanted

  abbrev More : Type 0
  More = OrderEvent → Tracking o.World → Option (Waited o.World)

  either :
      (b : Bool) (x y : Option (Waited o.World))
      → (b ≡ true → End x)
      → (b ≡ false → End y)
      → End (if b then x else y)
  either true x y f g = f refl
  either false x y f g = g refl

  failed-Waits :
      (e : BusinessFailure) (s : Tracking o.World)
      → K s
      → Left base (some e) (closed o started per_order deadline s).streams
      → elem e.outcome wait_failures ≡ true
      → End (some (wait_failed o started per_order deadline e s))
  unfolding wait_failed
  failed-Waits e s k left known =
      let same = closed_same o timely started per_order deadline base before accepted s in
      let c : Context = record s.context { settlement = some e.outcome } in
      waits (record {
        recorded = same.0 ∙ k.kept.recorded;
        streams = left;
        same = received_same (λ c. c.accepted) (λ c r m. refl) c e ∙ k.kept.same;
        outcome = received_same (λ c. c.outcome) (λ c r m. refl) c e ∙ k.outcome;
        concludes = gives_up e (received_same (λ c. c.settlement) (λ c r m. refl) c e) known;
      })

  read-Waits :
      (e : BusinessFailure) (s : Tracking o.World)
      → K s
      → (s.open_stream ≡ true → s.is_started ≡ true)
      → elem e.outcome wait_failures ≡ true
      → End (some (wait_failed o started per_order deadline e s))
  read-Waits e s k read known =
      let shut =
        closed-Kept o timely started per_order deadline base before accepted s k.kept read in
      failed-Waits e s k (released shut.0) known

  pub settled-Waits :
      (s : Tracking o.World)
      → K s
      → (s.open_stream ≡ true → s.is_started ≡ true)
      → has_settled (statuses s.context) ≡ true
      → End (some (wait_settled o started per_order deadline s))
  unfolding wait_settled
  settled-Waits s k read settled =
      let (streams, recorded, world) =
        closed-Kept o timely started per_order deadline base before accepted s k.kept read in
      waits (record {
        recorded = recorded;
        streams = released streams;
        same = k.kept.same;
        outcome = k.outcome;
        concludes = settles refl settled;
      })

  left :
      (e : BusinessFailure) (s : Tracking o.World)
      → K s
      → elem e.outcome ("INCOMPLETE" ∷ "TIMEOUT" ∷ "SETTLEMENT_TIMEOUT" ∷ []) ≡ true
      → Left base (some e) (closed o started per_order deadline s).streams
  left e s k h =
      left_plain
        (left_given_up o timely started per_order deadline base before accepted e s k.kept h)

  pub given_up-Waits :
      (s : Tracking o.World) → K s → End (some (wait_given_up o started per_order deadline s))
  unfolding wait_given_up
  given_up-Waits s k = elim (Bool-cases (leb (o.drain_deadline s.site.world) per_order)) [
    | inl e ↦ rw e (failed-Waits (failure_message "INCOMPLETE") s k (left _ s k refl) refl)
    | inr e ↦ rw e (failed-Waits (failure_message "SETTLEMENT_TIMEOUT") s k (left _ s k refl) refl)
  ]

  module _ (t : ℕ) (soon : t < deadline) (more : More)
      (good : (e : OrderEvent) (s : Tracking o.World)
        → K s
        → Ready o base before accepted wanted deadline e s
        → t < o.now s.site.world
        → End (more e s)) where
    again-Waits :
        (order : OrderEvent) (retry_after : Option ℕ) (s : Tracking o.World)
        → K s
        → (s.open_stream ≡ true → s.is_started ≡ true)
        → t ≤ o.now s.site.world
        → End (more order (reconnected o started per_order deadline retry_after s))
    again-Waits order retry_after s k read passed =
        let (kept, passes) =
          reconnected-Kept o timely started per_order deadline base before accepted t soon
            retry_after s k.kept read passed in
        good order _ (record { kept = kept; outcome = k.outcome })
          (started_well λ h. absurd (cc (h))) passes

    heard-Waits :
        (order : OrderEvent) (heard : Heard) (s : Tracking o.World)
        → K s
        → is_settling order ≡ false
        → (heard ≡ deadline_reached) ⊎ (s.is_started ≡ true)
        → t ≤ o.now s.site.world
        → ((e : OrderEvent) → heard ≡ event e → t < o.now s.site.world)
        → (heard ≡ deadline_reached → deadline ≤ o.now s.site.world)
        → End (wait_heard o started per_order deadline more order heard s)
    unfolding wait_heard
    heard-Waits order deadline_reached s k open_yet begun passed read waited =
        let late = waited refl in
        good order s k (too_late late open_yet) (omega (arith, late, soon))
    heard-Waits order (event e) s k open_yet (inl no_more) passed read waited =
        absurd (cc (no_more))
    heard-Waits order (event e) s k open_yet (inr begun) passed read waited =
        good e _
          (record {
            kept = record {
              recorded = k.kept.recorded;
              streams = k.kept.streams;
              same = k.kept.same;
            };
            outcome = k.outcome;
          })
          (started_well λ h. begun) (read e refl)
    heard-Waits order (protocol_error text) s k open_yet (inl no_more) passed read waited =
        absurd (cc (no_more))
    heard-Waits order (protocol_error text) s k open_yet (inr begun) passed read waited =
        read-Waits _ s k (λ h. begun) refl
    heard-Waits order ended s k open_yet (inl no_more) passed read waited = absurd (cc (no_more))
    heard-Waits order ended s k open_yet (inr begun) passed read waited =
        again-Waits order none s k (λ h. begun) passed
    heard-Waits order interrupted s k open_yet (inl no_more) passed read waited =
        absurd (cc (no_more))
    heard-Waits order interrupted s k open_yet (inr begun) passed read waited =
        again-Waits order none s k (λ h. begun) passed

    listen-Waits :
        (order : OrderEvent) (s : Tracking o.World)
        → K s
        → is_settling order ≡ false
        → t ≤ o.now s.site.world
        → End (wait_listen o started per_order deadline more order s)
    unfolding wait_listen
    listen-Waits order s k open_yet passed =
        let held = next_keeps o timely deadline s.site in
        let passes = next_passes o timely deadline s.site in
        heard-Waits order _ _
          (record {
            kept = record {
              recorded = held.0 ∙ k.kept.recorded;
              streams = held.1 ∙ k.kept.streams;
              same = k.kept.same;
            };
            outcome = k.outcome;
          })
          open_yet
          (begun o timely started per_order deadline base before accepted s
            (next_called o timely deadline s.site))
          (omega (arith, passes, passed))
          (λ e h. let read = next_read o timely deadline s.site e h in omega (arith, read, passed))
          (next_waited o timely deadline s.site)

    dialled-Waits :
        (order : OrderEvent) (opening : Opened) (s : Tracking o.World)
        → Known o opening
        → is_settling order ≡ false
        → s.open_stream ≡ false
        → s.site.recorded ≡ before
        → s.site.streams ≡ base + (if is_streaming opening then 1 else 0)
        → s.context.accepted ≡ accepted
        → s.context.outcome ≡ wanted
        → t ≤ o.now s.site.world
        → End (wait_dialled o started per_order deadline more order opening s)
    unfolding wait_dialled
    dialled-Waits order streaming s known open_yet shut recorded streams same out passed =
        listen-Waits order _
          (record {
            kept = record { recorded = recorded; streams = streams; same = same };
            outcome = out;
          })
          open_yet passed
    dialled-Waits order (refused_for r) s known open_yet shut recorded streams same out passed =
        again-Waits order (some r) s
          (record {
            kept = record { recorded = recorded; streams = rw shut streams; same = same };
            outcome = out;
          })
          (λ h. absurd (cc (h, shut))) passed
    dialled-Waits order (failing e) s among open_yet shut recorded streams same out passed =
        read-Waits e s
          (record {
            kept = record { recorded = recorded; streams = rw shut streams; same = same };
            outcome = out;
          })
          (λ h. absurd (cc (h, shut)))
          (elem_later e.outcome ("INCOMPLETE" ∷ "SETTLEMENT_TIMEOUT" ∷ []) stream_failures among)

    pub waiting-Waits :
        (order : OrderEvent) (s : Tracking o.World)
        → K s
        → is_settling order ≡ false
        → t ≡ o.now s.site.world
        → End (
            if s.open_stream
            then wait_listen o started per_order deadline more order s
            else wait_dial o started per_order deadline more order s)
    unfolding wait_dial
    waiting-Waits order s k open_yet now =
        either s.open_stream _ _ (λ e. listen-Waits order s k open_yet (omega (arith, now)))
          λ e.
            let shut : s.site.streams ≡ base + 0 = rw e at k.kept.streams in
            let streams = open_streams o timely s.site in
            let passes = open_passes o timely s.site in
            dialled-Waits order _ _ (open-Known o s.site) open_yet e
              (open_recorded o timely s.site ∙ k.kept.recorded) (omega (arith, streams, shut))
              k.kept.same k.outcome (omega (arith, now, passes))
