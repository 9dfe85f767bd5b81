-- ===== src/Checkout/Outcome/Steps.antt =====
-- What each step of the loop over an order's events keeps, and how it ends.
use microservices_demo_nats.Prelude.{
  ℕ, zero, suc, ◌+◌, ◌-◌, ◌≤◌, ◌<◌, ◌≡◌, refl, ◌∙◌, inl, inr, Bool, true, false, List, [], ◌∷◌,
  ◌++◌, Option, none, some, ltb, ltb→lt, Bool-cases, ◌⊎◌, elem_later, if◌then◌else◌, arith,
}
use microservices_demo_nats.Checkout.Outside.{
  OrderEvent, Heard, event, deadline_reached, protocol_error, ended, interrupted, Outside, IsTimely,
}
use microservices_demo_nats.Checkout.Context.{Recorded, terminal_order_statuses}
use microservices_demo_nats.Checkout.Reconnect.{
  Opened, streaming, refused_for, failing, is_streaming, open_passes, open_streams, open_recorded,
  next_passes, next_called, next_read, next_keeps,
}
use microservices_demo_nats.Checkout.Reconnect.Answers.{stream_failures, Known, open-Known}
use microservices_demo_nats.Checkout.Outcome.{
  Tracking, CheckoutOutcome, is_terminal, mismatches, reconnect, hear, listened, listen, dialled,
  dial, round, follow,
}
use microservices_demo_nats.Checkout.Outcome.Ends.{Kept, Done, Finishes, finishes}
use microservices_demo_nats.Checkout.Outcome.Closings.{
  read-Done, give_up-Done, arrive-Done, reconnected-Kept, begun,
}

module _ (o : Outside) (timely : IsTimely o) (started per_order deadline : ℕ) (base : ℕ)
    (before : List Recorded) (accepted : Bool) where
  abbrev K : Tracking o.World → Type 0
  K = Kept o base before accepted

  abbrev D : CheckoutOutcome o.World → Type 0
  D = Done o base before accepted

  abbrev Fin : Option (CheckoutOutcome o.World) → Type 0
  Fin = Finishes o base before accepted

  either :
      (b : Bool) (x y : Option (CheckoutOutcome o.World))
      → (b ≡ true → Fin x)
      → (b ≡ false → Fin y)
      → Fin (if b then x else y)
  either true x y f g = f refl
  either false x y f g = g refl

  module _ (t : ℕ) (soon : t < deadline)
      (more : Tracking o.World → Option (CheckoutOutcome o.World))
      (good : (s : Tracking o.World)
        → K s
        → (s.open_stream ≡ true → s.is_started ≡ true)
        → t < o.now s.site.world
        → Fin (more s)) where
    reconnect-Finishes :
        (retry_after : Option ℕ) (s : Tracking o.World)
        → K s
        → (s.open_stream ≡ true → s.is_started ≡ true)
        → t ≤ o.now s.site.world
        → Fin (reconnect o started per_order deadline more retry_after s)
    unfolding reconnect
    reconnect-Finishes retry_after s k read passed =
        let (kept, passes) =
          reconnected-Kept o timely started per_order deadline base before accepted t soon
            retry_after s k read passed in
        good _ kept (λ h. absurd (cc (h))) passes

    hear-Finishes :
        (e : OrderEvent) (s : Tracking o.World)
        → K s
        → (s.open_stream ≡ true → s.is_started ≡ true)
        → t < o.now s.site.world
        → Fin (hear o started per_order deadline more e s)
    unfolding hear
    hear-Finishes e s k read passed = elim (Bool-cases (mismatches s.context.order_id e.order_id)) [
      | inl wrong ↦ rw wrong (
          finishes
            (read-Done o timely started per_order deadline base before accepted _ s refl k read))
      | inr right ↦ elim (Bool-cases (is_terminal e.status)) [
        | inl last ↦ rw right (
            rw last (
              finishes (
                arrive-Done o timely started per_order deadline base before accepted e s last k
                  read)))
        | inr other ↦ rw right (
            rw other (
              good _ (record { recorded = k.recorded; streams = k.streams; same = k.same }) read
                passed))
      ]
    ]

    listened-Finishes :
        (heard : Heard) (s : Tracking o.World)
        → K s
        → (heard ≡ deadline_reached) ⊎ (s.is_started ≡ true)
        → t ≤ o.now s.site.world
        → ((e : OrderEvent) → heard ≡ event e → t < o.now s.site.world)
        → Fin (listened o started per_order deadline more heard s)
    unfolding listened
    listened-Finishes deadline_reached s k begun passed read =
        finishes (give_up-Done o timely started per_order deadline base before accepted s k)
    listened-Finishes (event e) s k (inl no_more) passed read = absurd (cc (no_more))
    listened-Finishes (event e) s k (inr begun) passed read =
        hear-Finishes e s k (λ h. begun) (read e refl)
    listened-Finishes (protocol_error text) s k (inl no_more) passed read = absurd (cc (no_more))
    listened-Finishes (protocol_error text) s k (inr begun) passed read =
        finishes (
          read-Done o timely started per_order deadline base before accepted _ s refl k
            (λ h. begun))
    listened-Finishes ended s k (inl no_more) passed read = absurd (cc (no_more))
    listened-Finishes ended s k (inr begun) passed read =
        reconnect-Finishes none s k (λ h. begun) passed
    listened-Finishes interrupted s k (inl no_more) passed read = absurd (cc (no_more))
    listened-Finishes interrupted s k (inr begun) passed read =
        reconnect-Finishes none s k (λ h. begun) passed

    listen-Finishes :
        (s : Tracking o.World)
        → K s
        → t ≤ o.now s.site.world
        → Fin (listen o started per_order deadline more s)
    unfolding listen
    listen-Finishes s k passed =
        let held = next_keeps o timely deadline s.site in
        let later = next_passes o timely deadline s.site in
        listened-Finishes _ _
          (record { recorded = held.0 ∙ k.recorded; streams = held.1 ∙ k.streams; same = k.same })
          (begun o timely started per_order deadline base before accepted s
            (next_called o timely deadline s.site))
          (omega (arith, later, passed))
          (λ e h. let read = next_read o timely deadline s.site e h in omega (arith, read, passed))

    dialled-Finishes :
        (opening : Opened) (s : Tracking o.World)
        → Known o opening
        → s.open_stream ≡ false
        → s.site.recorded ≡ before
        → s.site.streams ≡ base + (if is_streaming opening then 1 else 0)
        → s.context.accepted ≡ accepted
        → t ≤ o.now s.site.world
        → Fin (dialled o started per_order deadline more opening s)
    unfolding dialled
    dialled-Finishes streaming s known shut recorded streams same passed =
        listen-Finishes _ (record { recorded = recorded; streams = streams; same = same }) passed
    dialled-Finishes (refused_for r) s known shut recorded streams same passed =
        reconnect-Finishes (some r) s
          (record { recorded = recorded; streams = rw shut streams; same = same })
          (λ h. absurd (cc (h, shut))) passed
    dialled-Finishes (failing e) s known shut recorded streams same passed = finishes (
        read-Done o timely started per_order deadline base before accepted e s
          (elem_later e.outcome (terminal_order_statuses ++ "INCOMPLETE" ∷ []) stream_failures
            known)
          (record { recorded = recorded; streams = rw shut streams; same = same })
          (λ h. absurd (cc (h, shut))))

    round-Finishes :
        (s : Tracking o.World)
        → K s
        → t ≡ o.now s.site.world
        → Fin (
            if s.open_stream
            then listen o started per_order deadline more s
            else dial o started per_order deadline more s)
    unfolding dial
    round-Finishes s k now =
        either s.open_stream _ _ (λ e. listen-Finishes s k (omega (arith, now)))
          λ e.
            let shut : s.site.streams ≡ base + 0 = rw e at k.streams in
            let streams = open_streams o timely s.site in
            let later = open_passes o timely s.site in
            dialled-Finishes _ _ (open-Known o s.site) e
              (open_recorded o timely s.site ∙ k.recorded) (omega (arith, streams, shut)) k.same
              (omega (arith, now, later))

  -- The fuel is enough if it is more than the time to the deadline.
  pub follow-Finishes :
      (n : ℕ) (s : Tracking o.World)
      → K s
      → (s.open_stream ≡ true → s.is_started ≡ true)
      → deadline - o.now s.site.world < n
      → Fin (follow o started per_order deadline n s)
  unfolding follow round
  follow-Finishes zero s k read enough = absurd (omega (arith, enough))
  follow-Finishes (suc n) s k read enough = elim (Bool-cases (ltb (o.now s.site.world) deadline)) [
    | inl e ↦
        let soon : o.now s.site.world < deadline = ltb→lt _ deadline e in
        rw e (
          round-Finishes (o.now s.site.world) soon (follow o started per_order deadline n)
            (λ u q started_too later.
              follow-Finishes n u q started_too (omega (arith, later, soon, enough)))
            s k refl)
    | inr e ↦
        rw e (finishes (give_up-Done o timely started per_order deadline base before accepted s k))
  ]
