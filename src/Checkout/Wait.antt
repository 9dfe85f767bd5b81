-- ===== src/Checkout/Wait.antt =====
-- From the outcome of an order to its settlement (src/benchmarkservice/locustfile.py,
-- `_wait_for_settlement`, `_track_settlement`, `_fire_settlement` and `checkout`). A tracker that is
-- spawned runs as here, in a world that others have moved on.
pub mod Settled
pub mod Returns
use microservices_demo_nats.Prelude.{
  ℕ, zero, suc, ◌+◌, ◌-◌, min, String, Bool, true, false, ◌||◌, Option, none, some, ltb, leb,
  str_eq, if◌then◌else◌,
}
use microservices_demo_nats.Checkout.Outside.{
  OrderEvent, Heard, event, deadline_reached, protocol_error, ended, interrupted, Outside,
}
use microservices_demo_nats.Checkout.Context.{
  Context, BusinessFailure, failure_message, record_received_failure, Site,
}
use microservices_demo_nats.Checkout.Reconnect.{
  Opened, streaming, refused_for, failing, open_order_event_stream, next_order_event_before,
  close_order_stream,
}
use microservices_demo_nats.Checkout.Outcome.{
  Tracking, CheckoutOutcome, closed, reconnected, checkout_to_outcome,
}
use microservices_demo_nats.Checkout.Settlement.{record_settlement_event}

-- What `_wait_for_settlement` returns, with the context that it has changed.
pub record Waited (W : Type 0) : Type 0 where
  pub context : Context
  pub error : Option BusinessFailure
  pub site : Site W

-- The measurement `checkout_to_settled`.
pub record Measured (W : Type 0) : Type 0 where
  pub context : Context
  pub error : Option BusinessFailure
  pub response_time : ℕ
  pub site : Site W

module _ (o : Outside) (started per_order_deadline deadline : ℕ) where
  abbrev shut : Tracking o.World → Site o.World
  shut s = closed o started per_order_deadline deadline s

  abbrev again : Option ℕ → Tracking o.World → Tracking o.World
  again retry_after s = reconnected o started per_order_deadline deadline retry_after s

  -- The stream is closed on every way out.
  unfoldable pub wait_failed : BusinessFailure → Tracking o.World → Waited o.World
  wait_failed e s = record {
    context = record_received_failure (record s.context { settlement = some e.outcome }) e;
    error = some e;
    site = shut s;
  }

  unfoldable pub wait_settled : Tracking o.World → Waited o.World
  wait_settled s = record {
    context = record s.context { settlement = some "SETTLED" };
    error = none;
    site = shut s;
  }

  unfoldable pub wait_given_up : Tracking o.World → Waited o.World
  wait_given_up s =
      let late = leb (o.drain_deadline s.site.world) per_order_deadline in
      wait_failed (failure_message (if late then "INCOMPLETE" else "SETTLEMENT_TIMEOUT")) s

  abbrev More : Type 0
  More = OrderEvent → Tracking o.World → Option (Waited o.World)

  unfoldable pub wait_heard : More → OrderEvent → Heard → Tracking o.World → Option (Waited o.World)
  wait_heard more order (event e) s = more e (record s { reconnect_attempt = 0 })
  wait_heard more order deadline_reached s = more order s
  wait_heard more order (protocol_error text) s = some (
      wait_failed
        (record {
          outcome = "INVALID_RESPONSE";
          detail = text;
          received = some (o.now s.site.world, o.epoch s.site.world);
        })
        s)
  wait_heard more order ended s = more order (again none s)
  wait_heard more order interrupted s = more order (again none s)

  unfoldable pub wait_listen : More → OrderEvent → Tracking o.World → Option (Waited o.World)
  wait_listen more order s =
      let (heard, site) = next_order_event_before o deadline s.site in
      let is_started = s.is_started || ltb (o.now s.site.world) deadline in
      wait_heard more order heard (record s { site = site; is_started = is_started })

  unfoldable pub wait_dialled :
      More → OrderEvent → Opened → Tracking o.World → Option (Waited o.World)
  wait_dialled more order streaming s =
      wait_listen more order (record s { open_stream = true; is_started = false })
  wait_dialled more order (refused_for t) s = more order (again (some t) s)
  wait_dialled more order (failing e) s = some (wait_failed e s)

  unfoldable pub wait_dial : More → OrderEvent → Tracking o.World → Option (Waited o.World)
  wait_dial more order s =
      let (opened, site) = open_order_event_stream o s.site in
      wait_dialled more order opened (record s { site = site })

  unfoldable pub wait_on : More → OrderEvent → Tracking o.World → Option (Waited o.World)
  wait_on more order s =
      let waiting = if s.open_stream then wait_listen more order s else wait_dial more order s in
      if leb deadline (o.now s.site.world) then some (wait_given_up s) else waiting

  -- One round of `while True`.
  unfoldable pub wait_round : More → OrderEvent → Tracking o.World → Option (Waited o.World)
  wait_round more order s =
      let (settled, context) = record_settlement_event s.context order in
      let s' : Tracking o.World = record s { context = context } in
      if settled then some (wait_settled s') else wait_on more order s'

  -- `none` means that the fuel ran out.
  unfoldable pub wait_rounds : ℕ → OrderEvent → Tracking o.World → Option (Waited o.World)
  wait_rounds zero order s = none
  wait_rounds (suc n) order s = wait_round (wait_rounds n) order s

module _ (o : Outside) (started outcome_timeout settlement_timeout : ℕ) where
  unfoldable pub wait_for_settlement :
      ℕ → OrderEvent → Bool → Bool → Context → Site o.World → Option (Waited o.World)
  wait_for_settlement fuel order open_stream is_started context s =
      let per_order_deadline = started + settlement_timeout in
      let deadline = min per_order_deadline (o.drain_deadline s.world) in
      wait_rounds o started per_order_deadline deadline fuel order (record {
        site = s;
        open_stream = open_stream;
        is_started = is_started;
        reconnect_attempt = 0;
        context = context;
      })

  -- `getattr(error, "received_monotonic", None)`
  abbrev pub error_received : Option BusinessFailure → Option ℕ
  error_received none = none
  error_received (some e) = elim e.received [
    | none ↦ none
    | some (monotonic, epoch) ↦ some monotonic
  ]

  abbrev pub finished : Option ℕ → Option ℕ → ℕ → ℕ
  finished (some t) error_at now = t
  finished none (some t) now = t
  finished none none now = now

  unfoldable pub fire_settlement :
      Context → Option BusinessFailure → Site o.World → Measured o.World
  fire_settlement context error s = record {
    context = context;
    error = error;
    response_time =
        finished context.settlement_received (error_received error) (o.now s.world) - started;
    site = s;
  }

  -- `if "settlement" not in context`
  abbrev pub with_settlement_set : Option String → Context → Context
  with_settlement_set none c = record c { settlement = some "INCOMPLETE" }
  with_settlement_set (some text) c = c

  unfoldable pub tracked : Waited o.World → Measured o.World
  tracked r = fire_settlement (with_settlement_set r.context.settlement r.context) r.error r.site

  abbrev pub tracked_if : Option (Waited o.World) → Option (Measured o.World)
  tracked_if none = none
  tracked_if (some r) = some (tracked r)

  abbrev pub track_settlement :
      ℕ → OrderEvent → Bool → Bool → Context → Site o.World → Option (Measured o.World)
  track_settlement fuel order open_stream is_started context s =
      tracked_if (wait_for_settlement fuel order open_stream is_started context s)

  abbrev or_outcome : Option BusinessFailure → Context → BusinessFailure
  or_outcome none c = failure_message c.outcome
  or_outcome (some e) c = e

  abbrev stopped : CheckoutOutcome o.World → Site o.World
  stopped r = if r.open_stream then close_order_stream o r.is_started r.site else r.site

  unfoldable pub not_completed : CheckoutOutcome o.World → Measured o.World
  not_completed r =
      fire_settlement (record r.context { settlement = some "ORDER_NOT_COMPLETED" })
        (some (or_outcome r.error r.context)) (stopped r)

  abbrev pub pursued :
      ℕ
      → Bool
      → Option OrderEvent
      → Option BusinessFailure
      → CheckoutOutcome o.World
      → Option (Measured o.World)
  pursued fuel false order error r = some (not_completed r)
  pursued fuel true order (some e) r = some (not_completed r)
  pursued fuel true none none r = some (not_completed r)
  pursued fuel true (some order) none r =
      track_settlement fuel order r.open_stream r.is_started r.context r.site

  abbrev pub after_outcome : ℕ → Option (CheckoutOutcome o.World) → Option (Measured o.World)
  after_outcome fuel none = none
  after_outcome fuel (some r) = pursued fuel r.has_location r.order r.error r

  -- With both measurements; `none` means that the fuel ran out.
  unfoldable pub checkout : ℕ → Context → Site o.World → Option (Measured o.World)
  checkout fuel context s =
      after_outcome fuel (checkout_to_outcome o started outcome_timeout fuel context s)
