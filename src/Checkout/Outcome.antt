-- ===== src/Checkout/Outcome.antt =====
-- The outcome of an order (src/benchmarkservice/locustfile.py, `_checkout_to_outcome`).
pub mod Ends
pub mod Closings
pub mod Steps
pub mod Settles
use microservices_demo_nats.Prelude.{
  ℕ, zero, suc, ◌+◌, ◌-◌, min, String, Bool, true, false, not, ◌&&◌, ◌||◌, List, [], ◌∷◌, ◌++◌,
  Option, none, some, ltb, leb, ◌==◌, elem, str_eq, if◌then◌else◌,
}
use microservices_demo_nats.Checkout.Outside.{
  Posted, OrderEvent, Heard, event, deadline_reached, protocol_error, ended, interrupted, Outside,
}
use microservices_demo_nats.Checkout.Context.{
  Context, BusinessFailure, failure_message, http_status_failure, is_truthy, receipt_context,
  record_received_failure, terminal_order_statuses, Recorded, accepted_order, terminal_order, Site,
}
use microservices_demo_nats.Checkout.Reconnect.{
  Opened, streaming, refused_for, failing, open_order_event_stream, next_order_event_before, pause,
  close_order_stream,
}

-- The variables of the loop: whether `stream` is there, and has been read from, `reconnect_attempt` and
-- the context.
pub record Tracking (W : Type 0) : Type 0 where
  pub site : Site W
  pub open_stream : Bool
  pub is_started : Bool
  pub reconnect_attempt : ℕ
  pub context : Context

-- What is returned, with the measured time and exception (which is the returned error).
pub record CheckoutOutcome (W : Type 0) : Type 0 where
  pub context : Context
  pub order : Option OrderEvent
  pub has_location : Bool
  pub open_stream : Bool
  pub is_started : Bool
  pub error : Option BusinessFailure
  pub response_time : Option ℕ
  pub site : Site W

abbrev pub noted : {W : Type 0} → Recorded → Site W → Site W
noted r s = record s { recorded = s.recorded ++ r ∷ [] }

abbrev pub is_terminal : String → Bool
is_terminal status = elem status terminal_order_statuses

-- `order.get("safe_message") or order.get("failure_code") or ""`
abbrev pub detail_of : OrderEvent → String
detail_of e =
    if is_truthy e.safe_message
    then text_of e.safe_message
    else if is_truthy e.failure_code
    then text_of e.failure_code
    else ""
  where
    text_of : Option String → String
    text_of none = ""
    text_of (some s) = s

abbrev pub failed_order : OrderEvent → BusinessFailure
failed_order e = record {
  outcome = e.status;
  detail = detail_of e;
  received = some (e.received_monotonic, e.received_epoch);
}

abbrev pub mismatches : Option String → String → Bool
mismatches none got = false
mismatches (some expected) got = not (str_eq expected "") && not (str_eq got expected)

module _ (o : Outside) (started per_order_deadline deadline : ℕ) where
  abbrev pub latency : Option (ℕ × ℕ) → Option ℕ
  latency none = none
  latency (some (monotonic, epoch)) = some (monotonic - started)

  -- `close_order_stream(stream)`, where there is one
  abbrev pub closed : Tracking o.World → Site o.World
  closed s = if s.open_stream then close_order_stream o s.is_started s.site else s.site

  -- The order failed: it is terminal for the recorder.
  unfoldable pub fail : BusinessFailure → Tracking o.World → CheckoutOutcome o.World
  fail e s = record {
    context = record_received_failure (record s.context { outcome = e.outcome }) e;
    order = none;
    has_location = true;
    open_stream = false;
    is_started = false;
    error = some e;
    response_time = latency e.received;
    site = noted (terminal_order e.outcome) (closed s);
  }

  unfoldable pub give_up : Tracking o.World → CheckoutOutcome o.World
  give_up s =
      let late = leb (o.drain_deadline s.site.world) per_order_deadline in
      fail (failure_message (if late then "INCOMPLETE" else "TIMEOUT")) s

  abbrev pub with_order : OrderEvent → Context → Context
  with_order e c = record c {
    outcome = e.status;
    order_id = some e.order_id;
    failure_code = e.failure_code;
    safe_message = e.safe_message;
    outcome_at = e.outcome_at;
    outcome_transport = some "SSE";
    outcome_receipt = receipt_context c.outcome_receipt e.received_epoch e.event_id;
  }

  -- The order has one of the terminal statuses.
  unfoldable pub arrive : OrderEvent → Tracking o.World → CheckoutOutcome o.World
  arrive e s =
      let received : ℕ × ℕ = (e.received_monotonic, e.received_epoch) in
      let context = with_order e s.context in
      let error = failed_order e in
      if str_eq e.status "COMPLETED"
      then record {
        context = context;
        order = some e;
        has_location = true;
        open_stream = s.open_stream;
        is_started = s.is_started;
        error = none;
        response_time = latency (some received);
        site = noted (terminal_order e.status) s.site;
      }
      else record {
        context = record_received_failure context error;
        order = some e;
        has_location = true;
        open_stream = false;
        is_started = false;
        error = some error;
        response_time = latency (some received);
        site = noted (terminal_order e.status) (closed s);
      }

  abbrev More : Type 0
  More = Tracking o.World → Option (CheckoutOutcome o.World)

  -- The stream is closed, and opened again after a pause.
  abbrev pub reconnected : Option ℕ → Tracking o.World → Tracking o.World
  reconnected retry_after s = record s {
    site = pause o deadline s.reconnect_attempt retry_after (closed s);
    open_stream = false;
    is_started = false;
    reconnect_attempt = suc s.reconnect_attempt;
  }

  unfoldable pub reconnect : More → Option ℕ → Tracking o.World → Option (CheckoutOutcome o.World)
  reconnect more retry_after s = more (reconnected retry_after s)

  unfoldable pub hear : More → OrderEvent → Tracking o.World → Option (CheckoutOutcome o.World)
  hear more e s =
      if mismatches s.context.order_id e.order_id
      then some (
          fail
            (record {
              outcome = "INVALID_RESPONSE";
              detail = "order event ID does not match accepted order";
              received = some (e.received_monotonic, e.received_epoch);
            })
            s)
      else if is_terminal e.status
      then some (arrive e s)
      else more (record s { reconnect_attempt = 0 })

  unfoldable pub listened : More → Heard → Tracking o.World → Option (CheckoutOutcome o.World)
  listened more (event e) s = hear more e s
  listened more deadline_reached s = some (give_up s)
  listened more (protocol_error text) s = some (
      fail
        (record {
          outcome = "INVALID_RESPONSE";
          detail = text;
          received = some (o.now s.site.world, o.epoch s.site.world);
        })
        s)
  listened more ended s = reconnect more none s
  listened more interrupted s = reconnect more none s

  unfoldable pub listen : More → Tracking o.World → Option (CheckoutOutcome o.World)
  listen more s =
      let (heard, site) = next_order_event_before o deadline s.site in
      let is_started = s.is_started || ltb (o.now s.site.world) deadline in
      listened more heard (record s { site = site; is_started = is_started })

  -- The new stream is read in the same round.
  unfoldable pub dialled : More → Opened → Tracking o.World → Option (CheckoutOutcome o.World)
  dialled more streaming s = listen more (record s { open_stream = true; is_started = false })
  dialled more (refused_for t) s = reconnect more (some t) s
  dialled more (failing e) s = some (fail e s)

  unfoldable pub dial : More → Tracking o.World → Option (CheckoutOutcome o.World)
  dial more s =
      let (opened, site) = open_order_event_stream o s.site in
      dialled more opened (record s { site = site })

  -- One round of `while time.monotonic() < deadline`.
  unfoldable pub round : More → Tracking o.World → Option (CheckoutOutcome o.World)
  round more s =
      let waiting = if s.open_stream then listen more s else dial more s in
      if ltb (o.now s.site.world) deadline then waiting else some (give_up s)

  -- `none` means that the fuel ran out.
  unfoldable pub follow : ℕ → Tracking o.World → Option (CheckoutOutcome o.World)
  follow zero s = none
  follow (suc n) s = round (follow n) s

abbrev pub not_accepted : {W : Type 0} → BusinessFailure → Context → Site W → CheckoutOutcome W
not_accepted e context s = record {
  context = record context { outcome = e.outcome };
  order = none;
  has_location = false;
  open_stream = false;
  is_started = false;
  error = some e;
  response_time = none;
  site = s;
}

abbrev pub invalid_location : String → BusinessFailure
invalid_location text = record { outcome = "INVALID_RESPONSE"; detail = text; received = none }

module _ (o : Outside) (started outcome_timeout : ℕ) where
  -- From the acceptance on.
  unfoldable pub accepted_checkout :
      ℕ → Posted → Context → Site o.World → Option (CheckoutOutcome o.World)
  accepted_checkout fuel posted context s =
      let context' = record context { accepted = true; order_id = posted.order_id } in
      let s' = noted accepted_order s in
      let per_order_deadline = started + outcome_timeout in
      let deadline = min per_order_deadline (o.drain_deadline s.world) in
      elim posted.location_error [
        | some text ↦
            let e = invalid_location text in
            some (not_accepted e context' (noted (terminal_order e.outcome) s'))
        | none ↦ follow o started per_order_deadline deadline fuel (record {
          site = s';
          open_stream = false;
          is_started = false;
          reconnect_attempt = 0;
          context = context';
        })
      ]

  unfoldable pub posted_checkout :
      ℕ → Posted → Context → Site o.World → Option (CheckoutOutcome o.World)
  posted_checkout fuel posted context s =
      if not (posted.status_code == 202)
      then some (
          not_accepted
            (http_status_failure o.show posted.status_code "HTTP_FAILURE" "checkout request" none)
            context s)
      else if is_truthy posted.location
      then accepted_checkout fuel posted context s
      else some (not_accepted (invalid_location "Location is missing") context s)

  unfoldable pub checkout_to_outcome : ℕ → Context → Site o.World → Option (CheckoutOutcome o.World)
  checkout_to_outcome fuel context s =
      let (posted, w) = o.post_checkout s.world in
      posted_checkout fuel posted context (record s { world = w })
