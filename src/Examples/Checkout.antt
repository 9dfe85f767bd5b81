-- ===== src/Examples/Checkout.antt =====
-- One checkout against a storefront whose answers are listed.
use microservices_demo_nats.Prelude.{
  ℕ, suc, ◌+◌, String, ◌≡◌, refl, true, false, List, [], ◌∷◌, Option, none, some,
}
use microservices_demo_nats.Checkout.Outside.{
  OrderEvent, Heard, event, deadline_reached, ended, Outside,
}
use microservices_demo_nats.Checkout.Context.{
  Context, Recorded, accepted_order, terminal_order, Site,
}
use microservices_demo_nats.Checkout.Reconnect.{
  sse_reconnect_delay, pause, next_order_event_before, open_order_event_stream,
}
use microservices_demo_nats.Checkout.Outcome.{
  checkout_to_outcome, posted_checkout, accepted_checkout, follow, round, dial, dialled, listen,
  listened, hear, arrive, reconnect, give_up, fail,
}
use microservices_demo_nats.Checkout.Settlement.{
  is_notified, is_cart_cleared, record_settlement_event, with_statuses, with_notification,
  with_notification_failure, with_cart_clear, with_cart_clear_failure, with_settlement,
}
use microservices_demo_nats.Checkout.Settlement.Receipts.{
  record_settlement_events, first_such, record_settlement_events-first,
}
use microservices_demo_nats.Checkout.Wait.{
  Measured, checkout, fire_settlement, wait_for_settlement, wait_rounds, wait_round, wait_on,
  wait_listen, wait_heard, wait_settled, tracked, not_completed,
}

-- The time, and what the streams have still to say: `none` is the end of a stream.
abbrev Script : Type 0
Script = ℕ × List (Option OrderEvent)

abbrev told : ℕ → Script → Heard × Script
told limit (t, []) = (deadline_reached, (t + limit, []))
told limit (t, none ∷ hs) = (ended, (suc t, hs))
told limit (t, some e ∷ hs) = (event e, (suc t, hs))

abbrev storefront : Outside
storefront = record {
  World = Script;
  now = λ w. w.0;
  epoch = λ w. w.0;
  drain_deadline = λ w. 1000;
  post_checkout = λ w. (
    record {
      status_code = 202;
      location = some "/orders/1";
      location_error = none;
      order_id = some "1";
    },
    w,
  );
  connect = λ w. (
    record {
      status_code = 200;
      retry_after = none;
      content_type = "'text/event-stream'";
      is_event_stream = true;
    },
    w,
  );
  next_event = told;
  sleep = λ t w. (w.0 + t, w.1);
  uniform = λ low high w. (low, w);
  show = λ n. "";
}

abbrev new_context : Context
new_context = record {
  accepted = false;
  outcome = "UNKNOWN";
  order_id = none;
  failure_code = none;
  safe_message = none;
  outcome_at = none;
  outcome_transport = none;
  outcome_receipt = none;
  failure_receipt = none;
  failure_message = none;
  settlement = none;
  notification_status = none;
  cart_clear_status = none;
  cart_clear_failure_code = none;
  settlement_transport = none;
  notification_receipt = none;
  notification_failure_receipt = none;
  notification_failure_message = none;
  cart_clear_receipt = none;
  cart_clear_failure_receipt = none;
  cart_clear_failure_message = none;
  settlement_receipt = none;
  settlement_received = none;
}

abbrev order : String → String → String → ℕ → OrderEvent
order status notification cart t = record {
  order_id = "1";
  status = status;
  failure_code = none;
  safe_message = none;
  outcome_at = none;
  notification_status = notification;
  cart_clear_status = cart;
  cart_clear_failure_code = none;
  received_monotonic = t;
  received_epoch = t;
  event_id = none;
}

abbrev site : List (Option OrderEvent) → Site Script
site events = record { world = (0, events); recorded = []; streams = 0 }

abbrev pub delivered : List (Option OrderEvent)
delivered =
    some (order "PENDING" "" "" 1)
    ∷ some (order "COMPLETED" "" "" 2)
    ∷ some (order "COMPLETED" "SENT" "" 3)
    ∷ some (order "COMPLETED" "SENT" "SUCCEEDED" 4)
    ∷ []

abbrev pub measured : List (Option OrderEvent) → Option (Measured Script)
measured events = checkout storefront 0 100 200 201 new_context (site events)

-- The settlement, what was recorded and the streams left open.
abbrev shown : Option (Measured Script) → Option String × (List (Option String) × ℕ)
shown none = (none, ([], 9))
shown (some m) = (m.context.settlement, (names m.site.recorded, m.site.streams))
  where
    names : List Recorded → List (Option String)
    names [] = []
    names (accepted_order ∷ rs) = none ∷ names rs
    names (terminal_order outcome ∷ rs) = some outcome ∷ names rs

abbrev later_events : List OrderEvent
later_events = order "COMPLETED" "SENT" "" 3 ∷ order "COMPLETED" "SENT" "SUCCEEDED" 4 ∷ []

record_settlement_events-first_example :
    let c = record_settlement_events new_context later_events in
    (c.notification_receipt ≡ first_such is_notified later_events)
    × (c.cart_clear_receipt ≡ first_such is_cart_cleared later_events)
    × (c.accepted ≡ false)
    × (c.outcome ≡ "UNKNOWN")
record_settlement_events-first_example =
    record_settlement_events-first new_context later_events refl refl

first_receipts :
    (first_such is_notified later_events ≡ some (record { received_epoch = 3; event_id = none }))
    × (first_such is_cart_cleared later_events
        ≡ some (record { received_epoch = 4; event_id = none }))
first_receipts = (refl, refl)

settled_run : shown (measured delivered) ≡ (some "SETTLED", (none ∷ some "COMPLETED" ∷ [], 0))
unfolding checkout checkout_to_outcome posted_checkout accepted_checkout follow round dial dialled
    listen listened hear arrive next_order_event_before open_order_event_stream fire_settlement
    wait_for_settlement wait_rounds wait_round wait_on wait_listen wait_heard wait_settled tracked
    record_settlement_event with_statuses with_notification with_notification_failure
    with_cart_clear with_cart_clear_failure with_settlement
settled_run = refl

-- The stream ends, and no event comes any more: the order is given up.
abandoned_run :
    shown (measured (some (order "PENDING" "" "" 1) ∷ none ∷ []))
    ≡ (some "ORDER_NOT_COMPLETED", (none ∷ some "TIMEOUT" ∷ [], 0))
unfolding checkout checkout_to_outcome posted_checkout accepted_checkout follow round dial dialled
    listen listened hear reconnect pause sse_reconnect_delay give_up fail next_order_event_before
    open_order_event_stream not_completed fire_settlement
abandoned_run = refl
