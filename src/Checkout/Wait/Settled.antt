-- ===== src/Checkout/Wait/Settled.antt =====
-- What each step of the wait for a settlement keeps, and how it ends.
pub mod Ends
pub mod Rounds
use microservices_demo_nats.Prelude.{
  ℕ, zero, suc, ◌+◌, ◌-◌, ◌≤◌, ◌<◌, min, String, ◌≡◌, refl, sym, ◌∙◌, ap, inl, inr, Bool, true,
  false, ◌&&◌, ◌||◌, List, [], ◌∷◌, ◌++◌, Option, none, some, ltb, leb, ltb→lt, lt→ltb, Bool-cases,
  and_parts, elem, str_eq, ◌==◌, str_eq_iff, if◌then◌else◌, arith,
}
use microservices_demo_nats.Checkout.Outside.{
  Response, OrderEvent, Heard, event, deadline_reached, protocol_error, ended, interrupted, Outside,
  IsTimely,
}
use microservices_demo_nats.Checkout.Context.{
  Context, BusinessFailure, http_status_failure, failure_message, receipt_context,
  record_received_failure, Recorded, terminal_order, Site,
}
use microservices_demo_nats.Checkout.Reconnect.Answers.{stream_failures}
use microservices_demo_nats.Checkout.Outcome.{Tracking, closed, reconnected}
use microservices_demo_nats.Checkout.Outcome.Ends.{opened, Kept}
use microservices_demo_nats.Checkout.Outcome.Closings.{closed-Kept}
use microservices_demo_nats.Checkout.Settlement.{
  terminal_notification_statuses, terminal_cart_clear_statuses, or_none, is_settling,
  record_settlement_event,
}
use microservices_demo_nats.Checkout.Settlement.Receipts.{statuses, record_settlement_event_lem}
use microservices_demo_nats.Checkout.Wait.{
  Waited, wait_failed, wait_settled, wait_given_up, wait_heard, wait_listen, wait_dialled,
  wait_dial, wait_on, wait_round, wait_rounds,
}

abbrev is_one_of : Option String → List String → Bool
is_one_of none names = false
is_one_of (some name) names = elem name names

-- Both the notification and the cart have a terminal status.
abbrev pub has_settled : Option String × Option String → Bool
has_settled (notification, cart) =
    is_one_of notification terminal_notification_statuses
    && is_one_of cart terminal_cart_clear_statuses

abbrev pub wait_failures : List String
wait_failures = "INCOMPLETE" ∷ "SETTLEMENT_TIMEOUT" ∷ stream_failures

-- The order is settled, or the wait failed in one of the known ways.
pub data Concludes (c : Context) : Option BusinessFailure → Type 0 where
  settles : c.settlement ≡ some "SETTLED" → has_settled (statuses c) ≡ true → Concludes c none
  gives_up :
      (e : BusinessFailure)
      → c.settlement ≡ some e.outcome
      → elem e.outcome wait_failures ≡ true
      → Concludes c (some e)

or_none_lem :
    (text : String) (names : List String)
    → elem "" names ≡ false
    → elem text names ≡ true
    → or_none text ≡ some text
or_none_lem text names empty among = elim (Bool-cases (str_eq text "")) [
  | inl e ↦ absurd (cc (rw ((str_eq_iff text "").0 e) at among, empty))
  | inr e ↦ rw e refl
]

pub settling_lem :
    (e : OrderEvent)
    → is_settling e ≡ true
    → has_settled (or_none e.notification_status, or_none e.cart_clear_status) ≡ true
settling_lem e h =
    let (notified, cleared) = and_parts _ _ h in
    rw (or_none_lem e.notification_status terminal_notification_statuses refl notified)
      (rw (or_none_lem e.cart_clear_status terminal_cart_clear_statuses refl cleared) h)
