-- ===== src/Checkout/Settlement.antt =====
-- The events after an order is completed: its notification and its cart
-- (src/benchmarkservice/locustfile.py, `_record_settlement_event`).
pub mod Receipts
use microservices_demo_nats.Prelude.{
  ℕ, String, Bool, true, false, ◌&&◌, List, [], ◌∷◌, Option, none, some, elem, str_eq,
  if◌then◌else◌,
}
use microservices_demo_nats.Checkout.Outside.{OrderEvent}
use microservices_demo_nats.Checkout.Context.{Receipt, Context, is_truthy, receipt_context}

abbrev pub terminal_notification_statuses : List String
terminal_notification_statuses = "SENT" ∷ "FAILED" ∷ []

abbrev pub terminal_cart_clear_statuses : List String
terminal_cart_clear_statuses = "SUCCEEDED" ∷ "REJECTED" ∷ []

-- `status or None`
abbrev pub or_none : String → Option String
or_none status = if str_eq status "" then none else some status

abbrev pub receipt_of : OrderEvent → Option Receipt
receipt_of e = receipt_context none e.received_epoch e.event_id

-- A receipt that is in the context stays.
abbrev pub first_receipt : Option Receipt → OrderEvent → Option Receipt
first_receipt none e = receipt_of e
first_receipt (some r) e = some r

abbrev pub first_message : Option Receipt → Option String → String → Option String
first_message none old text = some text
first_message (some r) old text = old

unfoldable pub with_statuses : OrderEvent → Context → Context
with_statuses e c = record c {
  notification_status = or_none e.notification_status;
  cart_clear_status = or_none e.cart_clear_status;
  cart_clear_failure_code = e.cart_clear_failure_code;
  settlement_transport = some "SSE";
}

abbrev pub is_notified : OrderEvent → Bool
is_notified e = elem e.notification_status terminal_notification_statuses

abbrev pub is_cart_cleared : OrderEvent → Bool
is_cart_cleared e = elem e.cart_clear_status terminal_cart_clear_statuses

unfoldable pub with_notification : OrderEvent → Context → Context
with_notification e c =
    if is_notified e
    then record c { notification_receipt = first_receipt c.notification_receipt e }
    else c

-- The first failure of all that the context has.
abbrev pub with_failure : String → OrderEvent → Context → Context
with_failure text e c = record c {
  failure_receipt = first_receipt c.failure_receipt e;
  failure_message = first_message c.failure_receipt c.failure_message text;
}

abbrev pub notification_failed : String
notification_failed = "order confirmation notification failed"

unfoldable pub with_notification_failure : OrderEvent → Context → Context
with_notification_failure e c =
    if str_eq e.notification_status "FAILED"
    then elim c.notification_failure_receipt [
      | none ↦ with_failure notification_failed e (record c {
        notification_failure_receipt = receipt_of e;
        notification_failure_message = some notification_failed;
      })
      | some r ↦ c
    ]
    else c

unfoldable pub with_cart_clear : OrderEvent → Context → Context
with_cart_clear e c =
    if is_cart_cleared e
    then record c { cart_clear_receipt = first_receipt c.cart_clear_receipt e }
    else c

-- `str(order.get("cart_clear_failure_code") or "cart clear rejected")`
abbrev pub rejection : Option String → String
rejection none = "cart clear rejected"
rejection (some code) = if str_eq code "" then "cart clear rejected" else code

unfoldable pub with_cart_clear_failure : OrderEvent → Context → Context
with_cart_clear_failure e c =
    if str_eq e.cart_clear_status "REJECTED"
    then elim c.cart_clear_failure_receipt [
      | none ↦ with_failure (rejection e.cart_clear_failure_code) e (record c {
        cart_clear_failure_receipt = receipt_of e;
        cart_clear_failure_message = some (rejection e.cart_clear_failure_code);
      })
      | some r ↦ c
    ]
    else c

abbrev pub is_settling : OrderEvent → Bool
is_settling e = is_notified e && is_cart_cleared e

unfoldable pub with_settlement : OrderEvent → Context → Context
with_settlement e c =
    if is_settling e
    then record c {
      settlement_receipt = receipt_context c.settlement_receipt e.received_epoch e.event_id;
      settlement_received = some e.received_monotonic;
    }
    else c

unfoldable pub record_settlement_event : Context → OrderEvent → Bool × Context
record_settlement_event c e = (
  is_settling e,
  with_settlement e (
      with_cart_clear_failure e (
        with_cart_clear e (with_notification_failure e (with_notification e (with_statuses e c))))),
)
