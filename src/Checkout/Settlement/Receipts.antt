-- ===== src/Checkout/Settlement/Receipts.antt =====
-- What the events of a settlement change of the context, and what they leave.
use microservices_demo_nats.Prelude.{
  String, ◌≡◌, refl, ◌∙◌, ap, inl, inr, Bool, Bool-cases, Option-cases, List, [], ◌∷◌, Option, none,
  some, str_eq, if◌then◌else◌,
}
use microservices_demo_nats.Checkout.Outside.{OrderEvent}
use microservices_demo_nats.Checkout.Context.{Receipt, Context}
use microservices_demo_nats.Checkout.Settlement.{
  or_none, receipt_of, first_receipt, with_statuses, is_notified, is_cart_cleared,
  with_notification, with_notification_failure, with_cart_clear, with_cart_clear_failure,
  is_settling, with_settlement, record_settlement_event,
}

-- The fields of the context that the receipts do not touch, and those of the first receipts.
abbrev pub lasting : Context → (Bool × String) × (Option Receipt × Option Receipt)
lasting c = ((c.accepted, c.outcome), (c.notification_receipt, c.cart_clear_receipt))

abbrev pub statuses : Context → Option String × Option String
statuses c = (c.notification_status, c.cart_clear_status)

notification_failure_same :
    (e : OrderEvent) (c : Context)
    → (lasting (with_notification_failure e c) ≡ lasting c)
      × (statuses (with_notification_failure e c) ≡ statuses c)
unfolding with_notification_failure
notification_failure_same e c = elim (Bool-cases (str_eq e.notification_status "FAILED")) [
  | inl h ↦ elim (Option-cases c.notification_failure_receipt) [
    | inl n ↦ rw h (rw n (refl, refl))
    | inr (r, n) ↦ rw h (rw n (refl, refl))
  ]
  | inr h ↦ rw h (refl, refl)
]

cart_clear_failure_same :
    (e : OrderEvent) (c : Context)
    → (lasting (with_cart_clear_failure e c) ≡ lasting c)
      × (statuses (with_cart_clear_failure e c) ≡ statuses c)
unfolding with_cart_clear_failure
cart_clear_failure_same e c = elim (Bool-cases (str_eq e.cart_clear_status "REJECTED")) [
  | inl h ↦ elim (Option-cases c.cart_clear_failure_receipt) [
    | inl n ↦ rw h (rw n (refl, refl))
    | inr (r, n) ↦ rw h (rw n (refl, refl))
  ]
  | inr h ↦ rw h (refl, refl)
]

settlement_same :
    (e : OrderEvent) (c : Context)
    → (lasting (with_settlement e c) ≡ lasting c) × (statuses (with_settlement e c) ≡ statuses c)
unfolding with_settlement
settlement_same e c = elim (Bool-cases (is_settling e)) [
  | inl h ↦ rw h (refl, refl)
  | inr h ↦ rw h (refl, refl)
]

-- The receipt that is there, or that of an event that is the first of its kind.
abbrev pub updated : Bool → Option Receipt → OrderEvent → Option Receipt
updated b r e = if b then first_receipt r e else r

notification_lem :
    (e : OrderEvent) (c : Context)
    → (lasting (with_notification e c) ≡ (
      (c.accepted, c.outcome),
      (updated (is_notified e) c.notification_receipt e, c.cart_clear_receipt),
    ))
      × (statuses (with_notification e c) ≡ statuses c)
unfolding with_notification
notification_lem e c = elim (Bool-cases (is_notified e)) [
  | inl h ↦ rw h (refl, refl)
  | inr h ↦ rw h (refl, refl)
]

cart_clear_lem :
    (e : OrderEvent) (c : Context)
    → (lasting (with_cart_clear e c) ≡ (
      (c.accepted, c.outcome),
      (c.notification_receipt, updated (is_cart_cleared e) c.cart_clear_receipt e),
    ))
      × (statuses (with_cart_clear e c) ≡ statuses c)
unfolding with_cart_clear
cart_clear_lem e c = elim (Bool-cases (is_cart_cleared e)) [
  | inl h ↦ rw h (refl, refl)
  | inr h ↦ rw h (refl, refl)
]

-- What one event does to the lasting fields, and the statuses that it leaves.
pub record_settlement_event_lem :
    (c : Context) (e : OrderEvent)
    → (lasting (record_settlement_event c e).1 ≡ (
      (c.accepted, c.outcome),
      (
        updated (is_notified e) c.notification_receipt e,
        updated (is_cart_cleared e) c.cart_clear_receipt e,
      ),
    ))
      × (statuses (record_settlement_event c e).1
          ≡ (or_none e.notification_status, or_none e.cart_clear_status))
unfolding record_settlement_event with_statuses
record_settlement_event_lem c e =
    let c1 = with_statuses e c in
    let c2 = with_notification e c1 in
    let c3 = with_notification_failure e c2 in
    let c4 = with_cart_clear e c3 in
    let c5 = with_cart_clear_failure e c4 in
    let l2 = notification_lem e c1 in
    let l3 = notification_failure_same e c2 in
    let l4 = cart_clear_lem e c3 in
    let l5 = cart_clear_failure_same e c4 in
    let l6 = settlement_same e c5 in
    (
      l6.0
          ∙ l5.0
          ∙ l4.0
          ∙ ap (λ x. (x.0, (x.1.0, updated (is_cart_cleared e) x.1.1 e))) (l3.0 ∙ l2.0),
      l6.1 ∙ l5.1 ∙ l4.1 ∙ l3.1 ∙ l2.1,
    )

-- The events of one order, in the order of their arrival.
unfoldable pub record_settlement_events : Context → List OrderEvent → Context
record_settlement_events c [] = c
record_settlement_events c (e ∷ es) = record_settlement_events (record_settlement_event c e).1 es

-- The receipt of the first event that has the property.
abbrev pub first_such : (OrderEvent → Bool) → List OrderEvent → Option Receipt
first_such p [] = none
first_such p (e ∷ es) = let rest = first_such p es in if p e then receipt_of e else rest

abbrev pub or_else : Option Receipt → Option Receipt → Option Receipt
or_else none y = y
or_else (some r) y = some r

or_else-updated :
    (p : OrderEvent → Bool) (e : OrderEvent) (es : List OrderEvent) (r : Option Receipt)
    → or_else (updated (p e) r e) (first_such p es) ≡ or_else r (first_such p (e ∷ es))
or_else-updated p e es none = elim (Bool-cases (p e)) [ inl h ↦ rw h refl | inr h ↦ rw h refl ]
or_else-updated p e es (some r) = elim (Bool-cases (p e)) [ inl h ↦ rw h refl | inr h ↦ rw h refl ]

or_else-none : (r : Option Receipt) → or_else r none ≡ r
or_else-none none = refl
or_else-none (some r) = refl

events_lasting :
    (c : Context) (es : List OrderEvent)
    → lasting (record_settlement_events c es) ≡ (
      (c.accepted, c.outcome),
      (
        or_else c.notification_receipt (first_such is_notified es),
        or_else c.cart_clear_receipt (first_such is_cart_cleared es),
      ),
    )
unfolding record_settlement_events
events_lasting c [] =
    rw (or_else-none c.notification_receipt) (rw (or_else-none c.cart_clear_receipt) refl)
events_lasting c (e ∷ es) =
    let step = (record_settlement_event_lem c e).0 in
    events_lasting (record_settlement_event c e).1 es
    ∙ ap
        (λ x. (
          x.0,
          (
            or_else x.1.0 (first_such is_notified es),
            or_else x.1.1 (first_such is_cart_cleared es),
          ),
        ))
        step
    ∙ rw (or_else-updated is_notified e es c.notification_receipt)
        (rw (or_else-updated is_cart_cleared e es c.cart_clear_receipt) refl)

-- Whatever events an order has after its completion, the receipt of its notification is that of the first
-- event with a terminal notification status, and the receipt of its cart that of the first event with
-- a terminal cart status, where the context had neither; no event changes whether the order was
-- accepted, or its outcome.
pub record_settlement_events-first :
    (c : Context) (es : List OrderEvent)
    → c.notification_receipt ≡ none
    → c.cart_clear_receipt ≡ none
    → ((record_settlement_events c es).notification_receipt ≡ first_such is_notified es)
      × ((record_settlement_events c es).cart_clear_receipt ≡ first_such is_cart_cleared es)
      × ((record_settlement_events c es).accepted ≡ c.accepted)
      × ((record_settlement_events c es).outcome ≡ c.outcome)
record_settlement_events-first c es no_notification no_cart =
    let all = events_lasting c es in
    (
      ap (λ x. x.1.0) all ∙ rw no_notification refl,
      ap (λ x. x.1.1) all ∙ rw no_cart refl,
      ap (λ x. x.0.0) all,
      ap (λ x. x.0.1) all,
    )
