-- ===== src/Checkout/Outcome/Ends.antt =====
-- How the outcome of an order ends, and what a round of its loop keeps.
use microservices_demo_nats.Prelude.{
  ℕ, suc, arith, ◌+◌, String, ◌≡◌, refl, inl, inr, Bool, true, false, List, [], ◌∷◌, ◌++◌, Option,
  none, some, Option-cases, elem, if◌then◌else◌,
}
use microservices_demo_nats.Checkout.Outside.{OrderEvent, Outside}
use microservices_demo_nats.Checkout.Context.{
  Receipt, Context, BusinessFailure, record_received_failure, Recorded, terminal_order,
  terminal_order_statuses,
}
use microservices_demo_nats.Checkout.Reconnect.Answers.{stream_failures}
use microservices_demo_nats.Checkout.Outcome.{Tracking, CheckoutOutcome}

-- The outcomes that an order can have once it is accepted.
abbrev pub known_outcomes : List String
known_outcomes = terminal_order_statuses ++ "INCOMPLETE" ∷ stream_failures

abbrev pub opened : Bool → ℕ
opened b = if b then 1 else 0

-- Either the order is completed, and its stream may go on; or there is an error, whose outcome is that
-- of the context, and no stream.
pub data Ends {W : Type 0} (r : CheckoutOutcome W) : Type 0 where
  completes :
      (e : OrderEvent)
      → r.error ≡ none
      → r.order ≡ some e
      → r.has_location ≡ true
      → r.context.outcome ≡ "COMPLETED"
      → Ends r
  fails :
      (e : BusinessFailure)
      → r.error ≡ some e
      → r.open_stream ≡ false
      → e.outcome ≡ r.context.outcome
      → Ends r

-- Given up at a deadline.
abbrev pub IsGivenUp : Option BusinessFailure → Type 0
IsGivenUp error =
    (e : BusinessFailure) × (error ≡ some e)
    × (elem e.outcome ("INCOMPLETE" ∷ "TIMEOUT" ∷ "SETTLEMENT_TIMEOUT" ∷ []) ≡ true)

-- How many streams are left: none more than should be, or one that was never read, of an order that was
-- given up.
pub data Left (base : ℕ) (error : Option BusinessFailure) (streams : ℕ) : Type 0 where
  released : streams ≡ base → Left base error streams
  unread : streams ≡ suc base → IsGivenUp error → Left base error streams

pub left_plain :
    {base streams : ℕ} {error : Option BusinessFailure}
    → Left (base + 0) error streams
    → Left base error streams
left_plain (released h) = released (omega (arith, h))
left_plain (unread h given_up) = unread (omega (arith, h)) given_up

module _ (o : Outside) (base : ℕ) (before : List Recorded) (accepted : Bool) where
  pub record Kept (s : Tracking o.World) : Type 0 where
    pub recorded : s.site.recorded ≡ before
    pub streams : s.site.streams ≡ base + opened s.open_stream
    pub same : s.context.accepted ≡ accepted

  -- Between two rounds a stream that is open has been read from.
  abbrev pub Started : Tracking o.World → Type 0
  Started s = s.open_stream ≡ true → s.is_started ≡ true

  pub record Done (r : CheckoutOutcome o.World) : Type 0 where
    pub recorded : r.site.recorded ≡ before ++ terminal_order r.context.outcome ∷ []
    pub streams : Left (base + opened r.open_stream) r.error r.site.streams
    pub read : r.open_stream ≡ true → r.is_started ≡ true
    pub same : r.context.accepted ≡ accepted
    pub known : elem r.context.outcome known_outcomes ≡ true
    pub ends : Ends r

  pub data Finishes : Option (CheckoutOutcome o.World) → Type 0 where
    finishes : {r : CheckoutOutcome o.World} → Done r → Finishes (some r)

-- A failure that was received changes only its own receipt and message.
pub received_same :
    {A : Type 0} (f : Context → A)
    → ((c : Context) (r : Option Receipt) (m : Option String)
        → f (record c { failure_receipt = r; failure_message = m }) ≡ f c)
    → (c : Context) (e : BusinessFailure) → f (record_received_failure c e) ≡ f c
received_same f same c e = elim (Option-cases e.received) [
  | inl n ↦ rw n refl
  | inr (at, n) ↦ rw n (same c _ _)
]

pub received_accepted :
    (c : Context) (e : BusinessFailure)
    → ((record_received_failure c e).accepted ≡ c.accepted)
      × ((record_received_failure c e).outcome ≡ c.outcome)
received_accepted c e = (
  received_same (λ c. c.accepted) (λ c r m. refl) c e,
  received_same (λ c. c.outcome) (λ c r m. refl) c e,
)
