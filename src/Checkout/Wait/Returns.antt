-- ===== src/Checkout/Wait/Returns.antt =====
-- The wait for a settlement returns, and so does the checkout that begins it.
use microservices_demo_nats.Prelude.{◌≡◌, true, ◌++◌, Option, none, some, elem}
use microservices_demo_nats.Checkout.Outside.{Outside}
use microservices_demo_nats.Checkout.Context.{Context, BusinessFailure, Site}
use microservices_demo_nats.Checkout.Outcome.Ends.{Left, known_outcomes}
use microservices_demo_nats.Checkout.Outcome.Settles.{records_of, Settles}
use microservices_demo_nats.Checkout.Settlement.Receipts.{statuses}
use microservices_demo_nats.Checkout.Wait.{Measured}
use microservices_demo_nats.Checkout.Wait.Settled.{has_settled, wait_failures}

-- An order that is settled is completed, and both its statuses are terminal; one that is completed but
-- not settled has the outcome of the error; and one that is not completed is not waited for.
pub data Verdict (c : Context) : Option BusinessFailure → Type 0 where
  settled :
      c.settlement ≡ some "SETTLED"
      → has_settled (statuses c) ≡ true
      → c.outcome ≡ "COMPLETED"
      → Verdict c none
  unsettled :
      (e : BusinessFailure)
      → c.settlement ≡ some e.outcome
      → elem e.outcome wait_failures ≡ true
      → c.outcome ≡ "COMPLETED"
      → Verdict c (some e)
  never_completed :
      (e : BusinessFailure)
      → c.settlement ≡ some "ORDER_NOT_COMPLETED"
      → e.outcome ≡ c.outcome
      → Verdict c (some e)

pub record Concluded {W : Type 0} (s : Site W) (m : Measured W) : Type 0 where
  pub recorded : m.site.recorded ≡ s.recorded ++ records_of m.context.accepted m.context.outcome
  pub streams : Left s.streams m.error m.site.streams
  pub known : m.context.accepted ≡ true → elem m.context.outcome known_outcomes ≡ true
  pub verdict : Verdict m.context m.error

-- A measurement is there, and it concludes the order.
pub data Measures {W : Type 0} (s : Site W) : Option (Measured W) → Type 0 where
  measures : {m : Measured W} → Concluded s m → Measures s (some m)
