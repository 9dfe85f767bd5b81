-- ===== src/Checkout/Outside.antt =====
-- What the client talks to: the clocks, the storefront, the stream of an order's events, and the
-- random numbers of the pauses (src/benchmarkservice/locustfile.py).
use microservices_demo_nats.Prelude.{ℕ, ◌+◌, ◌≤◌, ◌<◌, String, ◌≡◌, Bool, Option}

-- Times are nanoseconds.
abbrev pub second : ℕ
second = 1_000_000_000

-- The answer to `POST /cart/checkout`: its status, and its headers `Location` and `X-Order-ID`; and
-- the text of the error with which `order_events_url` rejects the location.
pub record Posted : Type 0 where
  pub status_code : ℕ
  pub location : Option String
  pub location_error : Option String
  pub order_id : Option String

-- The answer to a request for the events: its status, `float` of its header `Retry-After` (`none` where
-- there is none or it is no number, 0 where it is negative), its type as `repr` shows it, and whether
-- that is `text/event-stream`.
pub record Response : Type 0 where
  pub status_code : ℕ
  pub retry_after : Option ℕ
  pub content_type : String
  pub is_event_stream : Bool

-- A `ReceivedOrderEvent`, with the fields that the client reads of the order.
pub record OrderEvent : Type 0 where
  pub order_id : String
  pub status : String
  pub failure_code : Option String
  pub safe_message : Option String
  pub outcome_at : Option String
  pub notification_status : String
  pub cart_clear_status : String
  pub cart_clear_failure_code : Option String
  pub received_monotonic : ℕ
  pub received_epoch : ℕ
  pub event_id : Option String

-- How `next(stream)` ends within a time limit. `interrupted` is `gevent.Timeout` or another exception.
pub data Heard : Type 0 where
  event : OrderEvent → Heard
  deadline_reached : Heard
  protocol_error : String → Heard
  ended : Heard
  interrupted : Heard

-- Locust answers a request that fails with status 0, so these operations raise nothing else. `show`
-- prints a number.
pub record Outside : Type 1 where
  pub World : Type 0
  pub now : World → ℕ
  pub epoch : World → ℕ
  pub drain_deadline : World → ℕ
  pub post_checkout : World → Posted × World
  pub connect : World → Response × World
  pub next_event : ℕ → World → Heard × World
  pub sleep : ℕ → World → World
  pub uniform : ℕ → ℕ → World → ℕ × World
  pub show : ℕ → String

-- The clock never goes back, an event takes time to be read, a time limit is not reached before its time, a pause lasts as long as was asked for,
-- and a random number is within its bounds.
pub record IsTimely (o : Outside) : Type 0 where
  pub connected : (w : o.World) → o.now w ≤ o.now (o.connect w).1
  pub heard : (limit : ℕ) (w : o.World) → o.now w ≤ o.now (o.next_event limit w).1
  pub read :
      (limit : ℕ) (w : o.World) (e : OrderEvent)
      → (o.next_event limit w).0 ≡ event e
      → o.now w < o.now (o.next_event limit w).1
  pub waited :
      (limit : ℕ) (w : o.World)
      → (o.next_event limit w).0 ≡ deadline_reached
      → o.now w + limit ≤ o.now (o.next_event limit w).1
  pub slept : (t : ℕ) (w : o.World) → o.now w + t ≤ o.now (o.sleep t w)
  pub drawn :
      (low high : ℕ) (w : o.World)
      → low ≤ high
      → (low ≤ (o.uniform low high w).0) × ((o.uniform low high w).0 ≤ high)
  pub drawing : (low high : ℕ) (w : o.World) → o.now w ≤ o.now (o.uniform low high w).1
