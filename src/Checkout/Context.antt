-- ===== src/Checkout/Context.antt =====
-- The context of a checkout, its failures, and what is recorded of it
-- (src/benchmarkservice/locustfile.py).
use Prim.Native.String.{◌++◌ as then_text}
use microservices_demo_nats.Prelude.{
  ℕ, String, Bool, true, false, List, [], ◌∷◌, Option, none, some, ◌==◌, str_eq, if◌then◌else◌,
}

-- `<prefix>_received_epoch` and `<prefix>_event_id`
pub record Receipt : Type 0 where
  pub received_epoch : ℕ
  pub event_id : Option String

pub record Context : Type 0 where
  pub accepted : Bool
  pub outcome : String
  pub order_id : Option String
  pub failure_code : Option String
  pub safe_message : Option String
  pub outcome_at : Option String
  pub outcome_transport : Option String
  pub outcome_receipt : Option Receipt
  pub failure_receipt : Option Receipt
  pub failure_message : Option String
  pub settlement : Option String
  pub notification_status : Option String
  pub cart_clear_status : Option String
  pub cart_clear_failure_code : Option String
  pub settlement_transport : Option String
  pub notification_receipt : Option Receipt
  pub notification_failure_receipt : Option Receipt
  pub notification_failure_message : Option String
  pub cart_clear_receipt : Option Receipt
  pub cart_clear_failure_receipt : Option Receipt
  pub cart_clear_failure_message : Option String
  pub settlement_receipt : Option Receipt
  pub settlement_received : Option ℕ

-- `BusinessFailure`: its outcome and detail, and when the answer that it is about was received.
pub record BusinessFailure : Type 0 where
  pub outcome : String
  pub detail : String
  pub received : Option (ℕ × ℕ)

abbrev pub failure_message : String → BusinessFailure
failure_message outcome = record { outcome = outcome; detail = ""; received = none }

-- `received` is the monotonic and the civil time of the receipt; `show` prints the status.
abbrev pub http_status_failure :
    (ℕ → String) → ℕ → String → String → Option (ℕ × ℕ) → BusinessFailure
http_status_failure show status_code fallback_outcome operation received =
    if status_code == 0
    then record {
      outcome = "TIMEOUT";
      detail = then_text operation " timed out";
      received = received;
    }
    else record {
      outcome = fallback_outcome;
      detail = then_text operation (then_text " status " (show status_code));
      received = received;
    }

abbrev pub is_truthy : Option String → Bool
is_truthy none = false
is_truthy (some s) = if str_eq s "" then false else true

abbrev pub old_event_id : Option Receipt → Option String
old_event_id none = none
old_event_id (some r) = r.event_id

-- `receipt_context`: an event ID that is missing leaves the one that is there.
abbrev pub receipt_context : Option Receipt → ℕ → Option String → Option Receipt
receipt_context old epoch event_id = some (record {
  received_epoch = epoch;
  event_id = if is_truthy event_id then event_id else old_event_id old;
})

-- `error.detail or str(error)`
abbrev pub shown : BusinessFailure → String
shown e = if str_eq e.detail "" then e.outcome else e.detail

abbrev pub record_received_failure : Context → BusinessFailure → Context
record_received_failure context e = elim e.received [
  | none ↦ context
  | some (monotonic, epoch) ↦ record context {
    failure_receipt = receipt_context context.failure_receipt epoch none;
    failure_message = some (shown e);
  }
]

abbrev pub terminal_order_statuses : List String
terminal_order_statuses = "COMPLETED" ∷ "CANCELLED" ∷ "REJECTED" ∷ "MANUAL_REVIEW" ∷ []

-- What `RECORDER` is told of an order.
pub data Recorded : Type 0 where
  accepted_order : Recorded
  terminal_order : String → Recorded

-- The world, what was recorded, and the number of streams that are open.
pub record Site (W : Type 0) : Type 0 where
  pub world : W
  pub recorded : List Recorded
  pub streams : ℕ
