-- ===== src/Email/Outcome.antt =====
-- `_validate_input`, `_mask_recipient`, `_provider_idempotency_key` and `_build_outcome`.
use Prim.Native.String.{◌++◌ as then_text}
use Prim.Native.Char.{code}
use microservices_demo_nats.Prelude.{
  ℕ, String, Bool, ◌||◌, List, Option, none, some, ◌==◌, str_eq, if◌then◌else◌,
}

abbrev pub sent_subject : String
sent_subject = "boutique.evt.notification.order-confirmation-sent.v1"

abbrev pub failed_subject : String
failed_subject = "boutique.evt.notification.order-confirmation-failed.v1"

abbrev pub notification_type : String
notification_type = "order-confirmation"

abbrev pub result_slot : String
result_slot = "notification.order-confirmation"

pub record Order : Type 0 where
  pub order_id : String
  pub email : String

-- The fields of `MessageEnvelope` that are read; an optional field may be absent.
pub record OrderEnvelope (Payload Time : Type 0) : Type 0 where
  pub message_id : String
  pub correlation_id : String
  pub aggregate_id : String
  pub aggregate_version : ℕ
  pub occurred_at : Option Time
  pub payload : Option Payload
  pub traceparent : String
  pub tracestate : String

-- The generated protobuf code, the clock's type, SHA-256 and base64.
pub record Mailer : Type 1 where
  pub Bytes : Type 0
  pub Payload : Type 0
  pub Time : Type 0
  pub parse : Bytes → Option (OrderEnvelope Payload Time)
  pub unpack_completed : Payload → Option Order
  pub in_calendar : Time → Bool  -- whether `ToDatetime` accepts it
  pub stable_id : String → String → String
  pub encode : String → List ℕ  -- the bytes of a text in UTF-8
  pub digest_text : List ℕ → String  -- SHA-256 in base64, without padding

pub data Confirmation : Type 0 where
  -- The masked recipient and the provider's message ID.
  sent : String → String → Confirmation
  failed : Confirmation

pub record Outcome (Time : Type 0) : Type 0 where
  pub subject : String
  pub message_id : String
  pub provider_idempotency_key : String
  pub aggregate_id : String
  pub aggregate_version : ℕ
  pub correlation_id : String
  pub causation_id : String
  pub traceparent : String
  pub tracestate : String
  pub occurred_at : Time
  pub confirmation : Confirmation

-- `address.partition("@")`, of which the separator is only tested: `none` without one.
unfoldable pub partition_at : String → Option (String × String)
partition_at String.[] = none
partition_at (String.◌∷◌ c s) =
    let rest = partition_at s in
    if code c == b'@'
    then some (String.[], s)
    else elim rest [ none ↦ none | some (before, after) ↦ some (String.◌∷◌ c before, after) ]

abbrev pub first_of : String → String
first_of String.[] = "*"
first_of (String.◌∷◌ c s) = String.◌∷◌ c String.[]

abbrev pub masked : Option (String × String) → String
masked none = "***"
masked (some (before, domain)) = then_text (then_text (first_of before) "***@") domain

unfoldable pub mask_recipient : String → String
mask_recipient address = masked (partition_at address)

unfoldable pub provider_idempotency_key : String → String → Option String
provider_idempotency_key order_id kind =
    if str_eq order_id "" || str_eq kind ""
    then none
    else some (then_text (then_text order_id ":") kind)
