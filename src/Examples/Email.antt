-- ===== src/Examples/Email.antt =====
-- Runs of the e-mail worker.
use microservices_demo_nats.Prelude.{ℕ, ◌≡◌, refl, Bool, true, some, arith, codes}
use microservices_demo_nats.Email.Outcome.{
  Order, OrderEnvelope, Mailer, Outcome, mask_recipient, provider_idempotency_key, partition_at,
  sent_subject, failed_subject, sent, failed,
}
use microservices_demo_nats.Email.Identity.{framed, framed-injective, result_message_id, pack32}
use microservices_demo_nats.Email.Delivery.{
  process_message, IsSettled, process_message-IsSettled, build_outcome, validate_input,
  confirmation,
}
use microservices_demo_nats.Email.Repeats.{build_outcome_repeats}

-- The bytes are the envelope itself, its payload is the order, and IDs are derived from lengths.
abbrev plain : Mailer
plain = record {
  Bytes = OrderEnvelope Order ℕ;
  Payload = Order;
  Time = ℕ;
  parse = λ e. some e;
  unpack_completed = λ o. some o;
  in_calendar = λ t. true;
  stable_id = λ s t. "id";
  encode = λ s. codes s;
  digest_text = λ bytes. "digest";
}

abbrev order : Order
order = record { order_id = "o1"; email = "ann@shop.test" }

abbrev event : OrderEnvelope Order ℕ
event = record {
  message_id = "m1";
  correlation_id = "c1";
  aggregate_id = "o1";
  aggregate_version = 3;
  occurred_at = some 1000;
  payload = some order;
  traceparent = "";
  tracestate = "";
}

masked_ann : mask_recipient "ann@shop.test" ≡ "a***@shop.test"
unfolding mask_recipient partition_at
masked_ann = refl

framed-injective_example : (codes "m1" ≡ codes "m1") × (codes "slot" ≡ codes "slot")
framed-injective_example =
    framed-injective (codes "m1") (codes "slot") (codes "m1") (codes "slot") (omega arith)
      (omega arith) (omega arith) (omega arith) refl

abbrev always : Outcome ℕ → Bool
always o = true

process_message-IsSettled_example :
    IsSettled plain always true "" event (process_message plain always true "" event)
process_message-IsSettled_example = process_message-IsSettled plain always true "" event

abbrev sent_outcome : Outcome ℕ
sent_outcome = record {
  subject = sent_subject;
  message_id = "br1_digest";
  provider_idempotency_key = "o1:order-confirmation";
  aggregate_id = "o1";
  aggregate_version = 3;
  correlation_id = "c1";
  causation_id = "m1";
  traceparent = "";
  tracestate = "";
  occurred_at = 1000;
  confirmation = sent "a***@shop.test" "id";
}

abbrev failed_outcome : Outcome ℕ
failed_outcome = record sent_outcome { subject = failed_subject; confirmation = failed }

sent_built : build_outcome plain "" event ≡ some sent_outcome
unfolding build_outcome validate_input confirmation provider_idempotency_key result_message_id
    mask_recipient partition_at framed pack32
sent_built = refl

failed_built : build_outcome plain "failed" event ≡ some failed_outcome
unfolding build_outcome validate_input confirmation provider_idempotency_key result_message_id
    framed pack32
failed_built = refl

build_outcome_repeats_example :
    (sent_outcome.message_id ≡ failed_outcome.message_id)
    × (sent_outcome.provider_idempotency_key ≡ failed_outcome.provider_idempotency_key)
    × (sent_outcome.aggregate_version ≡ failed_outcome.aggregate_version)
build_outcome_repeats_example =
    build_outcome_repeats plain event "" "failed" sent_outcome failed_outcome sent_built
      failed_built
