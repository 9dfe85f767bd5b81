-- ===== src/Email/Delivery.antt =====
-- `_validate_input`, `_build_outcome` and `_process_message`. Logging and tracing are left out.
use microservices_demo_nats.Prelude.{
  String, ◌≡◌, ◌⊎◌, inl, inr, refl, Bool, true, false, ◌||◌, not, List, [], ◌∷◌, Option, none, some,
  ◌==◌, any, str_eq, if◌then◌else◌, Bool-cases,
}
use microservices_demo_nats.Triggers.Newest.{count}
use microservices_demo_nats.Email.Outcome.{
  Order, OrderEnvelope, Mailer, Confirmation, sent, failed, Outcome, sent_subject, failed_subject,
  notification_type, result_slot, mask_recipient, provider_idempotency_key,
}
use microservices_demo_nats.Email.Identity.{result_message_id}

-- What one delivery does to the outside, in order; the broker's client may raise.
pub data Effect (Time : Type 0) : Type 0 where
  published : Outcome Time → Effect Time
  publish_failed : Outcome Time → Effect Time
  acknowledged : Effect Time
  acknowledge_failed : Effect Time
  redelivered : Effect Time

abbrev pub is_acknowledged : {Time : Type 0} → Effect Time → Bool
is_acknowledged acknowledged = true
is_acknowledged _ = false

abbrev pub is_redelivered : {Time : Type 0} → Effect Time → Bool
is_redelivered redelivered = true
is_redelivered _ = false

module _ (m : Mailer) where
  abbrev pub Envelope : Type 0
  Envelope = OrderEnvelope m.Payload m.Time

  abbrev incomplete : Envelope → Bool
  incomplete e =
      str_eq e.message_id ""
      || str_eq e.correlation_id ""
      || str_eq e.aggregate_id ""
      || e.aggregate_version == 0

  abbrev pub required : Envelope → Option m.Time → Option m.Payload → Option (m.Time × m.Payload)
  required e none p = none
  required e (some t) none = none
  required e (some t) (some p) =
      if incomplete e then none else if m.in_calendar t then some (t, p) else none

  -- `_validate_input`, with the two fields whose presence it checks.
  unfoldable pub validate_input : Envelope → Option (m.Time × m.Payload)
  validate_input e = required e e.occurred_at e.payload

  unfoldable pub confirmation : String → Order → String → String × Confirmation
  confirmation failure_mode order provider_key =
      if str_eq failure_mode "failed" then (failed_subject, failed) else (
        sent_subject,
        sent (mask_recipient order.email) (m.stable_id "email-provider-v1" provider_key),
      )

  abbrev pub with_ids :
      String → Envelope → m.Time → Order → Option String → Option String → Option (Outcome m.Time)
  with_ids mode e t order none id = none
  with_ids mode e t order (some key) none = none
  with_ids mode e t order (some key) (some id) = some (record {
    subject = (confirmation mode order key).0;
    message_id = id;
    provider_idempotency_key = key;
    aggregate_id = order.order_id;
    aggregate_version = e.aggregate_version;
    correlation_id = e.correlation_id;
    causation_id = e.message_id;
    traceparent = e.traceparent;
    tracestate = e.tracestate;
    occurred_at = t;
    confirmation = (confirmation mode order key).1;
  })

  abbrev pub with_order : String → Envelope → m.Time → Option Order → Option (Outcome m.Time)
  with_order mode e t none = none
  with_order mode e t (some order) =
      if str_eq order.order_id "" || not (str_eq order.order_id e.aggregate_id)
      then none
      else with_ids mode e t order (provider_idempotency_key order.order_id notification_type)
          (result_message_id m e.message_id result_slot)

  abbrev pub with_input : String → Envelope → Option (m.Time × m.Payload) → Option (Outcome m.Time)
  with_input mode e none = none
  with_input mode e (some (t, p)) = with_order mode e t (m.unpack_completed p)

  -- The failure mode is always given here, as `_process_message` gives it.
  unfoldable pub build_outcome : String → Envelope → Option (Outcome m.Time)
  build_outcome failure_mode e = with_input failure_mode e (validate_input e)

  -- Whether the broker takes an outcome, and whether the acknowledgement goes through.
  module _ (publish : Outcome m.Time → Bool) (ack : Bool) where
    abbrev pub delivered : Option (Outcome m.Time) → List (Effect m.Time)
    delivered none = redelivered ∷ []
    delivered (some o) =
        if publish o
        then if ack
          then published o ∷ acknowledged ∷ []
          else published o ∷ acknowledge_failed ∷ redelivered ∷ []
        else publish_failed o ∷ redelivered ∷ []

    abbrev pub outcome_of : String → Option Envelope → Option (Outcome m.Time)
    outcome_of mode none = none
    outcome_of mode (some e) = build_outcome mode e

    unfoldable pub process_message : String → m.Bytes → List (Effect m.Time)
    process_message failure_mode body = delivered (outcome_of failure_mode (m.parse body))

    -- The message's own outcome was published and it was acknowledged after that, or it was not
    -- acknowledged and was asked for again, once.
    abbrev pub IsSettled : String → m.Bytes → List (Effect m.Time) → Type 0
    IsSettled mode body effects =
        ((o : Outcome m.Time) × (outcome_of mode (m.parse body) ≡ some o)
          × (publish o ≡ true)
          × (effects ≡ published o ∷ acknowledged ∷ []))
        ⊎ ((any is_acknowledged effects ≡ false) × (count is_redelivered effects ≡ 1))

    delivered-IsSettled :
        (mode : String) (body : m.Bytes) (r : Option (Outcome m.Time))
        → outcome_of mode (m.parse body) ≡ r
        → IsSettled mode body (delivered r)
    delivered-IsSettled mode body none h = inr (refl, refl)
    delivered-IsSettled mode body (some o) h = elim (Bool-cases (publish o)) [
      | inr e ↦ rw e (inr (refl, refl))
      | inl e ↦ elim (Bool-cases ack) [
        | inl g ↦ rw e (rw g (inl (o, h, e, refl)))
        | inr g ↦ rw e (rw g (inr (refl, refl)))
      ]
    ]

    -- A delivered message is acknowledged only after the outcome built from it was published; a
    -- message that is not acknowledged, whatever failed, is asked for again exactly once.
    pub process_message-IsSettled :
        (mode : String) (body : m.Bytes) → IsSettled mode body (process_message mode body)
    unfolding process_message
    process_message-IsSettled mode body =
        delivered-IsSettled mode body (outcome_of mode (m.parse body)) refl

  -- What an outcome owes to the event alone.
  pub record Answers (e : Envelope) (o : Outcome m.Time) : Type 0 where
    pub named : result_message_id m e.message_id result_slot ≡ some o.message_id
    pub keyed :
        provider_idempotency_key e.aggregate_id notification_type ≡ some o.provider_idempotency_key
    pub caused : o.causation_id ≡ e.message_id
    pub owned : o.aggregate_id ≡ e.aggregate_id
    pub versioned : o.aggregate_version ≡ e.aggregate_version
    pub dated : e.occurred_at ≡ some o.occurred_at
