-- ===== src/Email/Repeats.antt =====
-- What an outcome says depends on the event alone, so a repeated delivery repeats it.
use mathlib.Core.Path.{subst}
use microservices_demo_nats.Prelude.{
  String, ◌≡◌, refl, sym, ap, ◌∙◌, Option, none, some, arith, str_eq, str_eq_iff, Bool-cases, inl,
  inr,
}
use microservices_demo_nats.Email.Outcome.{
  Order, Mailer, Outcome, notification_type, result_slot, provider_idempotency_key,
}
use microservices_demo_nats.Email.Identity.{result_message_id}
use microservices_demo_nats.Email.Delivery.{
  Envelope, required, with_ids, with_order, with_input, validate_input, build_outcome, Answers,
}

some-injective : {A : Type 0} (a b : A) → some a ≡ some b → a ≡ b
some-injective a b h = cc

module _ (m : Mailer) (mode : String) (e : Envelope m) (o : Outcome m.Time) where
  required-dated :
      (at : Option m.Time) (p : Option m.Payload) (t : m.Time) (q : m.Payload)
      → required m e at p ≡ some (t, q)
      → at ≡ some t
  required-dated none p t q h = cc
  required-dated (some s) none t q h = cc
  required-dated (some s) (some p) t q h = ground arith

  with_ids-Answers :
      (t : m.Time) (order : Order) (key id : Option String)
      → e.occurred_at ≡ some t
      → order.order_id ≡ e.aggregate_id
      → provider_idempotency_key e.aggregate_id notification_type ≡ key
      → result_message_id m e.message_id result_slot ≡ id
      → with_ids m mode e t order key id ≡ some o
      → Answers m e o
  with_ids-Answers t order none id d own k i h = cc
  with_ids-Answers t order (some key) none d own k i h = cc
  with_ids-Answers t order (some key) (some id) d own k i h =
      subst (λ x. Answers m e x) (some-injective _ o h)
        (record { named = i; keyed = k; caused = refl; owned = own; versioned = refl; dated = d })

  with_order-Answers :
      (t : m.Time) (order : Option Order)
      → e.occurred_at ≡ some t
      → with_order m mode e t order ≡ some o
      → Answers m e o
  with_order-Answers t none d h = cc
  with_order-Answers t (some order) d h = elim (Bool-cases (str_eq order.order_id e.aggregate_id)) [
    | inl g ↦
        with_ids-Answers t order (provider_idempotency_key order.order_id notification_type)
          (result_message_id m e.message_id result_slot) d
          ((str_eq_iff order.order_id e.aggregate_id).0 g)
          (ap (λ s. provider_idempotency_key s notification_type)
            (sym ((str_eq_iff order.order_id e.aggregate_id).0 g)))
          refl (ground (arith, g, h))
    | inr g ↦ ground (arith, g, h)
  ]

  -- An outcome answers its event: its IDs are those derived from the event, and it repeats the
  -- event's aggregate, version and time.
  pub build_outcome-Answers : build_outcome m mode e ≡ some o → Answers m e o
  unfolding build_outcome validate_input
  build_outcome-Answers = go (validate_input m e) refl
    where
      go :
          (v : Option (m.Time × m.Payload))
          → validate_input m e ≡ v
          → with_input m mode e v ≡ some o
          → Answers m e o
      go none g h = cc
      go (some (t, p)) g h =
          with_order-Answers t (m.unpack_completed p) (required-dated e.occurred_at e.payload t p g)
            h

-- However often an event is delivered, and whatever the failure mode is at each time, the outcomes
-- built from it have one message ID and one provider key: the broker and the provider can tell
-- that they are the same.
pub build_outcome_repeats :
    (m : Mailer) (e : Envelope m) (first second : String) (a b : Outcome m.Time)
    → build_outcome m first e ≡ some a
    → build_outcome m second e ≡ some b
    → (a.message_id ≡ b.message_id)
      × (a.provider_idempotency_key ≡ b.provider_idempotency_key)
      × (a.aggregate_version ≡ b.aggregate_version)
build_outcome_repeats m e first second a b h g =
    let x = build_outcome-Answers m first e a h in
    let y = build_outcome-Answers m second e b g in
    (
      some-injective _ _ (sym x.named ∙ y.named),
      some-injective _ _ (sym x.keyed ∙ y.keyed),
      x.versioned ∙ sym y.versioned,
    )
