-- ===== src/Checkout/Reconnect/Answers.antt =====
-- In what ways the events of an order are refused.
use microservices_demo_nats.Prelude.{
  ℕ, String, ◌≡◌, refl, inl, inr, true, ◌||◌, List, [], ◌∷◌, Option, some, Bool-cases, elem, ◌==◌,
}
use microservices_demo_nats.Checkout.Outside.{Response, Outside}
use microservices_demo_nats.Checkout.Context.{http_status_failure, Site}
use microservices_demo_nats.Checkout.Reconnect.{
  Opened, streaming, refused_for, failing, answered, open_order_event_stream,
}

abbrev pub stream_failures : List String
stream_failures = "INVALID_RESPONSE" ∷ "STATUS_ERROR" ∷ "TIMEOUT" ∷ []

module _ (o : Outside) where
  abbrev pub Known : Opened → Type 0
  Known streaming = true ≡ true
  Known (refused_for t) = true ≡ true
  Known (failing e) = elem e.outcome stream_failures ≡ true

  http_known :
      (status : ℕ) (operation : String) (received : Option (ℕ × ℕ))
      → elem
          (http_status_failure o.show status "STATUS_ERROR" operation received).outcome
          stream_failures
        ≡ true
  http_known status operation received = elim (Bool-cases (status == 0)) [
    | inl e ↦ rw e refl
    | inr e ↦ rw e refl
  ]

  answered-Known : (r : Response) (received : ℕ × ℕ) (n : ℕ) → Known (answered o r received n).0
  answered-Known r received n = elim (Bool-cases (r.status_code == 404 || r.status_code == 503)) [
    | inl e ↦ rw e refl
    | inr e ↦ elim (Bool-cases (r.status_code == 200)) [
      | inl ok ↦ elim (Bool-cases r.is_event_stream) [
        | inl q ↦ rw e (rw ok (rw q refl))
        | inr q ↦ rw e (rw ok (rw q refl))
      ]
      | inr bad ↦ rw e (rw bad (http_known r.status_code "SSE" (some received)))
    ]
  ]

  pub open-Known : (s : Site o.World) → Known (open_order_event_stream o s).0
  unfolding open_order_event_stream
  open-Known s = let (r, w) = o.connect s.world in answered-Known r (o.now w, o.epoch w) _
