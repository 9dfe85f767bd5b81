-- ===== src/Checkout/Outcome/Settles.antt =====
-- What `_checkout_to_outcome` records, returns and leaves open.
use mathlib.Core.List.{append-nil, append_assoc}
use microservices_demo_nats.Prelude.{
  ℕ, ◌+◌, ◌<◌, String, ◌≡◌, refl, sym, ◌∙◌, inl, inr, Bool, true, false, List, [], ◌∷◌, ◌++◌,
  Option, none, some, ◌==◌, elem, Bool-cases, arith,
}
use microservices_demo_nats.Checkout.Outside.{Posted, Outside, IsTimely}
use microservices_demo_nats.Checkout.Context.{
  Context, BusinessFailure, is_truthy, Recorded, accepted_order, terminal_order, Site,
}
use microservices_demo_nats.Checkout.Outcome.{
  CheckoutOutcome, not_accepted, invalid_location, accepted_checkout, posted_checkout,
  checkout_to_outcome,
}
use microservices_demo_nats.Checkout.Outcome.Ends.{
  Left, released, opened, known_outcomes, Ends, fails, Finishes, finishes,
}
use microservices_demo_nats.Checkout.Outcome.Steps.{follow-Finishes}

-- What the recorder is told of one order: nothing, or its acceptance and its end.
abbrev pub records_of : Bool → String → List Recorded
records_of false outcome = []
records_of true outcome = accepted_order ∷ terminal_order outcome ∷ []

pub record Settles {W : Type 0} (s : Site W) (r : CheckoutOutcome W) : Type 0 where
  pub recorded : r.site.recorded ≡ s.recorded ++ records_of r.context.accepted r.context.outcome
  pub streams : Left (s.streams + opened r.open_stream) r.error r.site.streams
  pub read : r.open_stream ≡ true → r.is_started ≡ true
  pub known : r.context.accepted ≡ true → elem r.context.outcome known_outcomes ≡ true
  pub ends : Ends r

-- A result is there, and it settles the order.
pub data Returns {W : Type 0} (s : Site W) : Option (CheckoutOutcome W) → Type 0 where
  returns : {r : CheckoutOutcome W} → Settles s r → Returns s (some r)

-- Only what is recorded and the streams of the first site matter.
Returns-site :
    {W : Type 0} {s u : Site W} {x : Option (CheckoutOutcome W)}
    → u.recorded ≡ s.recorded
    → u.streams ≡ s.streams
    → Returns s x
    → Returns u x
Returns-site r t (returns d) = returns (record {
  recorded = rw r d.recorded;
  streams = rw t d.streams;
  read = d.read;
  known = d.known;
  ends = d.ends;
})

module _ (o : Outside) (timely : IsTimely o) (started outcome_timeout : ℕ) where
  not_accepted-Settles :
      (e : BusinessFailure) (c : Context) (s : Site o.World)
      → c.accepted ≡ false
      → Settles s (not_accepted e c s)
  not_accepted-Settles e c s fresh = record {
    recorded = rw fresh (sym (append-nil s.recorded));
    streams = released (omega arith);
    read = λ h. absurd (cc (h));
    known = λ h. absurd (cc (h, fresh));
    ends = fails e refl refl refl;
  }

  Done-Returns :
      (s : Site o.World) (x : Option (CheckoutOutcome o.World))
      → Finishes o s.streams (s.recorded ++ accepted_order ∷ []) true x
      → Returns s x
  Done-Returns s _ (finishes {r = r} d) = returns (record {
    recorded = d.recorded ∙ rw d.same (append_assoc s.recorded (accepted_order ∷ []) _);
    streams = d.streams;
    read = d.read;
    known = λ h. d.known;
    ends = d.ends;
  })

  accepted_checkout-Returns :
      (fuel : ℕ) (posted : Posted) (c : Context) (s : Site o.World)
      → started + outcome_timeout < fuel
      → Returns s (accepted_checkout o started outcome_timeout fuel posted c s)
  unfolding accepted_checkout
  accepted_checkout-Returns fuel posted c s enough = go posted.location_error refl
    where
      go :
          (x : Option String)
          → posted.location_error ≡ x
          → Returns s (accepted_checkout o started outcome_timeout fuel posted c s)
      go (some text) e =
          rw (accepted_checkout, e)
            (returns (record {
              recorded = append_assoc s.recorded (accepted_order ∷ []) _;
              streams = released (omega arith);
              read = λ h. absurd (cc (h));
              known = λ h. refl;
              ends = fails (invalid_location text) refl refl refl;
            }))
      go none e =
          rw (accepted_checkout, e)
            (Done-Returns s _ (
              follow-Finishes o timely started (started + outcome_timeout) _ s.streams _ true fuel _
                (record { recorded = refl; streams = omega arith; same = refl })
                (λ h. absurd (cc (h))) (omega (arith, enough))))

  posted_checkout-Returns :
      (fuel : ℕ) (posted : Posted) (c : Context) (s : Site o.World)
      → c.accepted ≡ false
      → started + outcome_timeout < fuel
      → Returns s (posted_checkout o started outcome_timeout fuel posted c s)
  unfolding posted_checkout
  posted_checkout-Returns fuel posted c s fresh enough =
      elim (Bool-cases (posted.status_code == 202)) [
        | inl e ↦ elim (Bool-cases (is_truthy posted.location)) [
          | inl there ↦ rw e (rw there (accepted_checkout-Returns fuel posted c s enough))
          | inr missing ↦ rw e (rw missing (returns (not_accepted-Settles _ c s fresh)))
        ]
        | inr e ↦ rw e (returns (not_accepted-Settles _ c s fresh))
      ]

  -- Where the clock does not go back, reading an event takes time and a pause lasts as long as was
  -- asked for, and with more fuel than the time of the deadline: whatever the storefront answers and
  -- however its streams break, `_checkout_to_outcome` returns. An order that is not accepted is not
  -- recorded; an accepted one is recorded as accepted and then once as terminal, under its outcome, which is one of the
  -- known ones.
  -- The result is a completed order without an error, or an error that has the outcome. All streams
  -- but that of a completed order are released, except one that was opened but never read before the
  -- deadline, of an order that is given up (`IsGivenUp`).
  pub checkout_to_outcome-Returns :
      (fuel : ℕ) (c : Context) (s : Site o.World)
      → c.accepted ≡ false
      → started + outcome_timeout < fuel
      → Returns s (checkout_to_outcome o started outcome_timeout fuel c s)
  unfolding checkout_to_outcome
  checkout_to_outcome-Returns fuel c s fresh enough =
      let (posted, w) = o.post_checkout s.world in
      Returns-site refl refl
        (posted_checkout-Returns fuel posted c (record s { world = w }) fresh enough)
