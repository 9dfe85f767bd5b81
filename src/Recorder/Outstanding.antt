-- ===== src/Recorder/Outstanding.antt =====
-- The outstanding orders of a worker: many clients tell one recorder of their orders
-- (src/benchmarkservice/runtime.py, `ArtifactRecorder`; src/benchmarkservice/locustfile.py).
use microservices_demo_nats.Prelude.{
  String, ◌≡◌, refl, ◌∙◌, Bool, true, false, List, [], ◌∷◌, ◌++◌, map, none, some, str_eq, elem,
}
use microservices_demo_nats.Parallel.Records.{Record}
use microservices_demo_nats.Parallel.Merge.{counted}
use microservices_demo_nats.Checkout.Context.{Recorded, accepted_order, terminal_order, Site}
use microservices_demo_nats.Checkout.Wait.{Measured}
use microservices_demo_nats.Checkout.Wait.Returns.{Concluded}
use microservices_demo_nats.Checkout.Outcome.Ends.{known_outcomes}
use microservices_demo_nats.Checkout.Outcome.Settles.{records_of}
use microservices_demo_nats.Recorder.{Recorder, At, write_outstanding, accepted, terminal}

-- What a client tells, and when.
pub record Told : Type 0 where
  pub what : Recorded
  pub at : At

module _ (lower : String → String) where
  unfoldable pub tell : Told → Recorder → Recorder
  tell t r = elim t.what [
    | accepted_order ↦ accepted t.at r
    | terminal_order outcome ↦ terminal lower outcome t.at r
  ]

  unfoldable pub tell_all : List Told → Recorder → Recorder
  tell_all [] r = r
  tell_all (t ∷ ts) r = tell_all ts (tell t r)

  abbrev pub event_of : Recorded → String
  event_of accepted_order = "accepted"
  event_of (terminal_order outcome) = lower outcome

  -- The line of what is told, without the number.
  abbrev pub line_of : Told → Record
  line_of t = record {
    timestamp = some t.at.timestamp;
    event = some (event_of t.what);
    outstanding = none;
    fields = t.at.fields;
  }

  -- No outcome of an order is written like an acceptance.
  abbrev pub KeepsApart : Type 0
  KeepsApart =
      (outcome : String)
      → elem outcome known_outcomes ≡ true
      → str_eq (lower outcome) "accepted" ≡ false

  abbrev pub Apart : Recorded → Type 0
  Apart accepted_order = Unit
  Apart (terminal_order outcome) = str_eq (lower outcome) "accepted" ≡ false

  -- Where no other event is written like an acceptance, `rebase_outstanding` counts as the recorder does.
  pub tell-line :
      (t : Told) (r : Recorder)
      → Apart t.what
      → r.is_open ≡ true
      → let now = counted (line_of t) r.outstanding_count in
        ((tell t r).outstanding
          ≡ r.outstanding ++ record (line_of t) { outstanding = some now } ∷ [])
        × ((tell t r).outstanding_count ≡ now)
        × ((tell t r).is_open ≡ true)
  unfolding tell accepted terminal write_outstanding
  tell-line t r apart is_open = go t.what t.at apart
    where
      go :
          (w : Recorded) (at : At)
          → Apart w
          → let t : Told = record { what = w; at = at } in
            let now = counted (line_of t) r.outstanding_count in
            ((tell t r).outstanding
              ≡ r.outstanding ++ record (line_of t) { outstanding = some now } ∷ [])
            × ((tell t r).outstanding_count ≡ now)
            × ((tell t r).is_open ≡ true)
      go accepted_order at apart = rw is_open (refl, refl, refl)
      go (terminal_order outcome) at apart = rw is_open (rw apart (refl, refl, refl))

-- What one client tells of one order.
pub record IsLane (lane : List Told) : Type 0 where
  pub accepted : Bool
  pub outcome : String
  pub whole : map (λ (t : Told). t.what) lane ≡ records_of accepted outcome
  pub known : accepted ≡ true → elem outcome known_outcomes ≡ true

abbrev pub EachLane : List (List Told) → Type 0
EachLane [] = Unit
EachLane (lane ∷ lanes) = IsLane lane × EachLane lanes

-- A checkout that began with nothing recorded is such a lane.
pub checkout-IsLane :
    {W : Type 0} (s : Site W) (m : Measured W) (lane : List Told)
    → Concluded s m
    → s.recorded ≡ []
    → map (λ (t : Told). t.what) lane ≡ m.site.recorded
    → IsLane lane
checkout-IsLane s m lane d fresh same = record {
  accepted = m.context.accepted;
  outcome = m.context.outcome;
  whole = same ∙ d.recorded ∙ rw fresh refl;
  known = d.known;
}
