-- ===== src/Examples/Recorder.antt =====
-- Three orders of clients that tell one recorder, one of them not accepted.
use microservices_demo_nats.Prelude.{
  ℕ, ◌+◌, String, ◌≡◌, refl, inl, inr, true, false, List, [], ◌∷◌, map, some, str_eq, Bool-cases,
  if◌then◌else◌,
}
use microservices_demo_nats.Parallel.Records.{Record}
use microservices_demo_nats.Parallel.Interleaving.{
  here, there, no_lane, empty, Interleaves, over, next,
}
use microservices_demo_nats.Parallel.Outstanding.{Covered, Balanced}
use microservices_demo_nats.Checkout.Context.{accepted_order, terminal_order}
use microservices_demo_nats.Recorder.{
  Recorder, new_recorder, open_recorder, At, accepted, terminal, write_outstanding, Measurement,
  request,
}
use microservices_demo_nats.Recorder.Outstanding.{Told, tell, tell_all, KeepsApart, EachLane}
use microservices_demo_nats.Recorder.Accounts.{recorder-Accounts}
use microservices_demo_nats.Recorder.Completed.{
  call_open, call_request, call_accepted, call_close, Call, call, calls, Completed, nothing,
  one_more, completed_count_lem,
}

-- `str.lower`, as far as it matters here
abbrev lower : String → String
lower outcome = if str_eq outcome "COMPLETED" then "completed" else "failed"

lower-KeepsApart : KeepsApart lower
lower-KeepsApart outcome known = elim (Bool-cases (str_eq outcome "COMPLETED")) [
  | inl e ↦ rw e refl
  | inr e ↦ rw e refl
]

abbrev at : ℕ → At
at t = record { timestamp = t; fields = "" }

abbrev accepts : ℕ → Told
accepts t = record { what = accepted_order; at = at t }

abbrev concludes : String → ℕ → Told
concludes outcome t = record { what = terminal_order outcome; at = at t }

abbrev lanes : List (List Told)
lanes =
    (accepts 1 ∷ concludes "COMPLETED" 4 ∷ []) ∷ [] ∷ (accepts 2 ∷ concludes "TIMEOUT" 3 ∷ []) ∷ []

abbrev all_told : List Told
all_told = accepts 1 ∷ accepts 2 ∷ concludes "TIMEOUT" 3 ∷ concludes "COMPLETED" 4 ∷ []

each_lane : EachLane lanes
each_lane = (
  record { accepted = true; outcome = "COMPLETED"; whole = refl; known = λ h. refl },
  (
    record {
      accepted = false;
      outcome = "HTTP_FAILURE";
      whole = refl;
      known = λ h. absurd (cc (h));
    },
    (record { accepted = true; outcome = "TIMEOUT"; whole = refl; known = λ h. refl }, tt),
  ),
)

interleaved : Interleaves lanes all_told
interleaved = next here (
    next (there (there here))
      (next (there (there here)) (next here (over (empty (empty (empty no_lane)))))))

abbrev recorder : Recorder
recorder = open_recorder (new_recorder [] [])

recorder-Accounts_example :
    Balanced 0 0 (tell_all lower all_told recorder).outstanding
    × Covered 0 (tell_all lower all_told recorder).outstanding
    × ((tell_all lower all_told recorder).outstanding_count ≡ 0)
recorder-Accounts_example =
    recorder-Accounts lower lower-KeepsApart lanes all_told recorder each_lane interleaved refl refl
      refl

told_totals :
    map (λ (r : Record). r.outstanding) (tell_all lower all_told recorder).outstanding
    ≡ some 1 ∷ some 2 ∷ some 1 ∷ some 0 ∷ []
unfolding tell_all tell accepted terminal write_outstanding
told_totals = refl

abbrev completed : Measurement
completed = record {
  request_type = "BUSINESS";
  name = "checkout_to_outcome";
  outcome = some "COMPLETED";
  fields = "";
}

-- A measurement after the close is not counted, and not written.
abbrev some_calls : List Call
some_calls =
    call_open
    ∷ call_request completed
    ∷ call_accepted (at 1)
    ∷ call_close
    ∷ call_request completed
    ∷ []

one_before : Completed (completed ∷ []) 1
one_before = one_more (record { name = refl; outcome = refl }) nothing

completed_count_lem_example :
    let r = calls lower some_calls (new_recorder (completed ∷ []) []) in
    Completed r.business (1 + r.completed_count)
completed_count_lem_example = completed_count_lem lower (completed ∷ []) [] 1 some_calls one_before

counted_once : (calls lower some_calls (new_recorder (completed ∷ []) [])).completed_count ≡ 1
unfolding calls call request accepted write_outstanding
counted_once = refl
