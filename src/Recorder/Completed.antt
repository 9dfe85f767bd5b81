-- ===== src/Recorder/Completed.antt =====
-- The count of completed orders, through all operations of the recorder.
use microservices_demo_nats.Prelude.{
  ℕ, suc, ◌+◌, String, ◌≡◌, ap, ◌↔◌, Option, none, some, and_parts, str_eq_iff, refl, inl, inr,
  Bool, true, false, ◌&&◌, List, [], ◌∷◌, ◌++◌, Bool-cases, str_eq, if◌then◌else◌, arith,
}
use microservices_demo_nats.Parallel.Records.{Record}
use microservices_demo_nats.Recorder.{
  Measurement, Recorder, new_recorder, open_recorder, close_recorder, is_completed, has_text,
  request, At, write_outstanding, accepted, terminal,
}

-- One call of the recorder.
pub data Call : Type 0 where
  call_open : Call
  call_close : Call
  call_request : Measurement → Call
  call_accepted : At → Call
  call_terminal : String → At → Call

module _ (lower : String → String) where
  unfoldable pub call : Call → Recorder → Recorder
  call call_open r = open_recorder r
  call call_close r = close_recorder r
  call (call_request m) r = request m r
  call (call_accepted at) r = accepted at r
  call (call_terminal outcome at) r = terminal lower outcome at r

  unfoldable pub calls : List Call → Recorder → Recorder
  calls [] r = r
  calls (c ∷ cs) r = calls cs (call c r)

-- A measurement of `checkout_to_outcome`, whose order is completed.
pub record IsOfCompleted (m : Measurement) : Type 0 where
  pub name : m.name ≡ "checkout_to_outcome"
  pub outcome : m.outcome ≡ some "COMPLETED"

-- How many of the measurements are such.
pub data Completed : List Measurement → ℕ → Type 0 where
  nothing : Completed [] 0
  one_more :
      {m : Measurement} {ms : List Measurement} {n : ℕ}
      → IsOfCompleted m
      → Completed ms n
      → Completed (m ∷ ms) (suc n)
  another :
      {m : Measurement} {ms : List Measurement} {n : ℕ}
      → ¬ IsOfCompleted m
      → Completed ms n
      → Completed (m ∷ ms) n

abbrev completed_in : List Measurement → ℕ
completed_in [] = 0
completed_in (m ∷ ms) = if is_completed m then suc (completed_in ms) else completed_in ms

has_text_lem : (x : Option String) (t : String) → (has_text x t ≡ true) ↔ (x ≡ some t)
has_text_lem none t = (λ h. absurd (cc (h)), λ h. absurd (cc (h)))
has_text_lem (some s) t = (λ h. ap some ((str_eq_iff s t).0 h), λ h. (str_eq_iff s t).1 (cc (h)))

IsOfCompleted-holds : (m : Measurement) → is_completed m ≡ true → IsOfCompleted m
IsOfCompleted-holds m h =
    let (name, outcome) =
      and_parts (str_eq m.name "checkout_to_outcome") (has_text m.outcome "COMPLETED") h in
    record {
      name = (str_eq_iff m.name "checkout_to_outcome").0 name;
      outcome = (has_text_lem m.outcome "COMPLETED").0 outcome;
    }

IsOfCompleted-fails : (m : Measurement) → is_completed m ≡ false → ¬ IsOfCompleted m
IsOfCompleted-fails m h c =
    let name = (str_eq_iff m.name "checkout_to_outcome").1 c.name in
    let outcome = (has_text_lem m.outcome "COMPLETED").1 c.outcome in
    absurd (cc (rw (name, outcome) at h))

completed_in-Completed : (ms : List Measurement) → Completed ms (completed_in ms)
completed_in-Completed [] = nothing
completed_in-Completed (m ∷ ms) = elim (Bool-cases (is_completed m)) [
  | inl e ↦ rw e (one_more (IsOfCompleted-holds m e) (completed_in-Completed ms))
  | inr e ↦ rw e (another (IsOfCompleted-fails m e) (completed_in-Completed ms))
]

Completed-unique : (ms : List Measurement) (n : ℕ) → Completed ms n → n ≡ completed_in ms
Completed-unique _ _ nothing = refl
Completed-unique _ _ (one_more {m = m} {ms = ms} {n = n} c rest) =
    elim (Bool-cases (is_completed m)) [
      | inl e ↦ rw e (ap suc (Completed-unique ms n rest))
      | inr e ↦ absurd (IsOfCompleted-fails m e c)
    ]
Completed-unique _ _ (another {m = m} {ms = ms} {n = n} c rest) =
    elim (Bool-cases (is_completed m)) [
      | inl e ↦ absurd (c (IsOfCompleted-holds m e))
      | inr e ↦ rw e (Completed-unique ms n rest)
    ]

completed_append :
    (ms : List Measurement) (m : Measurement)
    → completed_in (ms ++ m ∷ [])
      ≡ (if is_completed m then suc (completed_in ms) else completed_in ms)
completed_append [] m = refl
completed_append (x ∷ ms) m = elim (Bool-cases (is_completed x)) [
  | inl e ↦ elim (Bool-cases (is_completed m)) [
    | inl h ↦ let rest = completed_append ms m in rw e (rw h (omega (arith, rw h at rest)))
    | inr h ↦ let rest = completed_append ms m in rw e (rw h (omega (arith, rw h at rest)))
  ]
  | inr e ↦ rw e (completed_append ms m)
]

-- What has been counted since the file had `before` completed orders.
abbrev Counted : ℕ → Recorder → Type 0
Counted before r = before + r.completed_count ≡ completed_in r.business

request-Counted :
    (before : ℕ) (m : Measurement) (r : Recorder) → Counted before r → Counted before (request m r)
unfolding request
request-Counted before m r h = elim (Bool-cases (str_eq m.request_type "BUSINESS" && r.is_open)) [
  | inl e ↦ rw e (added (is_completed m) refl)
  | inr e ↦ rw e h
]
  where
    added :
        (b : Bool)
        → is_completed m ≡ b
        → before + (if is_completed m then suc r.completed_count else r.completed_count)
          ≡ completed_in (r.business ++ m ∷ [])
    added true e = let last = completed_append r.business m in rw e (omega (arith, rw e at last, h))
    added false e =
        let last = completed_append r.business m in rw e (omega (arith, rw e at last, h))

write_same :
    (before : ℕ) (event : String) (at : At) (r : Recorder)
    → Counted before r
    → Counted before (write_outstanding event at r)
unfolding write_outstanding
write_same before event at r h = elim (Bool-cases r.is_open) [ inl e ↦ rw e h | inr e ↦ rw e h ]

call-Counted :
    (lower : String → String) (before : ℕ) (c : Call) (r : Recorder)
    → Counted before r
    → Counted before (call lower c r)
unfolding call accepted terminal
call-Counted lower before call_open r h = h
call-Counted lower before call_close r h = h
call-Counted lower before (call_request m) r h = request-Counted before m r h
call-Counted lower before (call_accepted at) r h = write_same before _ at _ h
call-Counted lower before (call_terminal outcome at) r h = write_same before _ at _ h

calls-Counted :
    (lower : String → String) (before : ℕ) (cs : List Call) (r : Recorder)
    → Counted before r
    → Counted before (calls lower cs r)
unfolding calls
calls-Counted lower before [] r h = h
calls-Counted lower before (c ∷ cs) r h =
    calls-Counted lower before cs (call lower c r) (call-Counted lower before c r h)

-- After any calls of a new recorder whose file had measurements of `before` completed orders, a measurement
-- being one of `checkout_to_outcome` with the outcome `COMPLETED`: the file has those of as many more as
-- the recorder's number of completed orders says.
pub completed_count_lem :
    (lower : String → String) (business : List Measurement) (outstanding : List Record) (before : ℕ)
    (cs : List Call)
    → Completed business before
    → let r = calls lower cs (new_recorder business outstanding) in
      Completed r.business (before + r.completed_count)
completed_count_lem lower business outstanding before cs had =
    let r = calls lower cs (new_recorder business outstanding) in
    let same = Completed-unique business before had in
    let counted =
      calls-Counted lower (completed_in business) cs (new_recorder business outstanding)
        (omega arith) in
    let total : before + r.completed_count ≡ completed_in r.business =
      omega (arith, same, counted) in
    rw total (completed_in-Completed r.business)
