-- ===== src/Recorder.antt =====
-- The recorder of a worker (src/benchmarkservice/runtime.py, `ArtifactRecorder`). Its lock makes one
-- operation of each call; a file that is written to keeps its lines when it is opened again.
pub mod Outstanding
pub mod Accounts
pub mod Completed
use microservices_demo_nats.Prelude.{
  ℕ, suc, ◌-◌, String, Bool, true, false, ◌&&◌, List, [], ◌∷◌, ◌++◌, Option, none, some, str_eq,
  if◌then◌else◌,
}
use microservices_demo_nats.Parallel.Records.{Record}

-- A measurement of a business transaction, with the outcome that its context has.
pub record Measurement : Type 0 where
  pub request_type : String
  pub name : String
  pub outcome : Option String
  pub fields : String

pub record Recorder : Type 0 where
  pub is_open : Bool
  pub business : List Measurement
  pub outstanding : List Record
  pub outstanding_count : ℕ
  pub completed_count : ℕ

abbrev pub new_recorder : List Measurement → List Record → Recorder
new_recorder business outstanding = record {
  is_open = false;
  business = business;
  outstanding = outstanding;
  outstanding_count = 0;
  completed_count = 0;
}

abbrev pub open_recorder : Recorder → Recorder
open_recorder r = record r { is_open = true }

abbrev pub close_recorder : Recorder → Recorder
close_recorder r = record r { is_open = false }

abbrev pub has_text : Option String → String → Bool
has_text none s = false
has_text (some t) s = str_eq t s

abbrev pub is_completed : Measurement → Bool
is_completed m = str_eq m.name "checkout_to_outcome" && has_text m.outcome "COMPLETED"

unfoldable pub request : Measurement → Recorder → Recorder
request m r =
    if str_eq m.request_type "BUSINESS" && r.is_open
    then record r {
      business = r.business ++ m ∷ [];
      completed_count = if is_completed m then suc r.completed_count else r.completed_count;
    }
    else r

-- When something is recorded, and the transaction and the phase that it is recorded of.
pub record At : Type 0 where
  pub timestamp : ℕ
  pub fields : String

-- `_write_outstanding`
unfoldable pub write_outstanding : String → At → Recorder → Recorder
write_outstanding event at r =
    let line : Record = record {
      timestamp = some at.timestamp;
      event = some event;
      outstanding = some r.outstanding_count;
      fields = at.fields;
    } in
    if r.is_open then record r { outstanding = r.outstanding ++ line ∷ [] } else r

unfoldable pub accepted : At → Recorder → Recorder
accepted at r =
    write_outstanding "accepted" at (record r { outstanding_count = suc r.outstanding_count })

-- `lower` is `str.lower`; `max(0, …)` is the subtraction's floor.
unfoldable pub terminal : (String → String) → String → At → Recorder → Recorder
terminal lower outcome at r =
    write_outstanding (lower outcome) at (record r { outstanding_count = r.outstanding_count - 1 })
