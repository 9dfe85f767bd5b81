-- ===== src/Parallel/Merge.antt =====
-- `merge_worker_outputs` (src/benchmarkservice/parallel.py).
use microservices_demo_nats.Prelude.{
  ℕ, zero, suc, ◌-◌, String, Bool, false, List, [], ◌∷◌, ◌++◌, map, Option, none, some, ltb, length,
  sum, str_eq, if◌then◌else◌, Result, ok, err, ◌>>=◌,
}
use microservices_demo_nats.Parallel.Records.{
  Record, Json, MergeError, malformed_status, no_workers, read_records, write_records, timestamp_of,
}

module _ {A : Type 0} (key : A → ℕ) where
  -- The first record of the first lane, unless a later lane has one with a smaller key.
  abbrev pub pick : A → List A → List (List A) → Option (A × List (List A)) → A × List (List A)
  pick x xs lanes none = (x, xs ∷ lanes)
  pick x xs lanes (some (y, rest)) =
      if ltb (key y) (key x) then (y, (x ∷ xs) ∷ rest) else (x, xs ∷ lanes)

  abbrev pub past : Option (A × List (List A)) → Option (A × List (List A))
  past none = none
  past (some (y, rest)) = some (y, [] ∷ rest)

  -- The record that `heapq.merge` takes next, and the lanes without it.
  unfoldable pub least : List (List A) → Option (A × List (List A))
  least [] = none
  least ([] ∷ lanes) = past (least lanes)
  least ((x ∷ xs) ∷ lanes) = some (pick x xs lanes (least lanes))

  unfoldable pub merge_steps : ℕ → List (List A) → List A
  merge_steps zero lanes = []
  merge_steps (suc n) lanes = elim (least lanes) [
    | none ↦ []
    | some (x, rest) ↦ x ∷ merge_steps n rest
  ]

  -- `heapq.merge`: one step for each record that there is.
  unfoldable pub merge : List (List A) → List A
  merge lanes = merge_steps (sum (map length lanes)) lanes

-- `json.load` of a worker's status, and the exception that it raises: `none` is a value that is not
-- an object.
pub record Statuses (Status : Type 0) : Type 0 where
  pub load : String → Option (Option Status)

-- The files of one worker; those of `locust_*.csv` are sorted, and named by what follows `locust`.
pub record WorkerDirectory : Type 0 where
  pub business : Option (List String)
  pub outstanding : Option (List String)
  pub resources : Option String
  pub saturation : Option String
  pub workflow_events : Option String
  pub status : Option String
  pub log : Option String
  pub statistics : List (String × String)

-- The files of the run. The log has a part for each worker, under its number.
pub record RunDirectory (Status : Type 0) : Type 0 where
  pub business : List String
  pub outstanding : List String
  pub resources : Option String
  pub saturation : Option String
  pub workflow_events : Option String
  pub workers : List Status
  pub log : List (ℕ × Option String)
  pub statistics : List (ℕ × String × String)

abbrev pub is_accepted : Record → Bool
is_accepted r = elim r.event [ none ↦ false | some e ↦ str_eq e "accepted" ]

abbrev pub counted : Record → ℕ → ℕ
counted r total = if is_accepted r then suc total else total - 1

-- `rebase_outstanding`, from a total on.
unfoldable pub rebase : ℕ → List Record → List Record
rebase total [] = []
rebase total (r ∷ rs) =
    let now = counted r total in record r { outstanding = some now } ∷ rebase now rs

-- The records of one file of each worker.
unfoldable pub read_lanes :
    Json → List (Option (List String)) → Result MergeError (List (List Record))
read_lanes json [] = ok []
read_lanes json (file ∷ files) = do
  records ← read_records json file
  lanes ← read_lanes json files
  ok (records ∷ lanes)

module _ {Status : Type 0} (json : Json) (statuses : Statuses Status) where
  abbrev pub read_status : Option String → Result MergeError (List Status)
  read_status none = ok []
  read_status (some text) = elim (statuses.load text) [
    | none ↦ err malformed_status
    | some none ↦ ok []
    | some (some status) ↦ ok (status ∷ [])
  ]

  unfoldable pub read_statuses : List WorkerDirectory → Result MergeError (List Status)
  read_statuses [] = ok []
  read_statuses (w ∷ ws) = do
    status ← read_status w.status
    rest ← read_statuses ws
    ok (status ++ rest)

  unfoldable pub logs : ℕ → List WorkerDirectory → List (ℕ × Option String)
  logs index [] = []
  logs index (w ∷ ws) = (index, w.log) ∷ logs (suc index) ws

  unfoldable pub copies : ℕ → List WorkerDirectory → List (ℕ × String × String)
  copies index [] = []
  copies index (w ∷ ws) =
      map (λ (file : String × String). (index, file.0, file.1)) w.statistics
      ++ copies (suc index) ws

  -- The artifacts that the workers share are those of the first one.
  abbrev pub combined :
      List Record
      → List Record
      → List Status
      → List WorkerDirectory
      → Result MergeError (RunDirectory Status)
  combined business outstanding found [] = err no_workers
  combined business outstanding found (w ∷ ws) = ok (record {
    business = write_records json business;
    outstanding = write_records json outstanding;
    resources = w.resources;
    saturation = w.saturation;
    workflow_events = w.workflow_events;
    workers = found;
    log = logs 0 (w ∷ ws);
    statistics = copies 0 (w ∷ ws);
  })

  unfoldable pub merge_worker_outputs :
      List WorkerDirectory → Result MergeError (RunDirectory Status)
  merge_worker_outputs workers = do
    business ← read_lanes json (map (λ (w : WorkerDirectory). w.business) workers)
    outstanding ← read_lanes json (map (λ (w : WorkerDirectory). w.outstanding) workers)
    found ← read_statuses workers
    combined (merge timestamp_of business) (rebase 0 (merge timestamp_of outstanding)) found workers
