-- ===== src/Saturation/Coordination.antt =====
-- The workers' coordination on the rungs of a run (src/benchmarkservice/saturation.py,
-- `SaturationCoordinator.finish_rung` and `_wait`), as a step relation: between two steps of one
-- worker the others may take any number of steps. A run of one worker decides on its own progress,
-- without the store, and is not a run of these steps.
use microservices_demo_nats.Prelude.{
  ℕ, suc, ◌<◌, String, ◌≡◌, ◌≢◌, List, [], ◌∷◌, ◌++◌, Option, none, some, ◌==◌, length,
  if◌then◌else◌,
}
use microservices_demo_nats.Saturation.Evaluation.{Floats}
use microservices_demo_nats.Saturation.Decision.{Progress, Window, Decision, progress_of, decide}

-- Where a worker stands: before `finish_rung` of its next rung, in it, or out by `TimeoutError`.
-- Worker 0 has read the progress of some workers, the first ones.
pub data Phase (F : Type 0) : Type 0 where
  measuring : ℕ → Phase F
  collecting : ℕ → Window F → List (Progress F) → Phase F
  awaiting : ℕ → Phase F
  timed_out : ℕ → Phase F

-- What `finish_rung` has returned to a worker.
pub record Returned (F : Type 0) : Type 0 where
  pub worker : ℕ
  pub rung : ℕ
  pub decision : Decision F

abbrev pub set_at : {A : Type 0} → (ℕ → A) → ℕ → A → ℕ → A
set_at f k v j = if j == k then v else f j

-- The shared store, under the names `saturation/<rung>/worker-<index>.json` and
-- `saturation/<rung>/decision.json` of the run, with the workers and worker 0's `previous_goodput`.
pub record Cluster (F : Type 0) : Type 0 where
  pub progress : ℕ → ℕ → Option (Progress F)
  pub decision : ℕ → Option (Decision F)
  pub phase : ℕ → Phase F
  pub previous_goodput : Option F
  pub returned : List (Returned F)

abbrev pub put_progress : {F : Type 0} → ℕ → ℕ → Window F → Cluster F → Cluster F
put_progress rung index w s = record s {
  progress = set_at s.progress rung (set_at (s.progress rung) index (some (progress_of index w)));
}

abbrev pub initial : {F : Type 0} → Cluster F
initial = record {
  progress = λ rung index. none;
  decision = λ rung. none;
  phase = λ index. measuring 0;
  previous_goodput = none;
  returned = [];
}

module _ (fl : Floats) (application_type : String) (workers : ℕ) where
  -- Worker 0 decides, stores the decision and returns it.
  abbrev pub decided :
      ℕ → Window fl.Float → List (Progress fl.Float) → Cluster fl.Float → Cluster fl.Float
  decided rung w progresses s =
      let (d, goodput) = decide fl application_type workers rung w s.previous_goodput progresses in
      record s {
        decision = set_at s.decision rung (some d);
        phase = set_at s.phase 0 (measuring (suc rung));
        previous_goodput = goodput;
        returned = record { worker = 0; rung = rung; decision = d } ∷ s.returned;
      }

  pub data Step (s : Cluster fl.Float) : Cluster fl.Float → Type 0 where
    begin_first :
        (rung : ℕ) (w : Window fl.Float)
        → s.phase 0 ≡ measuring rung
        → Step s
            (record (put_progress rung 0 w s) { phase = set_at s.phase 0 (collecting rung w []) })
    begin_other :
        (index rung : ℕ) (w : Window fl.Float)
        → index ≢ 0
        → s.phase index ≡ measuring rung
        → Step s
            (record (put_progress rung index w s) { phase = set_at s.phase index (awaiting rung) })
    collect :
        (rung : ℕ) (w : Window fl.Float) (ps : List (Progress fl.Float)) (p : Progress fl.Float)
        → s.phase 0 ≡ collecting rung w ps
        → length ps < workers
        → s.progress rung (length ps) ≡ some p
        → Step s (record s { phase = set_at s.phase 0 (collecting rung w (ps ++ p ∷ [])) })
    settle :
        (rung : ℕ) (w : Window fl.Float) (ps : List (Progress fl.Float))
        → s.phase 0 ≡ collecting rung w ps
        → length ps ≡ workers
        → Step s (decided rung w ps s)
    receive :
        (index rung : ℕ) (d : Decision fl.Float)
        → s.phase index ≡ awaiting rung
        → s.decision rung ≡ some d
        → Step s (record s {
          phase = set_at s.phase index (measuring (suc rung));
          returned = record { worker = index; rung = rung; decision = d } ∷ s.returned;
        })
    give_up_collecting :
        (rung : ℕ) (w : Window fl.Float) (ps : List (Progress fl.Float))
        → s.phase 0 ≡ collecting rung w ps
        → Step s (record s { phase = set_at s.phase 0 (timed_out rung) })
    give_up_awaiting :
        (index rung : ℕ)
        → s.phase index ≡ awaiting rung
        → Step s (record s { phase = set_at s.phase index (timed_out rung) })

  pub data Reachable : Cluster fl.Float → Type 0 where
    started : Reachable initial
    stepped : {s t : Cluster fl.Float} → Reachable s → Step s t → Reachable t
