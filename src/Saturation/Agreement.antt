-- ===== src/Saturation/Agreement.antt =====
-- All workers return one decision on each rung, and it rests on the progress of all of them.
use microservices_demo_nats.Prelude.{ℕ, String, ◌≡◌, refl, sym, ap, ◌∙◌, List, ◌∷◌, Option, some}
use microservices_demo_nats.Saturation.Evaluation.{Floats}
use microservices_demo_nats.Saturation.Decision.{Decision}
use microservices_demo_nats.Saturation.Coordination.{Returned, Cluster, Reachable, started, stepped}
use microservices_demo_nats.Saturation.Invariant.{Founded, AllStored, Sound, step_Sound}

pub data Among {A : Type 0} (x : A) : List A → Type 0 where
  first : {xs : List A} → Among x (x ∷ xs)
  after : {y : A} {xs : List A} → Among x xs → Among x (y ∷ xs)

some-injective : {A : Type 0} (a b : A) → some a ≡ some b → a ≡ b
some-injective a b h = cc

module _ (fl : Floats) (application_type : String) (workers : ℕ) where
  Reachable-Sound :
      (s : Cluster fl.Float)
      → Reachable fl application_type workers s
      → Sound fl application_type workers s
  Reachable-Sound _ started = record {
    behind = λ i r h. refl;
    undecided = λ r h. refl;
    gathers = tt;
    founded = λ r d h. absurd (cc);
    stored = tt;
  }
  Reachable-Sound t (stepped {s = s} before step) =
      step_Sound fl application_type workers s t step (Reachable-Sound s before)

  stored-Among :
      (decisions : ℕ → Option (Decision fl.Float)) (x : Returned fl.Float)
      (xs : List (Returned fl.Float))
      → Among x xs
      → AllStored fl application_type workers decisions xs
      → decisions x.rung ≡ some x.decision
  stored-Among decisions x _ first h = h.0
  stored-Among decisions x _ (after {xs = xs} among) h = stored-Among decisions x xs among h.1

  -- However the steps of the workers interleave, and whichever of them time out: two decisions that
  -- were returned for one rung are the same, and it is the one that follows from the progress
  -- stored for that rung under each worker's name, once each and in the order of the workers.
  pub returned_agree :
      (s : Cluster fl.Float) (x y : Returned fl.Float)
      → Reachable fl application_type workers s
      → Among x s.returned
      → Among y s.returned
      → x.rung ≡ y.rung
      → (x.decision ≡ y.decision) × Founded fl application_type workers s.progress x.rung x.decision
  returned_agree s x y reached in_x in_y same =
      let q = Reachable-Sound s reached in
      let at_x = stored-Among s.decision x s.returned in_x q.stored in
      let at_y = stored-Among s.decision y s.returned in_y q.stored in
      (
        some-injective x.decision y.decision (sym at_x ∙ ap s.decision same ∙ at_y),
        q.founded x.rung x.decision at_x,
      )
