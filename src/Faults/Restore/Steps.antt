-- ===== src/Faults/Restore/Steps.antt =====
-- What each step of the controller keeps: only a deployment that it holds may lack replicas.
use microservices_demo_nats.Prelude.{
  ℕ, zero, suc, ◌+◌, ◌*◌, ◌-◌, min, String, ◌≡◌, refl, sym, ap, ◌∙◌, Bool, true, false, List, [],
  ◌∷◌, str_eq, str_eq_iff, Bool-cases, inl, inr, arith, Result, ok, err,
}
use microservices_demo_nats.Faults.Outside.{
  Fault, Action, scale_down_started, disabled, scale_up_started, reenabled, Outside, IsCluster,
}
use microservices_demo_nats.Faults.Controller.{
  RunError, journal_failed, command_failed, outcome, is_held, Running, M, ◌>>=◌, wait_from,
  wait_until, waiting, noting, scaling, marking, unmarking, inject, inject_all,
}
use microservices_demo_nats.Faults.Restore.Marks.{
  AllKnown, mark-AllKnown, unmark-AllKnown, is_held-mark, is_held-unmark,
}

module _ (o : Outside) (replicas : o.State → String → ℕ) (law : IsCluster o replicas)
    (want : String → ℕ) where
  -- Only the given deployments may lack replicas.
  abbrev pub Rest : List Fault → o.State → Type 0
  Rest gs s = (dep : String) → is_held dep gs ≡ false → replicas s dep ≡ want dep

  pub record Safe (c : Running o.State) : Type 0 where
    pub rest : Rest c.scaled_down c.outside
    pub known : AllKnown want c.scaled_down

  -- What holds after a call that returns; after one that raises, `Safe` does.
  abbrev pub After :
      {A : Type 0} → (Running o.State → Type 0) → Result RunError A × Running o.State → Type 0
  After Q (ok a, c) = Q c
  After Q (err e, c) = Safe c

  abbrev pub Triple :
      {A : Type 0} → (Running o.State → Type 0) → M o.State A → (Running o.State → Type 0) → Type 0
  Triple P m Q = (c : Running o.State) → P c → After Q (m c)

  then-Triple :
      {A B : Type 0} (P Q R : Running o.State → Type 0) (m : M o.State A) (f : A → M o.State B)
      → Triple P m Q
      → ((a : A) → Triple Q (f a) R)
      → Triple P (m >>= f) R
  unfolding ◌>>=◌
  then-Triple {A} {B} P Q R m f h k c p = go (m c) (h c p)
    where
      go :
          (r : Result RunError A × Running o.State)
          → After {A = A} Q r
          → After {A = B} R (elim r.0 [ ok a ↦ f a r.1 | err e ↦ (err e, r.1) ])
      go (ok a, d) q = k a d q
      go (err e, d) q = q

  Held : Fault → Running o.State → Type 0
  Held f c = Safe c × (is_held f.deployment c.scaled_down ≡ true)

  After-Held :
      (f : Fault) (c : Running o.State) (r : Result RunError (Unit {0}) × Running o.State)
      → r.1.scaled_down ≡ c.scaled_down
      → is_held f.deployment c.scaled_down ≡ true
      → After Safe r
      → After (Held f) r
  unfolding Held
  After-Held f c (ok a, d) same held safe = (safe, ap (is_held f.deployment) same ∙ held)
  After-Held f c (err e, d) same held safe = safe

  -- The deployment has its replicas again.
  Up : Fault → Running o.State → Type 0
  Up f c = Held f c × (replicas c.outside f.deployment ≡ want f.deployment)

  wait_from-keeps :
      (n deadline : ℕ) (s : o.State) (dep : String)
      → replicas (wait_from o n deadline s).1 dep ≡ replicas s dep
  unfolding wait_from
  wait_from-keeps zero deadline s dep = refl
  wait_from-keeps (suc n) deadline s dep =
      let d : ℕ = min (deadline - o.now s) 500 in
      ground (arith, wait_from-keeps n deadline (o.pause d s).1 dep, law.at_pause d s dep)

  -- A step of the outside after which the replicas are as before.
  Safe-moved :
      (gs : List Fault) (s t : o.State)
      → ((dep : String) → replicas t dep ≡ replicas s dep)
      → Safe (record { scaled_down = gs; outside = s })
      → Safe (record { scaled_down = gs; outside = t })
  Safe-moved gs s t same safe = record {
    rest = λ dep h. same dep ∙ safe.rest dep h;
    known = safe.known;
  }

  waiting-Safe : (deadline : ℕ) → Triple Safe (waiting o deadline) Safe
  unfolding wait_until
  waiting-Safe deadline c safe =
      go (wait_from o (suc (deadline - o.now c.outside)) deadline c.outside)
        (wait_from-keeps (suc (deadline - o.now c.outside)) deadline c.outside)
    where
      go :
          (r : Result RunError (Unit {0}) × o.State)
          → ((dep : String) → replicas r.1 dep ≡ replicas c.outside dep)
          → After Safe (r.0, record c { outside = r.1 })
      go (ok a, t) same = Safe-moved c.scaled_down c.outside t same safe
      go (err e, t) same = Safe-moved c.scaled_down c.outside t same safe

  waiting-Held : (f : Fault) (deadline : ℕ) → Triple (Held f) (waiting o deadline) (Held f)
  unfolding Held
  waiting-Held f deadline c (safe, held) =
      After-Held f c (waiting o deadline c) refl held (waiting-Safe deadline c safe)

  noting-Safe : (f : Fault) (a : Action) → Triple Safe (noting o f a) Safe
  noting-Safe f a c safe = go (o.note f a c.outside) (law.at_note f a c.outside)
    where
      go :
          (r : Bool × o.State)
          → ((dep : String) → replicas r.1 dep ≡ replicas c.outside dep)
          → After Safe (outcome r.0 journal_failed, record c { outside = r.1 })
      go (true, t) same = Safe-moved c.scaled_down c.outside t same safe
      go (false, t) same = Safe-moved c.scaled_down c.outside t same safe

  noting-Held : (f : Fault) (a : Action) → Triple (Held f) (noting o f a) (Held f)
  unfolding Held
  noting-Held f a c (safe, held) =
      After-Held f c (noting o f a c) refl held (noting-Safe f a c safe)

  -- Scaling a deployment that is held is safe, whether it works or not.
  scaling-Held : (f : Fault) (n : ℕ) → Triple (Held f) (scaling o f.deployment n) (Held f)
  unfolding Held
  scaling-Held f n c (safe, held) = go (o.scale f.deployment n c.outside) moved
    where
      moved :
          (dep : String)
          → is_held dep c.scaled_down ≡ false
          → replicas (o.scale f.deployment n c.outside).1 dep ≡ want dep
      moved dep h =
          law.at_other f.deployment dep n c.outside
            (ground (arith, str_eq_iff f.deployment dep, h, held))
          ∙ safe.rest dep h

      go :
          (r : Bool × o.State)
          → Rest c.scaled_down r.1
          → After (Held f) (outcome r.0 command_failed, record c { outside = r.1 })
      go (true, t) rest = (record { rest = rest; known = safe.known }, held)
      go (false, t) rest = record { rest = rest; known = safe.known }

  scaling-Up :
      (f : Fault)
      → f.original_replicas ≡ want f.deployment
      → Triple (Held f) (scaling o f.deployment f.original_replicas) (Up f)
  unfolding Up
  scaling-Up f own c held =
      go (o.scale f.deployment f.original_replicas c.outside)
        (law.at_scaled f.deployment f.original_replicas c.outside)
        (scaling-Held f f.original_replicas c held)
    where
      go :
          (r : Bool × o.State)
          → (r.0 ≡ true → replicas r.1 f.deployment ≡ f.original_replicas)
          → After (Held f) (outcome r.0 command_failed, record c { outside = r.1 })
          → After (Up f) (outcome r.0 command_failed, record c { outside = r.1 })
      go (true, t) up h = (h, up refl ∙ own)
      go (false, t) up h = h

  marking-Held :
      (f : Fault) → f.original_replicas ≡ want f.deployment → Triple Safe (marking o f) (Held f)
  unfolding Held
  marking-Held f own c safe = (
    record {
      rest = λ dep h. safe.rest dep (ground (arith, is_held-mark f c.scaled_down dep));
      known = mark-AllKnown want f c.scaled_down own safe.known;
    },
    ground (arith, is_held-mark f c.scaled_down f.deployment, str_eq_iff f.deployment f.deployment),
  )

  unmarking-Safe : (f : Fault) → Triple (Up f) (unmarking o f.deployment) Safe
  unfolding Up Held
  unmarking-Safe f c ((safe, held), up) = record {
    rest = λ dep h. elim (Bool-cases (str_eq f.deployment dep)) [
      | inl e ↦ rw (← ((str_eq_iff f.deployment dep).0 e)) up
      | inr e ↦ safe.rest dep (sym (is_held-unmark f.deployment c.scaled_down dep e) ∙ h)
    ];
    known = unmark-AllKnown want f.deployment c.scaled_down safe.known;
  }

  inject-Safe :
      (start : ℕ) (f : Fault)
      → f.original_replicas ≡ want f.deployment
      → Triple Safe (inject o start f) Safe
  unfolding inject
  inject-Safe start f own =
      then-Triple Safe Safe Safe _ _ (waiting-Safe (start + 1000 * f.disable_at_seconds)) λ _.
        then-Triple Safe Safe Safe _ _ (noting-Safe f scale_down_started) λ _.
          then-Triple Safe (Held f) Safe _ _ (marking-Held f own) λ _.
            then-Triple (Held f) (Held f) Safe _ _ (scaling-Held f 0) λ _.
              then-Triple (Held f) (Held f) Safe _ _ (noting-Held f disabled) λ _.
                then-Triple (Held f) (Held f) Safe _ _
                  (waiting-Held f (start + 1000 * f.enable_at_seconds))
                  λ _. then-Triple (Held f) (Held f) Safe _ _ (noting-Held f scale_up_started) λ _.
                    then-Triple (Held f) (Up f) Safe _ _ (scaling-Up f own) λ _.
                      then-Triple (Up f) Safe Safe _ _ (unmarking-Safe f)
                        λ _. noting-Safe f reenabled

  pub inject_all-Safe :
      (start duration : ℕ) (fs : List Fault)
      → AllKnown want fs
      → Triple Safe (inject_all o start duration fs) Safe
  unfolding inject_all
  inject_all-Safe start duration [] known = waiting-Safe (start + 1000 * duration)
  inject_all-Safe start duration (f ∷ fs) (own, known) =
      then-Triple Safe Safe Safe _ _ (inject-Safe start f own)
        λ _. inject_all-Safe start duration fs known

  pub After-Safe : (r : Result RunError (Unit {0}) × Running o.State) → After Safe r → Safe r.1
  After-Safe (ok a, c) h = h
  After-Safe (err e, c) h = h
