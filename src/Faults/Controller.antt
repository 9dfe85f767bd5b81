-- ===== src/Faults/Controller.antt =====
-- `FaultController.__call__` and `_wait_until`.
use microservices_demo_nats.Prelude.{
  ℕ, zero, suc, ◌+◌, ◌-◌, ◌*◌, min, String, Bool, true, false, ◌&&◌, List, [], ◌∷◌, leb, ◌==◌,
  str_eq, any, Result, ok, err, if◌then◌else◌,
}
use microservices_demo_nats.Faults.Outside.{
  Fault, Action, scale_down_started, disabled, scale_up_started, reenabled, restored,
  restore_failed, Outside,
}

-- InterruptedError, a failed command, a failed write, and the error that ends a restoration.
-- `still_waiting` is no error of the code: the fuel of a wait ran out.
pub data RunError : Type 0 where
  interrupted command_failed journal_failed not_restored still_waiting : RunError

-- `scaled_down[fault.deployment] = fault`: an old key keeps its place.
unfoldable pub mark : Fault → List Fault → List Fault
mark f [] = f ∷ []
mark f (g ∷ gs) = if str_eq g.deployment f.deployment then f ∷ gs else g ∷ mark f gs

-- `scaled_down.pop(deployment, None)`
unfoldable pub unmark : String → List Fault → List Fault
unmark dep [] = []
unmark dep (g ∷ gs) = if str_eq g.deployment dep then unmark dep gs else g ∷ unmark dep gs

abbrev pub is_held : String → List Fault → Bool
is_held dep gs = any (λ g. str_eq g.deployment dep) gs

-- `reversed(tuple(...))`, in front of an accumulator.
unfoldable pub reversed_onto : List Fault → List Fault → List Fault
reversed_onto [] gs = gs
reversed_onto (f ∷ fs) gs = reversed_onto fs (f ∷ gs)

pub record Running (S : Type 0) : Type 0 where
  pub scaled_down : List Fault
  pub outside : S

abbrev pub M : Type 0 → Type 0 → Type 0
M S A = Running S → Result RunError A × Running S

-- Shut, so that proofs follow a `do` block step by step.
infixl 5 ◌>>=◌ ◌>>◌
unfoldable pub ◌>>=◌ : {S A B : Type 0} → M S A → (A → M S B) → M S B
◌>>=◌ m f c = elim (m c).0 [ ok a ↦ f a (m c).1 | err e ↦ (err e, (m c).1) ]

abbrev pub ◌>>◌ : {S B : Type 0} → M S (Unit {0}) → M S B → M S B
m >> k = m >>= λ _. k

abbrev pub outcome : Bool → RunError → Result RunError (Unit {0})
outcome true e = ok tt
outcome false e = err e

module _ (o : Outside) where
  -- One reading of the clock for each unit of fuel; a pause is half a second at most.
  unfoldable pub wait_from : ℕ → ℕ → o.State → Result RunError (Unit {0}) × o.State
  wait_from zero deadline s = (err still_waiting, s)
  wait_from (suc n) deadline s =
      let paused = o.pause (min (deadline - o.now s) 500) s in
      let rest = wait_from n deadline paused.1 in
      if leb deadline (o.now s)
      then (ok tt, s)
      else if paused.0
      then (err interrupted, paused.1)
      else rest

  unfoldable pub wait_until : ℕ → o.State → Result RunError (Unit {0}) × o.State
  wait_until deadline s = wait_from (suc (deadline - o.now s)) deadline s

  abbrev pub waiting : ℕ → M o.State (Unit {0})
  waiting deadline c = let (r, s) = wait_until deadline c.outside in (r, record c { outside = s })

  abbrev pub noting : Fault → Action → M o.State (Unit {0})
  noting f a c =
      let (noted, s) = o.note f a c.outside in
      (outcome noted journal_failed, record c { outside = s })

  abbrev pub scaling : String → ℕ → M o.State (Unit {0})
  scaling dep n c =
      let (scaled, s) = o.scale dep n c.outside in
      (outcome scaled command_failed, record c { outside = s })

  abbrev pub marking : Fault → M o.State (Unit {0})
  marking f c = (ok tt, record c { scaled_down = mark f c.scaled_down })

  abbrev pub unmarking : String → M o.State (Unit {0})
  unmarking dep c = (ok tt, record c { scaled_down = unmark dep c.scaled_down })

  -- One fault: down at its time, and up again at its time.
  unfoldable pub inject : ℕ → Fault → M o.State (Unit {0})
  inject start f = do
    waiting (start + 1000 * f.disable_at_seconds)
    noting f scale_down_started
    marking f
    scaling f.deployment 0
    noting f disabled
    waiting (start + 1000 * f.enable_at_seconds)
    noting f scale_up_started
    scaling f.deployment f.original_replicas
    unmarking f.deployment
    noting f reenabled

  unfoldable pub inject_all : ℕ → ℕ → List Fault → M o.State (Unit {0})
  inject_all start duration [] = waiting (start + 1000 * duration)
  inject_all start duration (f ∷ fs) = do inject start f; inject_all start duration fs

  -- The loop of the `finally` block, with the number of `restoration_errors` so far.
  unfoldable pub restore_all : List Fault → ℕ → o.State → Result RunError (Unit {0}) × o.State
  restore_all [] errors s = (outcome (errors == 0) not_restored, s)
  restore_all (f ∷ fs) errors s =
      let scaled = o.scale f.deployment f.original_replicas s in
      let noted = o.note f restored scaled.1 in
      let told = o.note f restore_failed (if scaled.0 then noted.1 else scaled.1) in
      let next = restore_all fs errors noted.1 in
      let after_error = restore_all fs (suc errors) told.1 in
      if scaled.0 && noted.0
      then next
      else if told.0
      then after_error
      else (err journal_failed, told.1)

  -- An exception of the `finally` block replaces the one that is on its way.
  abbrev pub after_finally :
      Result RunError (Unit {0}) → Result RunError (Unit {0}) → Result RunError (Unit {0})
  after_finally body (err e) = err e
  after_finally body (ok _) = body

  unfoldable pub run_faults : ℕ → ℕ → List Fault → o.State → Result RunError (Unit {0}) × o.State
  run_faults start duration faults s =
      let (prepared, s0) = o.prepare s in
      let (body, c) =
        inject_all start duration faults (record { scaled_down = []; outside = s0 }) in
      let (last, t) = restore_all (reversed_onto c.scaled_down []) 0 c.outside in
      if prepared then (after_finally body last, t) else (err journal_failed, s0)
