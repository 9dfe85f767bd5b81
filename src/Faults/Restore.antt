-- ===== src/Faults/Restore.antt =====
-- Every deployment that was scaled down is scaled up again, however the run ends.
pub mod Marks
mod Steps
pub use Marks.{AllKnown}
use Marks.{reversed_onto-AllKnown, is_held-reversed_onto}
use Steps.{Rest, Safe, inject_all-Safe, After-Safe}
use microservices_demo_nats.Prelude.{
  ℕ, zero, suc, ◌+◌, ◌*◌, ◌-◌, ◌≤◌, ◌<◌, min, String, ◌≡◌, ◌≢◌, refl, sym, ap, ◌∙◌, Bool, true,
  false, ◌||◌, ◌&&◌, not, ◌⊎◌, if◌then◌else◌, List, [], ◌∷◌, leb, ◌==◌, str_eq, str_eq_iff, any,
  Bool-cases, inl, inr, arith, Result, ok, err,
}
use microservices_demo_nats.Faults.Outside.{
  Fault, Action, scale_down_started, disabled, scale_up_started, reenabled, restored,
  restore_failed, Outside, IsCluster,
}
use microservices_demo_nats.Faults.Controller.{
  RunError, journal_failed, not_restored, command_failed, outcome, mark, unmark, is_held,
  reversed_onto, Running, M, ◌>>=◌, wait_from, wait_until, waiting, noting, scaling, marking,
  unmarking, inject, inject_all, restore_all, after_finally, run_faults,
}

module _ (o : Outside) (replicas : o.State → String → ℕ) (law : IsCluster o replicas)
    (want : String → ℕ) where
  -- A restoration that returns has restored all, and had no error before.
  Restored : ℕ → Result RunError (Unit {0}) × o.State → Type 0
  Restored errors (r, t) =
      (r ≡ ok tt → (errors ≡ 0) × ((dep : String) → replicas t dep ≡ want dep))
      × ((r ≡ ok tt) ⊎ ((r ≡ err not_restored) ⊎ (r ≡ err journal_failed)))

  restore_all-Restored :
      (gs : List Fault) (errors : ℕ) (s : o.State)
      → AllKnown want gs
      → (errors ≡ 0 → Rest o replicas law want gs s)
      → Restored errors (restore_all o gs errors s)
  unfolding restore_all Restored
  restore_all-Restored [] zero s known rest = (λ _. (refl, λ dep. rest refl dep refl), inl refl)
  restore_all-Restored [] (suc n) s known rest =
      let some_error : (suc n == 0) ≡ false = ground arith in
      rw some_error (λ h. absurd (cc), inr (inl refl))
  restore_all-Restored (f ∷ fs) errors s (own, known) rest =
      let scaled = o.scale f.deployment f.original_replicas s in
      let noted = o.note f restored scaled.1 in
      let told = o.note f restore_failed (if scaled.0 then noted.1 else scaled.1) in
      go scaled.0 noted.0 told.0 (restore_all o fs errors noted.1)
        (restore_all o fs (suc errors) told.1) told.1 refl
        (λ up.
          restore_all-Restored fs errors noted.1 known
            (λ none dep h. law.at_note f restored scaled.1 dep ∙ after none up dep h))
        (restore_all-Restored fs (suc errors) told.1 known (λ h. absurd (omega arith)))
    where
      after :
          errors ≡ 0
          → (o.scale f.deployment f.original_replicas s).0 ≡ true
          → (dep : String) → is_held dep fs ≡ false
          → replicas (o.scale f.deployment f.original_replicas s).1 dep ≡ want dep
      after none up dep h = elim (Bool-cases (str_eq f.deployment dep)) [
        | inl e ↦
            rw (← ((str_eq_iff f.deployment dep).0 e))
              (law.at_scaled f.deployment f.original_replicas s up ∙ own)
        | inr e ↦ law.at_other f.deployment dep f.original_replicas s e ∙ rest none dep (rw e h)
      ]

      go :
          (up noted told : Bool) (next after_error : Result RunError (Unit {0}) × o.State)
          (t : o.State)
          → up ≡ (o.scale f.deployment f.original_replicas s).0
          → ((o.scale f.deployment f.original_replicas s).0 ≡ true → Restored errors next)
          → Restored (suc errors) after_error
          → Restored errors
              (if up && noted then next else if told then after_error else (err journal_failed, t))
      go true true told next after_error t e h k = h (sym e)
      go true false true next after_error t e h k = (λ x. absurd (omega (arith, (k.0 x).0)), k.1)
      go false noted true next after_error t e h k = (λ x. absurd (omega (arith, (k.0 x).0)), k.1)
      go true false false next after_error t e h k = (λ x. absurd (cc), inr (inr refl))
      go false noted false next after_error t e h k = (λ x. absurd (cc), inr (inr refl))

  -- However the run ends but with an error of the restoration or of the journal, each deployment has
  -- its original replicas again: where it had them before the run, each fault carries them, and
  -- nobody else scales. A `scale` that failed may have worked.
  pub run_faults_restores :
      (start duration : ℕ) (faults : List Fault) (s : o.State)
      → AllKnown want faults
      → ((dep : String) → replicas s dep ≡ want dep)
      → let (r, t) = run_faults o start duration faults s in
        r ≢ err not_restored → r ≢ err journal_failed → (dep : String) → replicas t dep ≡ want dep
  unfolding run_faults Restored
  run_faults_restores start duration faults s known before = elim (Bool-cases (o.prepare s).0) [
    | inr e ↦ rw e (λ a b dep. absurd (b refl))
    | inl e ↦ rw e (
        go (inject_all o start duration faults c).0
          (restore_all o (reversed_onto d.scaled_down []) 0 d.outside) last)
  ]
    where
      c : Running o.State
      c = record { scaled_down = []; outside = (o.prepare s).1 }

      d : Running o.State
      d = (inject_all o start duration faults c).1

      safe : Safe o replicas law want d
      safe = After-Safe o replicas law want _ (
          inject_all-Safe o replicas law want start duration faults known c
            (record { rest = λ dep h. law.at_prepare s dep ∙ before dep; known = tt }))

      last : Restored 0 (restore_all o (reversed_onto d.scaled_down []) 0 d.outside)
      last =
          restore_all-Restored (reversed_onto d.scaled_down []) 0 d.outside
            (reversed_onto-AllKnown want d.scaled_down [] safe.known tt)
            (λ _ dep h.
              safe.rest dep (ground (arith, is_held-reversed_onto d.scaled_down [] dep, h)))

      go :
          (body : Result RunError (Unit {0})) (r : Result RunError (Unit {0}) × o.State)
          → Restored 0 r
          → after_finally o body r.0 ≢ err not_restored
          → after_finally o body r.0 ≢ err journal_failed
          → (dep : String) → replicas r.1 dep ≡ want dep
      go body (ok a, t) h x y = (h.0 refl).1
      go body (err e, t) (_, inl h) x y = absurd (cc)
      go body (err e, t) (_, inr (inl h)) x y = absurd (x h)
      go body (err e, t) (_, inr (inr h)) x y = absurd (y h)
