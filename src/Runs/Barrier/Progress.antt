-- ===== src/Runs/Barrier/Progress.antt =====
-- The workers of a run can always start, unless one of them is out.
use microservices_demo_nats.Prelude.{
  ℕ, zero, suc, ◌+◌, ◌<◌, ◌≡◌, refl, ◌∙◌, ap, inl, inr, Bool, true, false, Bool-cases, List, [],
  ◌∷◌, map, Option, none, some, ltb, ◌==◌, ==_iff, if◌then◌else◌,
}
use microservices_demo_nats.Runs.Barrier.{
  Stage, preparing, collecting, awaiting, started, interrupted, timed_out, Barrier, Signals,
  start_delay, Polled, stopping, found, too_late, wait_on, wait_for_object, move_to, ready_object,
  polled, put_ready, put_start, move, turn, turns,
}

-- A worker that is out does not start any more.
abbrev pub is_out : Stage → Bool
is_out preparing = false
is_out (collecting n) = false
is_out awaiting = false
is_out (started t) = false
is_out interrupted = true
is_out timed_out = true

pub data Active : Stage → Type 0 where
  is_collecting : {n : ℕ} → Active (collecting n)
  is_awaiting : Active awaiting
  is_started : {t : ℕ} → Active (started t)

pub Active-in : {stage : Stage} → Active stage → is_out stage ≡ false
Active-in is_collecting = refl
Active-in is_awaiting = refl
Active-in is_started = refl

-- No stop is requested, and no deadline is over.
abbrev pub calm : ℕ → Signals
calm now = record { stop_requested = false; is_late = false; now = now }

abbrev pub calmly : ℕ → List ℕ → List (ℕ × Signals)
calmly now workers = map (λ i. (i, calm now)) workers

abbrev pub everyone : ℕ → List ℕ
everyone zero = []
everyone (suc n) = n ∷ everyone n

abbrev pub repeatedly : ℕ → ℕ → List ℕ
repeatedly zero i = []
repeatedly (suc k) i = i ∷ repeatedly k i

pub moved_own : (i : ℕ) (stage : Stage) (s : Barrier) → (move_to i stage s).stage i ≡ stage
moved_own i stage s = rw ((==_iff i i).1 refl) refl

moved_other :
    (i j : ℕ) (stage : Stage) (s : Barrier)
    → (j == i) ≡ false
    → (move_to i stage s).stage j ≡ s.stage j
moved_other i j stage s e = rw e refl

polled_other :
    {A : Type 0} (i j : ℕ) (next : A → Stage) (p : Polled A) (s : Barrier)
    → (j == i) ≡ false
    → (polled i next p s).stage j ≡ s.stage j
polled_other i j next stopping s e = moved_other i j _ s e
polled_other i j next (found a) s e = moved_other i j _ s e
polled_other i j next too_late s e = moved_other i j _ s e
polled_other i j next wait_on s e = refl

calm_own :
    {A : Type 0} (i now : ℕ) (next : A → Stage) (x : Option A) (s : Barrier)
    → Active (s.stage i)
    → ((a : A) → Active (next a))
    → Active ((polled i next (wait_for_object (calm now) x) s).stage i)
calm_own i now next none s active goes = active
calm_own i now next (some a) s active goes = rw (moved_own i (next a) s) (goes a)

module _ (worker_count : ℕ) where
  move_other :
      (i j : ℕ) (g : Signals) (stage : Stage) (s : Barrier)
      → (j == i) ≡ false
      → (move worker_count i g stage s).stage j ≡ s.stage j
  unfolding move
  move_other i j g preparing s e = moved_other i j _ (put_ready i s) e
  move_other i j g (collecting n) s e = elim (Bool-cases (ltb n worker_count)) [
    | inl h ↦ rw h (polled_other i j _ _ s e)
    | inr h ↦
        rw h (moved_other i j (started (g.now + start_delay)) (put_start (g.now + start_delay) s) e)
  ]
  move_other i j g awaiting s e = polled_other i j _ _ s e
  move_other i j g (started t) s e = refl
  move_other i j g interrupted s e = refl
  move_other i j g timed_out s e = refl

  -- A calm turn leaves a worker active.
  pub move_own :
      (i now : ℕ) (stage : Stage) (s : Barrier)
      → is_out stage ≡ false
      → s.stage i ≡ stage
      → Active ((move worker_count i (calm now) stage s).stage i)
  unfolding move
  move_own i now preparing s h e = elim (Bool-cases (i == 0)) [
    | inl z ↦
        rw (moved_own i (if i == 0 then collecting 0 else awaiting) (put_ready i s))
          (rw z is_collecting)
    | inr z ↦
        rw (moved_own i (if i == 0 then collecting 0 else awaiting) (put_ready i s))
          (rw z is_awaiting)
  ]
  move_own i now (collecting n) s h e = elim (Bool-cases (ltb n worker_count)) [
    | inl more ↦ rw more (
        calm_own i now (λ (b : Bool). collecting (suc n)) (ready_object s n) s (rw e is_collecting)
          (λ b. is_collecting))
    | inr whole ↦
        let t = now + start_delay in
        rw whole (rw (moved_own i (started t) (put_start t s)) is_started)
  ]
  move_own i now awaiting s h e =
      calm_own i now started s.start s (rw e is_awaiting) (λ t. is_started)
  move_own i now (started t) s h e = rw e is_started
  move_own i now interrupted s h e = absurd (cc (h))
  move_own i now timed_out s h e = absurd (cc (h))

  move_started : (i t : ℕ) (g : Signals) (s : Barrier) → move worker_count i g (started t) s ≡ s
  unfolding move
  move_started i t g s = refl

  -- A worker that has started stays so.
  pub turn_started :
      (i j t : ℕ) (g : Signals) (s : Barrier)
      → s.stage j ≡ started t
      → (turn worker_count i g s).stage j ≡ started t
  unfolding turn
  turn_started i j t g s e = elim (Bool-cases (j == i)) [
    | inl h ↦
        let own : s.stage i ≡ started t = rw (← (==_iff j i).0 h) e in
        ap (λ x. (move worker_count i g x s).stage j) own
        ∙ ap (λ (u : Barrier). u.stage j) (move_started i t g s)
        ∙ e
    | inr h ↦ move_other i j g _ s h ∙ e
  ]

  pub turns_started :
      (j t : ℕ) (ts : List (ℕ × Signals)) (s : Barrier)
      → s.stage j ≡ started t
      → (turns worker_count ts s).stage j ≡ started t
  unfolding turns
  turns_started j t [] s e = e
  turns_started j t ((i, g) ∷ ts) s e =
      turns_started j t ts (turn worker_count i g s) (turn_started i j t g s e)

  AllActive : Barrier → Type 0
  AllActive s = (j : ℕ) → j < worker_count → Active (s.stage j)

  pub turn-Active :
      (i now j : ℕ) (s : Barrier)
      → Active (s.stage j)
      → Active ((turn worker_count i (calm now) s).stage j)
  unfolding turn
  turn-Active i now j s active = elim (Bool-cases (j == i)) [
    | inl h ↦
        let same = (==_iff j i).0 h in
        rw same (move_own i now (s.stage i) s (Active-in (rw same at active)) refl)
    | inr h ↦ rw (move_other i j (calm now) (s.stage i) s h) active
  ]

  pub turns-Active :
      (now j : ℕ) (is : List ℕ) (s : Barrier)
      → Active (s.stage j)
      → Active ((turns worker_count (calmly now is) s).stage j)
  unfolding turns
  turns-Active now j [] s active = active
  turns-Active now j (i ∷ is) s active =
      turns-Active now j is (turn worker_count i (calm now) s) (turn-Active i now j s active)

  -- A calm turn puts no worker out.
  pub turn_in :
      (i now j : ℕ) (s : Barrier)
      → is_out (s.stage i) ≡ false
      → is_out (s.stage j) ≡ false
      → is_out ((turn worker_count i (calm now) s).stage j) ≡ false
  unfolding turn
  turn_in i now j s own h = elim (Bool-cases (j == i)) [
    | inl e ↦ rw ((==_iff j i).0 e) (Active-in (move_own i now (s.stage i) s own refl))
    | inr e ↦ rw (move_other i j (calm now) (s.stage i) s e) h
  ]
