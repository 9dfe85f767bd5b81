-- ===== src/Runs/Barrier/Liveness.antt =====
-- Every worker starts, if no worker is out and each has its turns.
use microservices_demo_nats.Prelude.{
  ℕ, zero, suc, ◌+◌, ◌-◌, ◌≤◌, ◌<◌, ◌≡◌, refl, ◌∙◌, ap, inl, inr, Bool, true, false, Bool-cases,
  List, [], ◌∷◌, ◌++◌, Option, none, some, ltb, ltb→lt, lt→ltb, ◌==◌, ==_iff, arith,
}
use microservices_demo_nats.Runs.Barrier.{
  Stage, collecting, started, Barrier, fresh_barrier, Signals, start_delay, wait_for_object,
  move_to, polled, put_start, move, turn, turns,
}
use microservices_demo_nats.Runs.Barrier.Common.{
  Fits, at_preparing, at_collecting, at_awaiting, at_started, at_interrupted, at_timed_out,
  IsCommon, fresh-IsCommon, turns-IsCommon, start_of,
}
use microservices_demo_nats.Runs.Barrier.Progress.{
  is_out, Active, is_collecting, is_awaiting, is_started, calm, calmly, everyone, repeatedly,
  moved_own, move_own, turn_started, turns_started, turn-Active, turns-Active, turn_in,
}

turns-append :
    (worker_count : ℕ) (xs ys : List (ℕ × Signals)) (s : Barrier)
    → turns worker_count (xs ++ ys) s ≡ turns worker_count ys (turns worker_count xs s)
unfolding turns
turns-append worker_count [] ys s = refl
turns-append worker_count ((i, g) ∷ xs) ys s =
    turns-append worker_count xs ys (turn worker_count i g s)

module _ (worker_count now : ℕ) where
  abbrev calm_turns : List ℕ → Barrier → Barrier
  calm_turns is s = turns worker_count (calmly now is) s

  own-Active :
      (i : ℕ) (s : Barrier)
      → is_out (s.stage i) ≡ false
      → Active ((turn worker_count i (calm now) s).stage i)
  unfolding turn
  own-Active i s h = move_own worker_count i now (s.stage i) s h refl

  -- After a turn of each of the first workers, they are all active.
  everyone-Active :
      (n : ℕ) (s : Barrier)
      → ((i : ℕ) → i < n → is_out (s.stage i) ≡ false)
      → (j : ℕ) → j < n
      → Active ((calm_turns (everyone n) s).stage j)
  unfolding turns
  everyone-Active zero s h j below = absurd (omega (arith, below))
  everyone-Active (suc n) s h j below = elim (Bool-cases (j == n)) [
    | inl e ↦
        turns-Active worker_count now j (everyone n) _
          (rw ((==_iff j n).0 e) (own-Active n s (h n (omega arith))))
    | inr e ↦
        everyone-Active n (turn worker_count n (calm now) s)
          (λ i less. turn_in worker_count n now i s (h n (omega arith)) (h i (omega (arith, less))))
          j (ground arith)
  ]

  Active-ready :
      (ready : ℕ → Bool) (start : Option ℕ) (i : ℕ) (stage : Stage)
      → Fits worker_count ready start i stage
      → Active stage
      → ready i ≡ true
  Active-ready r start i _ (at_preparing h) a = elim a [ ]
  Active-ready r start i _ (at_collecting e unset bound present own) a = own
  Active-ready r start i _ (at_awaiting e own) a = own
  Active-ready r start i _ (at_started e own) a = own
  Active-ready r start i _ at_interrupted a = elim a [ ]
  Active-ready r start i _ at_timed_out a = elim a [ ]

  collect_turn :
      (n : ℕ) (s : Barrier)
      → n < worker_count
      → s.ready n ≡ true
      → move worker_count 0 (calm now) (collecting n) s ≡ move_to 0 (collecting (suc n)) s
  unfolding move
  collect_turn n s more there = rw (lt→ltb n worker_count more) (rw there refl)

  announce_turn :
      (n : ℕ) (s : Barrier)
      → ltb n worker_count ≡ false
      → move worker_count 0 (calm now) (collecting n) s
        ≡ move_to 0 (started (now + start_delay)) (put_start (now + start_delay) s)
  unfolding move
  announce_turn n s whole = rw whole refl

  -- Worker 0 finds all the ready objects, and starts.
  lead :
      (k n : ℕ) (s : Barrier)
      → s.stage 0 ≡ collecting n
      → ((j : ℕ) → j < worker_count → s.ready j ≡ true)
      → worker_count - n < k
      → (t : ℕ) × ((calm_turns (repeatedly k 0) s).stage 0 ≡ started t)
  unfolding turns turn
  lead zero n s at ready enough = absurd (omega (arith, enough))
  lead (suc k) n s at ready enough = elim (Bool-cases (ltb n worker_count)) [
    | inl more ↦
        let below = ltb→lt n worker_count more in
        let moved : turn worker_count 0 (calm now) s ≡ move_to 0 (collecting (suc n)) s =
          ap (λ x. move worker_count 0 (calm now) x s) at
          ∙ collect_turn n s below (ready n below) in
        let (t, e) =
          lead k (suc n) (move_to 0 (collecting (suc n)) s) refl ready
            (omega (arith, below, enough)) in
        (t, ap (λ u. (calm_turns (repeatedly k 0) u).stage 0) moved ∙ e)
    | inr whole ↦
        let t = now + start_delay in
        let moved : turn worker_count 0 (calm now) s ≡ move_to 0 (started t) (put_start t s) =
          ap (λ x. move worker_count 0 (calm now) x s) at ∙ announce_turn n s whole in
        (
          t,
          ap (λ u. (calm_turns (repeatedly k 0) u).stage 0) moved
              ∙ turns_started worker_count 0 t (calmly now (repeatedly k 0))
                  (move_to 0 (started t) (put_start t s)) refl,
        )
  ]

  leads :
      (s : Barrier) (stage : Stage)
      → s.stage 0 ≡ stage
      → Fits worker_count s.ready s.start 0 stage
      → Active stage
      → ((j : ℕ) → j < worker_count → s.ready j ≡ true)
      → (t : ℕ) × ((calm_turns (repeatedly (suc worker_count) 0) s).stage 0 ≡ started t)
  leads s _ at fits (is_collecting {n = n}) ready =
      lead (suc worker_count) n s at ready (omega arith)
  leads s _ at (at_awaiting other own) is_awaiting ready = absurd (other refl)
  leads s _ at fits (is_started {t = t}) ready = (t, turns_started worker_count 0 t _ s at)

  told_start :
      (i t : ℕ) (x : Option ℕ) (s : Barrier)
      → x ≡ some t
      → (polled i started (wait_for_object (calm now) x) s).stage i ≡ started t
  told_start i t none s e = absurd (cc (e))
  told_start i t (some u) s e = moved_own i (started u) s ∙ cc (e)

  await_turn :
      (i t : ℕ) (s : Barrier) (stage : Stage)
      → s.stage i ≡ stage
      → s.start ≡ some t
      → Fits worker_count s.ready s.start i stage
      → Active stage
      → (move worker_count i (calm now) stage s).stage i ≡ started t
  unfolding move
  await_turn i t s _ at set (at_preparing h) a = elim a [ ]
  await_turn i t s _ at set (at_collecting e unset bound present own) a = absurd (cc (unset, set))
  await_turn i t s _ at set (at_awaiting e own) a = told_start i t s.start s set
  await_turn i t s _ at set (at_started e own) a = at ∙ cc (e, set)
  await_turn i t s _ at set at_interrupted a = elim a [ ]
  await_turn i t s _ at set at_timed_out a = elim a [ ]

  -- Once worker 0 has started, each of the first workers does so in its turn.
  follow :
      (n t : ℕ) (s : Barrier)
      → n ≤ worker_count
      → IsCommon worker_count s
      → s.stage 0 ≡ started t
      → ((j : ℕ) → j < worker_count → Active (s.stage j))
      → (j : ℕ) → j < n
      → (calm_turns (everyone n) s).stage j ≡ started t
  unfolding turns turn
  follow zero t s bound c leads active j below = absurd (omega (arith, below))
  follow (suc n) t s bound c leads active j below =
      let next = turn worker_count n (calm now) s in
      let set = start_of worker_count s 0 t (s.stage 0) leads (c.each 0) in
      elim (Bool-cases (j == n)) [
        | inl e ↦
            let own : next.stage n ≡ started t =
              await_turn n t s (s.stage n) refl set (c.each n) (active n (omega (arith, bound))) in
            turns_started worker_count j t (calmly now (everyone n)) next
              (rw ((==_iff j n).0 e) own)
        | inr e ↦
            follow n t next (omega (arith, bound))
              (turns-IsCommon worker_count ((n, calm now) ∷ []) s c)
              (turn_started worker_count n 0 t (calm now) s leads)
              (λ i less. turn-Active worker_count n now i s (active i less)) j (ground arith)
      ]

  abbrev pub fair_turns : List (ℕ × Signals)
  fair_turns =
      let all = calmly now (everyone worker_count) in
      all ++ (calmly now (repeatedly (suc worker_count) 0) ++ all)

  -- In a run of one or more workers, whatever turns there were, with whatever signals, if no worker of
  -- the run is out: when each worker
  -- has a turn, worker 0 one more than there are workers, and then each worker one again, and no stop
  -- is requested and no deadline is over in these, then all workers start, at one time.
  pub everyone_starts :
      (ts : List (ℕ × Signals))
      → 0 < worker_count
      → ((i : ℕ)
          → i < worker_count
          → is_out ((turns worker_count ts fresh_barrier).stage i) ≡ false)
      → (t : ℕ) × ((i : ℕ)
          → i < worker_count
          → (turns worker_count (ts ++ fair_turns) fresh_barrier).stage i ≡ started t)
  everyone_starts ts some_worker within =
      let s = turns worker_count ts fresh_barrier in
      let first = calmly now (everyone worker_count) in
      let second = calmly now (repeatedly (suc worker_count) 0) in
      let s1 = turns worker_count first s in
      let s2 = turns worker_count second s1 in
      let c = turns-IsCommon worker_count ts fresh_barrier (fresh-IsCommon worker_count) in
      let c1 = turns-IsCommon worker_count first s c in
      let c2 = turns-IsCommon worker_count second s1 c1 in
      let active = everyone-Active worker_count s within in
      let ready : (j : ℕ) → j < worker_count → s1.ready j ≡ true =
        λ j h. Active-ready s1.ready s1.start j (s1.stage j) (c1.each j) (active j h) in
      let (t, e) = leads s1 (s1.stage 0) refl (c1.each 0) (active 0 some_worker) ready in
      let active2 : (j : ℕ) → j < worker_count → Active (s2.stage j) =
        λ j h. turns-Active worker_count now j (repeatedly (suc worker_count) 0) s1 (active j h) in
      (
        t,
        λ i h.
            ap (λ (u : Barrier). u.stage i)
              (turns-append worker_count ts fair_turns fresh_barrier
                ∙ turns-append worker_count first (second ++ first) s
                ∙ turns-append worker_count second first s1)
            ∙ follow worker_count t s2 (omega arith) c2 e active2 i h,
      )
