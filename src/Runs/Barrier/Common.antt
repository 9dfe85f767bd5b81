-- ===== src/Runs/Barrier/Common.antt =====
-- The workers that start do so at one time, and not before all are ready.
use microservices_demo_nats.Prelude.{
  ℕ, suc, ◌+◌, ◌≤◌, ◌<◌, ◌≡◌, ◌≢◌, refl, inl, inr, Bool, true, false, Bool-cases, List, [], ◌∷◌,
  Option, none, some, ltb, ltb→lt, ltb_false→le, ◌==◌, ==_iff, if◌then◌else◌, arith,
}
use microservices_demo_nats.Runs.Barrier.{
  Stage, preparing, collecting, awaiting, started, interrupted, timed_out, Barrier, fresh_barrier,
  Signals, start_delay, Polled, stopping, found, too_late, wait_on, wait_for_object, move_to,
  ready_object, polled, put_ready, put_start, move, turn, turns,
}

module _ (worker_count : ℕ) where
  -- What is true where a worker stands at a stage, of the objects that there are.
  pub data Fits (ready : ℕ → Bool) (start : Option ℕ) (i : ℕ) : Stage → Type 0 where
    at_preparing : (i ≡ 0 → start ≡ none) → Fits ready start i preparing
    at_collecting :
        {n : ℕ}
        → i ≡ 0
        → start ≡ none
        → n ≤ worker_count
        → ((j : ℕ) → j < n → ready j ≡ true)
        → ready i ≡ true
        → Fits ready start i (collecting n)
    at_awaiting : i ≢ 0 → ready i ≡ true → Fits ready start i awaiting
    at_started : {t : ℕ} → start ≡ some t → ready i ≡ true → Fits ready start i (started t)
    at_interrupted : Fits ready start i interrupted
    at_timed_out : Fits ready start i timed_out

  pub record IsCommon (s : Barrier) : Type 0 where
    pub each : (i : ℕ) → Fits s.ready s.start i (s.stage i)
    pub all : (t j : ℕ) → s.start ≡ some t → j < worker_count → s.ready j ≡ true

  pub fresh-IsCommon : IsCommon fresh_barrier
  fresh-IsCommon = record { each = λ i. at_preparing (λ e. refl); all = λ t j e h. absurd (cc (e)) }

  Fits-ready :
      (ready ready' : ℕ → Bool) (start : Option ℕ) (i : ℕ) (stage : Stage)
      → ((j : ℕ) → ready j ≡ true → ready' j ≡ true)
      → Fits ready start i stage
      → Fits ready' start i stage
  Fits-ready r q start i _ keep (at_preparing h) = at_preparing h
  Fits-ready r q start i _ keep (at_collecting e none_yet bound present own) =
      at_collecting e none_yet bound (λ j h. keep j (present j h)) (keep i own)
  Fits-ready r q start i _ keep (at_awaiting e own) = at_awaiting e (keep i own)
  Fits-ready r q start i _ keep (at_started e own) = at_started e (keep i own)
  Fits-ready r q start i _ keep at_interrupted = at_interrupted
  Fits-ready r q start i _ keep at_timed_out = at_timed_out

  -- One worker moves to a stage that fits; the objects stay.
  move_to-IsCommon :
      (i : ℕ) (stage : Stage) (s : Barrier)
      → IsCommon s
      → Fits s.ready s.start i stage
      → IsCommon (move_to i stage s)
  move_to-IsCommon i stage s c fits = record {
    each = λ j. elim (Bool-cases (j == i)) [
      | inl e ↦ rw e (rw ((==_iff j i).0 e) fits)
      | inr e ↦ rw e (c.each j)
    ];
    all = c.all;
  }

  put_ready-keeps :
      (i : ℕ) (s : Barrier) (j : ℕ) → s.ready j ≡ true → (put_ready i s).ready j ≡ true
  put_ready-keeps i s j h = elim (Bool-cases (j == i)) [ inl e ↦ rw e refl | inr e ↦ rw e h ]

  put_ready-own : (i : ℕ) (s : Barrier) → (put_ready i s).ready i ≡ true
  put_ready-own i s = rw ((==_iff i i).1 refl) refl

  put_ready-IsCommon : (i : ℕ) (s : Barrier) → IsCommon s → IsCommon (put_ready i s)
  put_ready-IsCommon i s c = record {
    each = λ j. Fits-ready s.ready _ s.start j _ (put_ready-keeps i s) (c.each j);
    all = λ t j e h. put_ready-keeps i s j (c.all t j e h);
  }

  Fits-start :
      (ready : ℕ → Bool) (start : Option ℕ) (t j : ℕ) (stage : Stage)
      → start ≡ none
      → j ≢ 0
      → Fits ready start j stage
      → Fits ready (some t) j stage
  Fits-start r start t j _ unset other (at_preparing h) = at_preparing (λ e. absurd (other e))
  Fits-start r start t j _ unset other (at_collecting e none_yet bound present own) =
      absurd (other e)
  Fits-start r start t j _ unset other (at_awaiting e own) = at_awaiting e own
  Fits-start r start t j _ unset other (at_started e own) = absurd (cc (e, unset))
  Fits-start r start t j _ unset other at_interrupted = at_interrupted
  Fits-start r start t j _ unset other at_timed_out = at_timed_out

  announce-IsCommon :
      (n t : ℕ) (s : Barrier)
      → worker_count ≤ n
      → s.start ≡ none
      → ((j : ℕ) → j < n → s.ready j ≡ true)
      → s.ready 0 ≡ true
      → IsCommon s
      → IsCommon (move_to 0 (started t) (put_start t s))
  announce-IsCommon n t s whole unset present own c = record {
    each = λ j. elim (Bool-cases (j == 0)) [
      | inl e ↦ rw e (rw ((==_iff j 0).0 e) (at_started refl own))
      | inr e ↦ rw e (
          Fits-start s.ready s.start t j _ unset (λ h. absurd (cc (e, (==_iff j 0).1 h)))
            (c.each j))
    ];
    all = λ u j e h. present j (omega (arith, whole, h));
  }

  polled-IsCommon :
      {A : Type 0} (i : ℕ) (next : A → Stage) (p : Polled A) (s : Barrier)
      → ((a : A) → p ≡ found a → Fits s.ready s.start i (next a))
      → IsCommon s
      → IsCommon (polled i next p s)
  polled-IsCommon i next stopping s fits c = move_to-IsCommon i interrupted s c at_interrupted
  polled-IsCommon i next (found a) s fits c = move_to-IsCommon i (next a) s c (fits a refl)
  polled-IsCommon i next too_late s fits c = move_to-IsCommon i timed_out s c at_timed_out
  polled-IsCommon i next wait_on s fits c = c

  -- What is found is there.
  wait_for_object-found :
      {A : Type 0} (g : Signals) (object : Option A) (a : A)
      → wait_for_object g object ≡ found a
      → object ≡ some a
  wait_for_object-found {A = A} g object a h = go g.stop_requested object g.is_late h
    where
      go :
          (stop : Bool) (x : Option A) (late : Bool)
          → (if stop
              then stopping
              else elim x [ some b ↦ found b | none ↦ if late then too_late else wait_on ])
            ≡ found a
          → x ≡ some a
      go true x late e = absurd (cc (e))
      go false (some b) late e = cc (e)
      go false none true e = absurd (cc (e))
      go false none false e = absurd (cc (e))

  ready_there : (s : Barrier) (n : ℕ) (b : Bool) → ready_object s n ≡ some b → s.ready n ≡ true
  ready_there s n b h = elim (Bool-cases (s.ready n)) [
    | inl e ↦ e
    | inr e ↦ absurd (cc (rw e at h))
  ]

  extended :
      (ready : ℕ → Bool) (n : ℕ)
      → ((j : ℕ) → j < n → ready j ≡ true)
      → ready n ≡ true
      → (j : ℕ) → j < suc n
      → ready j ≡ true
  extended ready n present last j h = elim (Bool-cases (j == n)) [
    | inl e ↦ rw ((==_iff j n).0 e) last
    | inr e ↦ present j (ground arith)
  ]

  prepared :
      (i : ℕ) (s : Barrier)
      → (i ≡ 0 → s.start ≡ none)
      → Fits (put_ready i s).ready s.start i (if i == 0 then collecting 0 else awaiting)
  prepared i s h = elim (Bool-cases (i == 0)) [
    | inl e ↦
        let is_zero = (==_iff i 0).0 e in
        rw e (
          at_collecting is_zero (h is_zero) (omega arith) (λ j below. absurd (omega (arith, below)))
            (put_ready-own i s))
    | inr e ↦ rw e (at_awaiting (λ q. absurd (cc (e, (==_iff i 0).1 q))) (put_ready-own i s))
  ]

  pub move-IsCommon :
      (i : ℕ) (g : Signals) (stage : Stage) (s : Barrier)
      → Fits s.ready s.start i stage
      → IsCommon s
      → IsCommon (move worker_count i g stage s)
  unfolding move
  move-IsCommon i g _ s (at_preparing h) c =
      move_to-IsCommon i _ (put_ready i s) (put_ready-IsCommon i s c) (prepared i s h)
  move-IsCommon i g _ s (at_collecting {n = n} e none_yet bound present own) c =
      elim (Bool-cases (ltb n worker_count)) [
        | inl more ↦ rw more (
            polled-IsCommon i _ _ s
              (λ b h.
                at_collecting e none_yet (ltb→lt n worker_count more)
                  (extended s.ready n present (ready_there s n b (wait_for_object-found g _ b h)))
                  own)
              c)
        | inr whole ↦ rw whole (
            rw e (
              announce-IsCommon n (g.now + start_delay) s (ltb_false→le _ _ whole) none_yet present
                (rw e at own) c))
      ]
  move-IsCommon i g _ s (at_awaiting e own) c =
      polled-IsCommon i started _ s (λ t h. at_started (wait_for_object-found g s.start t h) own) c
  move-IsCommon i g _ s (at_started e own) c = c
  move-IsCommon i g _ s at_interrupted c = c
  move-IsCommon i g _ s at_timed_out c = c

  pub turns-IsCommon :
      (ts : List (ℕ × Signals)) (s : Barrier) → IsCommon s → IsCommon (turns worker_count ts s)
  unfolding turns turn
  turns-IsCommon [] s c = c
  turns-IsCommon ((i, g) ∷ ts) s c = turns-IsCommon ts _ (move-IsCommon i g _ s (c.each i) c)

  pub start_of :
      (s : Barrier) (i t : ℕ) (stage : Stage)
      → stage ≡ started t
      → Fits s.ready s.start i stage
      → s.start ≡ some t
  start_of s i t _ e (at_preparing h) = absurd (cc (e))
  start_of s i t _ e (at_collecting h none_yet bound present own) = absurd (cc (e))
  start_of s i t _ e (at_awaiting h own) = absurd (cc (e))
  start_of s i t _ e (at_started h own) = cc (e, h)
  start_of s i t _ e at_interrupted = absurd (cc (e))
  start_of s i t _ e at_timed_out = absurd (cc (e))

  -- Whatever turns the workers of a run have, in whatever order, and whichever stops and timeouts
  -- they meet: two workers that return from `coordinate_start` have the same start time, and each worker
  -- of the run had stored its ready object by then.
  pub started-common :
      (ts : List (ℕ × Signals)) (i j t u : ℕ)
      → (turns worker_count ts fresh_barrier).stage i ≡ started t
      → (turns worker_count ts fresh_barrier).stage j ≡ started u
      → (t ≡ u)
        × ((k : ℕ) → k < worker_count → (turns worker_count ts fresh_barrier).ready k ≡ true)
  started-common ts i j t u first second =
      let c = turns-IsCommon ts fresh_barrier fresh-IsCommon in
      let s = turns worker_count ts fresh_barrier in
      let of_first = start_of s i t (s.stage i) first (c.each i) in
      let of_second = start_of s j u (s.stage j) second (c.each j) in
      (cc (of_first, of_second), λ k h. c.all t k of_first h)
