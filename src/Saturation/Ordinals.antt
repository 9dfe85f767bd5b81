-- ===== src/Saturation/Ordinals.antt =====
-- The transactions of one window that a worker submits (src/benchmarkservice/locustfile.py,
-- `_schedule_window`).
use native.Mathlib.Nat.{mod-add-div, mod-eq_of_lt, add-mul-mod_self_right}
use microservices_demo_nats.Prelude.{
  ℕ, zero, suc, ◌+◌, ◌*◌, ◌/◌, ◌%◌, ◌≤◌, ◌<◌, ◌≡◌, ◌≢◌, ◌∙◌, refl, sym, ap, lt→ltb, inl, inr, true,
  List, [], ◌∷◌, ltb, ◌==◌, ==_iff, Bool-cases, if◌then◌else◌, arith,
}

-- `range(first, count, step)`, with one unit of fuel for each ordinal.
unfoldable pub range_from : ℕ → ℕ → ℕ → ℕ → List ℕ
range_from zero first count step = []
range_from (suc n) first count step =
    let rest = range_from n (first + step) count step in
    if ltb first count then first ∷ rest else []

-- The ordinals of a window of `count` transactions that a worker schedules.
unfoldable pub ordinals : ℕ → ℕ → ℕ → List ℕ
ordinals worker_index worker_count count = range_from count worker_index count worker_count

-- How often a number is in a list.
unfoldable pub occurrences : ℕ → List ℕ → ℕ
occurrences n [] = 0
occurrences n (m ∷ ms) = let rest = occurrences n ms in if m == n then suc rest else rest

occurrences_none : (o : ℕ) → occurrences o [] ≡ 0
unfolding occurrences
occurrences_none o = refl

module _ (k w : ℕ) (one_worker : 1 ≤ w) where
  occurrences_skip : (o m : ℕ) (ms : List ℕ) → m ≢ o → occurrences o (m ∷ ms) ≡ occurrences o ms
  unfolding occurrences
  occurrences_skip o m ms h = elim (Bool-cases (m == o)) [
    | inl e ↦ absurd (h ((==_iff m o).0 e))
    | inr e ↦ rw e refl
  ]

  -- An ordinal that is no multiple of the step away is not in the range.
  range_without : (n f o : ℕ) → ((j : ℕ) → f + j * w ≢ o) → occurrences o (range_from n f k w) ≡ 0
  unfolding range_from
  range_without zero f o h = occurrences_none o
  range_without (suc n) f o h = elim (Bool-cases (ltb f k)) [
    | inl e ↦ rw e (
        occurrences_skip o f _ (λ e. h 0 (omega (arith, e)))
        ∙ range_without n (f + w) o (λ j e. h (suc j) (omega (arith, e))))
    | inr e ↦ rw e (occurrences_none o)
  ]

  range_own :
      (q n f o : ℕ) → o ≡ f + q * w → k ≤ f + n → o < k → occurrences o (range_from n f k w) ≡ 1
  unfolding range_from occurrences
  range_own q zero f o same enough below = absurd (omega (arith, same, enough, below))
  range_own zero (suc n) f o same enough below =
      let started : ltb f k ≡ true = lt→ltb f k (omega (arith, same, below)) in
      let here : (f == o) ≡ true = (==_iff f o).1 (omega (arith, same)) in
      rw started (
        rw here
          (ap suc (range_without n (f + w) o (λ j e. absurd (omega (arith, same, one_worker, e))))))
  range_own (suc q) (suc n) f o same enough below =
      let started : ltb f k ≡ true = lt→ltb f k (omega (arith, same, below)) in
      rw started (
        occurrences_skip o f _ (λ e. absurd (omega (arith, same, one_worker, e)))
        ∙ range_own q n (f + w) o (omega (arith, same)) (omega (arith, enough, one_worker)) below)

-- A window of `count` transactions is divided: an ordinal below `count` is scheduled once by the
-- worker whose index is its remainder by the number of workers, and never by another.
pub ordinals_shared :
    (i w count o : ℕ)
    → i < w
    → o < count
    → occurrences o (ordinals i w count) ≡ (if o % w == i then 1 else 0)
unfolding ordinals
ordinals_shared i w count o h below = elim (Bool-cases (o % w == i)) [
  | inl e ↦
      let mine : o % w ≡ i = (==_iff (o % w) i).0 e in
      rw e (
        range_own count w positive (o / w) count i o (sym (mod-add-div o w) ∙ rw mine (omega arith))
          (omega arith) below)
  | inr e ↦ rw e (
      range_without count w positive count i o λ j same. absurd (
        cc (e, (==_iff (o % w) i).1 (rw (← same) (add-mul-mod_self_right i j w ∙ mod-eq_of_lt h)))))
]
  where
    positive : 1 ≤ w
    positive = omega (arith, h)
