-- ===== src/Report/Verdicts.antt =====
-- What a verdict on the recovery from a fault says.
use microservices_demo_nats.Prelude.{
  ℕ, zero, suc, ◌+◌, ◌*◌, ◌≤◌, ◌<◌, min, String, ◌≡◌, refl, sym, ap, ◌∙◌, inl, inr, Bool, true,
  false, not, ◌&&◌, ◌||◌, Bool-cases, and_parts, List, [], ◌∷◌, ◌++◌, Option, none, some, ltb, leb,
  ltb_false→le, ◌==◌, ==_iff, length, str_eq, str_eq_iff, arith,
}
use microservices_demo_nats.Report.Convergence.{
  Point, Criteria, total, Baseline, or_zero, is_drained, all_points, is_below, window_at, is_whole,
  is_fresh, first_points, later_points, is_failing, is_lossless, is_settled, is_stable,
  first_stable,
}

and_true : (a b : Bool) → a ≡ true → b ≡ true → (a && b) ≡ true
and_true a b h k = rw h k

neither : (a b : Bool) → (a || b) ≡ false → (a ≡ false) × (b ≡ false)
neither false b h = (refl, h)
neither true b h = absurd (cc)

not-true : (a : Bool) → not a ≡ true → a ≡ false
not-true true h = absurd (cc)
not-true false h = refl

le→ltb_false : (a b : ℕ) → b ≤ a → ltb a b ≡ false
le→ltb_false a b h = ground arith

-- The metrics of a second are fresh, and at most `most` wait.
abbrev pub IsDrained : ℕ → Point → Type 0
IsDrained most p =
    (n age : ℕ) × (p.nats_waiting_events ≡ some n)
    × (n ≤ most)
    × (p.sample_age ≡ some age)
    × (age ≤ 2000)

abbrev pub AllDrained : ℕ → List Point → Type 0
AllDrained most [] = Unit
AllDrained most (p ∷ ps) = IsDrained most p × AllDrained most ps

is_drained-IsDrained :
    (most : ℕ) (p : Point) (x y : Option ℕ)
    → p.nats_waiting_events ≡ x
    → p.sample_age ≡ y
    → is_drained most p ≡ true
    → IsDrained most p
is_drained-IsDrained most p none y e f h = absurd (cc (rw (is_drained, e) at h))
is_drained-IsDrained most p (some n) none e f h = absurd (cc (rw (is_drained, is_fresh, e, f) at h))
is_drained-IsDrained most p (some n) (some age) e f h =
    let (fresh, few) = and_parts (leb age 2000) (leb n most) (rw e at (rw f at h)) in
    (n, age, e, ground (arith, few), f, ground (arith, fresh))

IsDrained-drained : (most : ℕ) (p : Point) → IsDrained most p → is_drained most p ≡ true
IsDrained-drained most p (n, age, e, few, f, fresh) =
    rw e (rw f (and_true (leb age 2000) (leb n most) (ground (arith, fresh)) (ground (arith, few))))

drained-AllDrained :
    (most : ℕ) (ps : List Point) → all_points (is_drained most) ps ≡ true → AllDrained most ps
drained-AllDrained most [] h = tt
drained-AllDrained most (p ∷ ps) h =
    let (first, rest) = and_parts (is_drained most p) (all_points (is_drained most) ps) h in
    (is_drained-IsDrained most p _ _ refl refl first, drained-AllDrained most ps rest)

AllDrained-drained :
    (most : ℕ) (ps : List Point) → AllDrained most ps → all_points (is_drained most) ps ≡ true
AllDrained-drained most [] h = refl
AllDrained-drained most (p ∷ ps) (first, rest) =
    and_true (is_drained most p) (all_points (is_drained most) ps) (IsDrained-drained most p first)
      (AllDrained-drained most ps rest)

split_at : (n : ℕ) (ps : List Point) → first_points n ps ++ later_points n ps ≡ ps
split_at zero ps = refl
split_at (suc n) [] = refl
split_at (suc n) (p ∷ ps) = ap (λ qs. p ∷ qs) (split_at n ps)

later-append : (xs ys : List Point) → later_points (length xs) (xs ++ ys) ≡ ys
later-append [] ys = refl
later-append (x ∷ xs) ys = later-append xs ys

first-append : (xs ys : List Point) → first_points (length xs) (xs ++ ys) ≡ xs
first-append [] ys = refl
first-append (x ∷ xs) ys = ap (λ qs. x ∷ qs) (first-append xs ys)

-- Where a second has requests, as many seconds are before it as it is late.
length-first_points :
    (f : Point → ℕ) (n m : ℕ) (ps : List Point)
    → 0 < total f (first_points m (later_points n ps))
    → length (first_points n ps) ≡ n
length-first_points f zero m ps h = refl
length-first_points f (suc n) zero [] h = absurd (omega (arith, h))
length-first_points f (suc n) (suc m) [] h = absurd (omega (arith, h))
length-first_points f (suc n) m (p ∷ ps) h = ap suc (length-first_points f n m ps h)

module _ (c : Criteria) (application_type : String) (points : List Point) (b : Baseline) where
  abbrev W : ℕ → List Point
  W t = window_at c application_type points b t

  abbrev most : ℕ
  most = or_zero b.pending + c.pending_tolerance

  -- The criteria of a recovery on some seconds.
  pub record Meets (window : List Point) : Type 0 where
    pub whole : length window ≡ c.stable_seconds
    pub busy : 0 < total (λ p. p.expected_requests) window
    pub successful :
        min b.successful b.expected * c.success_fraction * total (λ p. p.expected_requests) window
        ≤ total (λ p. p.successfully_processed) window * b.expected * 1000
    pub none_lost : total (λ p. p.lost_requests) window ≡ 0
    pub drained :
        application_type ≡ "NATS" → AllDrained (or_zero b.pending + c.pending_tolerance) window

  -- The seconds of the run from `t` on begin with a stretch that meets the criteria.
  pub record Stable (t : ℕ) : Type 0 where
    pub before : List Point
    pub window : List Point
    pub after : List Point
    pub split : points ≡ before ++ (window ++ after)
    pub starts : length before ≡ t
    pub meets : Meets window

  Meets-Stable : (t : ℕ) → Meets (W t) → Stable t
  Meets-Stable t m = record {
    before = first_points t points;
    window = W t;
    after = later_points c.stable_seconds (later_points t points);
    split = sym (
        ap (λ x. first_points t points ++ x) (split_at c.stable_seconds (later_points t points))
        ∙ split_at t points);
    starts = length-first_points (λ p. p.expected_requests) t c.stable_seconds points m.busy;
    meets = m;
  }

  window_lem : (t : ℕ) (s : Stable t) → W t ≡ s.window
  window_lem t s = rw (sym s.starts) (
      rw (sym s.meets.whole) (
        rw s.split
          (rw (later-append s.before (s.window ++ s.after)) (first-append s.window s.after))))

  Stable-Meets : (t : ℕ) → Stable t → Meets (W t)
  Stable-Meets t s = rw (window_lem t s) s.meets

  is_stable-Stable : (t : ℕ) → is_stable c application_type points b t ≡ true → Stable t
  unfolding is_stable
  is_stable-Stable t h =
      let whole = is_whole c application_type points b t in
      let failing = is_failing c application_type points b t in
      let lossless = is_lossless c application_type points b t in
      let settled = is_settled c application_type points b t in
      let (long, rest) = and_parts whole (not failing && (lossless && settled)) h in
      let (enough, others) = and_parts (not failing) (lossless && settled) rest in
      let (kept, last) = and_parts lossless settled others in
      let expected = total (λ (p : Point). p.expected_requests) (W t) in
      let successful = total (λ (p : Point). p.successfully_processed) (W t) in
      let (busy, fine) =
        neither (expected == 0) (is_below c b successful expected) (not-true failing enough) in
      Meets-Stable t (record {
        whole = (==_iff _ _).0 long;
        busy = ground (arith, busy);
        successful = ltb_false→le _ _ fine;
        none_lost = (==_iff _ _).0 kept;
        drained = λ e.
            drained-AllDrained most (W t) (rw ((str_eq_iff application_type "NATS").1 e) at last);
      })

  settled_of : (t : ℕ) → Meets (W t) → is_settled c application_type points b t ≡ true
  settled_of t m = elim (Bool-cases (str_eq application_type "NATS")) [
    | inl e ↦
        rw e (AllDrained-drained most (W t) (m.drained ((str_eq_iff application_type "NATS").0 e)))
    | inr e ↦ rw e refl
  ]

  Meets-is_stable : (t : ℕ) → Meets (W t) → is_stable c application_type points b t ≡ true
  unfolding is_stable
  Meets-is_stable t m =
      let failing = is_failing c application_type points b t in
      let expected = total (λ (p : Point). p.expected_requests) (W t) in
      let busy : (expected == 0) ≡ false = ground (arith, m.busy) in
      let fine : failing ≡ false = rw busy (le→ltb_false _ _ m.successful) in
      and_true _ _ ((==_iff _ _).1 m.whole)
        (and_true _ _ (rw fine refl) (and_true _ _ ((==_iff _ _).1 m.none_lost) (settled_of t m)))

  Stable-is_stable : (t : ℕ) → Stable t → is_stable c application_type points b t ≡ true
  Stable-is_stable t s = Meets-is_stable t (Stable-Meets t s)

  -- The first of the candidates from `from` on, `n` of them.
  pub data Search (from n : ℕ) : Option ℕ → Type 0 where
    hit :
        (t : ℕ)
        → from ≤ t
        → t < from + n
        → Stable t
        → ((d : ℕ) → from ≤ d → d < t → ¬ Stable d)
        → Search from n (some t)
    miss : ((d : ℕ) → from ≤ d → d < from + n → ¬ Stable d) → Search from n none

  not_yet : (t : ℕ) → is_stable c application_type points b t ≡ false → ¬ Stable t
  not_yet t h s = absurd (cc (h, Stable-is_stable t s))

  past : (from d : ℕ) → ¬ Stable from → from ≤ d → (suc from ≤ d → ¬ Stable d) → ¬ Stable d
  past from d first at_least others = elim (Bool-cases (d == from)) [
    | inl e ↦ λ s. first (rw (← (==_iff d from).0 e) s)
    | inr e ↦ others (ground arith)
  ]

  pub first_stable-Search :
      (from n : ℕ) → Search from n (first_stable c application_type points b from n)
  unfolding first_stable
  first_stable-Search from zero = miss (λ d h k. absurd (omega (arith, h, k)))
  first_stable-Search from (suc n) =
      elim (Bool-cases (is_stable c application_type points b from)) [
        | inl e ↦ rw e (
            hit from (omega arith) (omega arith) (is_stable-Stable from e)
              (λ d h k. absurd (omega (arith, h, k))))
        | inr e ↦ rw e (shifted _ (not_yet from e) (first_stable-Search (suc from) n))
      ]
    where
      shifted : (x : Option ℕ) → ¬ Stable from → Search (suc from) n x → Search from (suc n) x
      shifted _ first (hit t low high s none_before) =
          hit t (omega (arith, low)) (omega (arith, high)) s
            (λ d h k. past from d first h (λ m. none_before d m k))
      shifted _ first (miss nobody) =
          miss (λ d h k. past from d first h (λ m. nobody d m (omega (arith, k))))
