-- ===== src/Report/Baselines.antt =====
-- What a recovery is compared with: the ten seconds before the fault.
use microservices_demo_nats.Prelude.{
  ℕ, ◌+◌, ◌-◌, ◌≤◌, ◌<◌, ◌≡◌, refl, sym, ap, ◌∙◌, Bool, if◌then◌else◌, ◌⊎◌, inl, inr, true, false,
  ltb, leb, ◌*◌, ◌&&◌, Bool-cases, and_parts, List, [], ◌∷◌, Option, none, some, arith,
}
use microservices_demo_nats.Report.Convergence.{
  Point, is_baseline, is_fresh, filtered, baseline_pending, total,
}

-- What `f` counts in the ten seconds before `down`.
pub data Counted (down : ℕ) (f : Point → ℕ) : List Point → ℕ → Type 0 where
  nothing : Counted down f [] 0
  within :
      {p : Point} {ps : List Point} {n : ℕ}
      → down ≤ p.elapsed_seconds * 1000 + 10_000
      → p.elapsed_seconds * 1000 < down
      → Counted down f ps n
      → Counted down f (p ∷ ps) (f p + n)
  outside :
      {p : Point} {ps : List Point} {n : ℕ}
      → (p.elapsed_seconds * 1000 + 10_000 < down) ⊎ (down ≤ p.elapsed_seconds * 1000)
      → Counted down f ps n
      → Counted down f (p ∷ ps) n

out_of_range :
    (t down : ℕ) → (leb (down - 10_000) t && ltb t down) ≡ false → (t + 10_000 < down) ⊎ (down ≤ t)
out_of_range t down h = elim (Bool-cases (ltb t down)) [
  | inl late ↦ inl (ground (arith, h, late))
  | inr e ↦ inr (ground (arith, e))
]

pub filtered-Counted :
    (down : ℕ) (f : Point → ℕ) (ps : List Point)
    → Counted down f ps (total f (filtered (is_baseline down) ps))
filtered-Counted down f [] = nothing
filtered-Counted down f (p ∷ ps) = elim (Bool-cases (is_baseline down p)) [
  | inl e ↦
      let (early, late) =
        and_parts (leb (down - 10_000) (p.elapsed_seconds * 1000))
          (ltb (p.elapsed_seconds * 1000) down) e in
      rw e (within (ground (arith, early)) (ground (arith, late)) (filtered-Counted down f ps))
  | inr e ↦
      rw e (outside (out_of_range (p.elapsed_seconds * 1000) down e) (filtered-Counted down f ps))
]

-- A fresh sample of the ten seconds before `down` with `n` waiting events.
abbrev pub Waits : ℕ → Point → ℕ → Type 0
Waits down p n =
    (age : ℕ) × (down ≤ p.elapsed_seconds * 1000 + 10_000)
    × (p.elapsed_seconds * 1000 < down)
    × (p.nats_waiting_events ≡ some n)
    × (p.sample_age ≡ some age)
    × (age ≤ 2000)

-- What the last such sample has waiting.
pub data LastWaiting (down : ℕ) : List Point → Option ℕ → Type 0 where
  none_waits : LastWaiting down [] none
  last_waits :
      {p : Point} {ps : List Point} {n : ℕ}
      → Waits down p n
      → LastWaiting down ps none
      → LastWaiting down (p ∷ ps) (some n)
  later_waits :
      {p : Point} {ps : List Point} {n : ℕ}
      → LastWaiting down ps (some n)
      → LastWaiting down (p ∷ ps) (some n)
  unknown_here :
      {p : Point} {ps : List Point}
      → ((n : ℕ) → ¬ Waits down p n)
      → LastWaiting down ps none
      → LastWaiting down (p ∷ ps) none

abbrev or_else : Option ℕ → Option ℕ → Option ℕ
or_else none y = y
or_else (some n) y = some n

abbrev sampled : Option ℕ → Point → Option ℕ
sampled found p = elim p.nats_waiting_events [
  | none ↦ found
  | some n ↦ if is_fresh p.sample_age then some n else found
]

sampled_lem : (found : Option ℕ) (p : Point) → sampled found p ≡ or_else (sampled none p) found
sampled_lem found p = go p.nats_waiting_events (is_fresh p.sample_age)
  where
    go :
        (x : Option ℕ) (b : Bool)
        → elim x [ none ↦ found | some n ↦ if b then some n else found ]
          ≡ or_else (elim x [ none ↦ none | some n ↦ if b then some n else none ]) found
    go none b = refl
    go (some n) true = refl
    go (some n) false = refl

or_else_assoc : (x y z : Option ℕ) → or_else x (or_else y z) ≡ or_else (or_else x y) z
or_else_assoc none y z = refl
or_else_assoc (some n) y z = refl

baseline_pending_lem :
    (found : Option ℕ) (ps : List Point)
    → baseline_pending found ps ≡ or_else (baseline_pending none ps) found
baseline_pending_lem found [] = refl
baseline_pending_lem found (p ∷ ps) =
    baseline_pending_lem (sampled found p) ps
    ∙ ap (or_else (baseline_pending none ps)) (sampled_lem found p)
    ∙ or_else_assoc (baseline_pending none ps) (sampled none p) found
    ∙ ap (λ x. or_else x found) (sym (baseline_pending_lem (sampled none p) ps))

fresh-Waits :
    (p : Point) (x y : Option ℕ)
    → p.nats_waiting_events ≡ x
    → p.sample_age ≡ y
    → ((n age : ℕ) × (x ≡ some n) × (y ≡ some age) × (age ≤ 2000) × (sampled none p ≡ some n))
      ⊎ (((n age : ℕ) → x ≡ some n → y ≡ some age → age ≤ 2000 → ⊥) × (sampled none p ≡ none))
fresh-Waits p none y e f = inr (λ n age h k m. absurd (cc (h)), rw e refl)
fresh-Waits p (some n) none e f = inr (λ m age h k l. absurd (cc (k)), rw e (rw f refl))
fresh-Waits p (some n) (some age) e f = elim (Bool-cases (leb age 2000)) [
  | inl g ↦ inl (n, age, refl, refl, ground (arith, g), rw e (rw f (rw g refl)))
  | inr g ↦ inr (
    λ m a h k l.
        let same : a ≡ age = ground (arith, k) in
        let old : 2000 < age = ground (arith, g) in absurd (omega (arith, same, l, old)),
    rw e (rw f (rw g refl)),
  )
]

baseline-LastWaiting :
    (down : ℕ) (p : Point) (ps : List Point) (x : Option ℕ)
    → down ≤ p.elapsed_seconds * 1000 + 10_000
    → p.elapsed_seconds * 1000 < down
    → LastWaiting down ps x
    → LastWaiting down (p ∷ ps) (or_else x (sampled none p))
baseline-LastWaiting down p ps (some n) early late rest = later_waits rest
baseline-LastWaiting down p ps none early late rest =
    elim (fresh-Waits p p.nats_waiting_events p.sample_age refl refl) [
      | inl (n, age, h, k, m, e) ↦ rw e (last_waits (age, early, late, h, k, m) rest)
      | inr (none_here, e) ↦ rw e (unknown_here (λ n w. none_here n w.0 w.3 w.4 w.5) rest)
    ]

outside-LastWaiting :
    (down : ℕ) (p : Point) (ps : List Point) (x : Option ℕ)
    → (p.elapsed_seconds * 1000 + 10_000 < down) ⊎ (down ≤ p.elapsed_seconds * 1000)
    → LastWaiting down ps x
    → LastWaiting down (p ∷ ps) x
outside-LastWaiting down p ps (some n) out rest = later_waits rest
outside-LastWaiting down p ps none (inl out) rest =
    unknown_here (λ n w. let early = w.1 in absurd (omega (arith, early, out))) rest
outside-LastWaiting down p ps none (inr out) rest =
    unknown_here (λ n w. let late = w.2 in absurd (omega (arith, late, out))) rest

pub filtered-LastWaiting :
    (down : ℕ) (ps : List Point)
    → LastWaiting down ps (baseline_pending none (filtered (is_baseline down) ps))
filtered-LastWaiting down [] = none_waits
filtered-LastWaiting down (p ∷ ps) = elim (Bool-cases (is_baseline down p)) [
  | inl e ↦
      let (early, late) =
        and_parts (leb (down - 10_000) (p.elapsed_seconds * 1000))
          (ltb (p.elapsed_seconds * 1000) down) e in
      rw e (
        rw (baseline_pending_lem (sampled none p) (filtered (is_baseline down) ps)) (
          baseline-LastWaiting down p ps _ (ground (arith, early)) (ground (arith, late))
            (filtered-LastWaiting down ps)))
  | inr e ↦ rw e (
      outside-LastWaiting down p ps _ (out_of_range (p.elapsed_seconds * 1000) down e)
        (filtered-LastWaiting down ps))
]
