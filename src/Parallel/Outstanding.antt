-- ===== src/Parallel/Outstanding.antt =====
-- The merged file of outstanding orders (src/benchmarkservice/parallel.py, `rebase_outstanding`).
use microservices_demo_nats.Prelude.{
  ℕ, suc, ◌+◌, ◌-◌, ◌≡◌, refl, ◌⊎◌, inl, inr, true, false, List, [], ◌∷◌, some, sum, if◌then◌else◌,
  arith,
}
use microservices_demo_nats.Parallel.Records.{Record, timestamp_of}
use microservices_demo_nats.Parallel.Merge.{merge, is_accepted, counted, rebase}
use microservices_demo_nats.Parallel.Interleaving.{
  Takes, here, there, Interleaves, over, next, merge-Interleaves,
}
use microservices_demo_nats.Parallel.Sorting.{SortedFrom, nil, cons}

-- From `c` outstanding orders on, no order is completed that was not accepted before.
pub data Covered : ℕ → List Record → Type 0 where
  settled : {c : ℕ} → Covered c []
  up :
      {c : ℕ} {r : Record} {rs : List Record}
      → is_accepted r ≡ true
      → Covered (suc c) rs
      → Covered c (r ∷ rs)
  down :
      {c : ℕ} {r : Record} {rs : List Record}
      → is_accepted r ≡ false
      → Covered c rs
      → Covered (suc c) (r ∷ rs)

-- Each lane on its own, with as many outstanding orders as the list says.
pub data Covers : List ℕ → List (List Record) → Type 0 where
  none_left : Covers [] []
  beside :
      {c : ℕ} {cs : List ℕ} {l : List Record} {lanes : List (List Record)}
      → Covered c l
      → Covers cs lanes
      → Covers (c ∷ cs) (l ∷ lanes)

-- What one record does to the number of outstanding orders.
abbrev Counts : Record → ℕ → ℕ → Type 0
Counts r c d = ((is_accepted r ≡ true) × (d ≡ suc c)) ⊎ ((is_accepted r ≡ false) × (c ≡ suc d))

record Taken (r : Record) (lanes : List (List Record)) (c : ℕ) : Type 0 where
  counts : List ℕ
  covers : Covers counts lanes
  step : Counts r c (sum counts)

Takes-Taken :
    (cs : List ℕ) (r : Record) (lanes rest : List (List Record))
    → Takes r lanes rest
    → Covers cs lanes
    → Taken r rest (sum cs)
Takes-Taken _ r _ _ here (beside {c = c} {cs = cs} (up h l) others) = record {
  counts = suc c ∷ cs;
  covers = beside l others;
  step = inl (h, omega arith);
}
Takes-Taken _ r _ _ here (beside {cs = cs} (down {c = c} h l) others) = record {
  counts = c ∷ cs;
  covers = beside l others;
  step = inr (h, omega arith);
}
Takes-Taken _ r _ _ (there {lanes = lanes} {rest = rest} t) (beside {c = c} {cs = cs} l m) =
    let q = Takes-Taken cs r lanes rest t m in
    record {
      counts = c ∷ q.counts;
      covers = beside l q.covers;
      step = elim q.step [
        | inl (h, e) ↦ inl (h, omega (arith, e))
        | inr (h, e) ↦ inr (h, omega (arith, e))
      ];
    }

pub Interleaves-Covered :
    (cs : List ℕ) (c : ℕ) (lanes : List (List Record)) (rs : List Record)
    → Interleaves lanes rs
    → Covers cs lanes
    → sum cs ≡ c
    → Covered c rs
Interleaves-Covered cs c lanes _ (over e) m same = settled
Interleaves-Covered cs c lanes _ (next {x = r} {rest = rest} {xs = rs} t i) m same =
    let q = Takes-Taken cs r lanes rest t m in
    elim q.step [
      | inl (h, e) ↦
          up h (Interleaves-Covered q.counts (suc c) rest rs i q.covers (omega (arith, e, same)))
      | inr (h, e) ↦
          let fewer : suc (sum q.counts) ≡ c = omega (arith, e, same) in
          rw (← fewer)
            (down h (Interleaves-Covered q.counts (sum q.counts) rest rs i q.covers refl))
    ]

abbrev accepted_after : Record → ℕ → ℕ
accepted_after r a = if is_accepted r then suc a else a

abbrev others_after : Record → ℕ → ℕ
others_after r d = if is_accepted r then d else suc d

-- Each record's `outstanding` is the number of acceptances up to it less that of the other events,
-- counted on from `a` and `d`.
pub data Balanced : ℕ → ℕ → List Record → Type 0 where
  end : {a d : ℕ} → Balanced a d []
  tells :
      {a d n : ℕ} {r : Record} {rs : List Record}
      → r.outstanding ≡ some n
      → n + others_after r d ≡ accepted_after r a
      → Balanced (accepted_after r a) (others_after r d) rs
      → Balanced a d (r ∷ rs)

one_less : (n : ℕ) → suc n - 1 ≡ n
one_less n = omega arith

pub Covered-Balanced :
    (a d c : ℕ) (rs : List Record) → Covered c rs → c + d ≡ a → Balanced a d (rebase c rs)
unfolding rebase
Covered-Balanced a d c _ settled h = end
Covered-Balanced a d c _ (up {rs = rs} e more) h =
    tells refl (rw e (omega (arith, h)))
      (rw e (Covered-Balanced (suc a) d (suc c) rs more (omega (arith, h))))
Covered-Balanced a d _ _ (down {c = c} {rs = rs} e more) h =
    tells refl (rw e (rw (one_less c) (omega (arith, h))))
      (rw e (rw (one_less c) (Covered-Balanced a (suc d) c rs more (omega (arith, h)))))

abbrev pub EachCovered : List (List Record) → Type 0
EachCovered [] = Unit
EachCovered (l ∷ lanes) = Covered 0 l × EachCovered lanes

pub record FromNothing (lanes : List (List Record)) : Type 0 where
  pub counts : List ℕ
  pub covers : Covers counts lanes
  pub no_more : sum counts ≡ 0

pub from_nothing : (lanes : List (List Record)) → EachCovered lanes → FromNothing lanes
from_nothing [] h = record { counts = []; covers = none_left; no_more = refl }
from_nothing (l ∷ lanes) h =
    let q = from_nothing lanes h.1 in
    record {
      counts = 0 ∷ q.counts;
      covers = beside h.0 q.covers;
      no_more = omega (arith, q.no_more);
    }

pub merged-Balanced :
    (lanes : List (List Record))
    → EachCovered lanes
    → Balanced 0 0 (rebase 0 (merge timestamp_of lanes))
merged-Balanced lanes h =
    let q = from_nothing lanes h in
    let i = merge-Interleaves timestamp_of lanes in
    Covered-Balanced 0 0 0 _ (Interleaves-Covered q.counts 0 lanes _ i q.covers q.no_more)
      (omega arith)

-- The totals are rewritten, and nothing else.
pub rebase-SortedFrom :
    (k total : ℕ) (rs : List Record)
    → SortedFrom timestamp_of k rs
    → SortedFrom timestamp_of k (rebase total rs)
unfolding rebase
rebase-SortedFrom k total _ nil = nil
rebase-SortedFrom k total _ (cons {x = r} {xs = rs} above more) =
    cons above (rebase-SortedFrom (timestamp_of r) (counted r total) rs more)
