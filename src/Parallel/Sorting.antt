-- ===== src/Parallel/Sorting.antt =====
-- Workers' files that are sorted by time, and their merge.
use microservices_demo_nats.Prelude.{
  ℕ, zero, suc, ◌≤◌, inl, inr, List, [], ◌∷◌, map, Option, none, some, ltb, length, sum, Bool-cases,
  arith,
}
use microservices_demo_nats.Parallel.Merge.{pick, past, least, merge_steps, merge}

module _ {A : Type 0} (key : A → ℕ) where
  -- The keys never fall, and none is below the bound.
  pub data SortedFrom : ℕ → List A → Type 0 where
    nil : {k : ℕ} → SortedFrom k []
    cons : {k : ℕ} {x : A} {xs : List A} → k ≤ key x → SortedFrom (key x) xs → SortedFrom k (x ∷ xs)

  abbrev pub EachSorted : ℕ → List (List A) → Type 0
  EachSorted k [] = Unit
  EachSorted k (l ∷ lanes) = SortedFrom k l × EachSorted k lanes

  -- What is taken is above the bound, and it is a bound of all that is left.
  data Ahead (k : ℕ) (lanes : List (List A)) : Option (A × List (List A)) → Type 0 where
    nothing : ((j : ℕ) → EachSorted j lanes) → Ahead k lanes none
    ahead :
        {x : A} {rest : List (List A)}
        → k ≤ key x
        → EachSorted (key x) rest
        → ((j : ℕ) → j ≤ key x → EachSorted j lanes)
        → Ahead k lanes (some (x, rest))

  past-Ahead :
      (k : ℕ) (lanes : List (List A)) (o : Option (A × List (List A)))
      → Ahead k lanes o
      → Ahead k ([] ∷ lanes) (past key o)
  past-Ahead k lanes _ (nothing f) = nothing λ j. (nil, f j)
  past-Ahead k lanes _ (ahead above rest f) = ahead above (nil, rest) λ j h. (nil, f j h)

  pick-Ahead :
      (k : ℕ) (x : A) (xs : List A) (lanes : List (List A)) (o : Option (A × List (List A)))
      → k ≤ key x
      → SortedFrom (key x) xs
      → Ahead k lanes o
      → Ahead k ((x ∷ xs) ∷ lanes) (some (pick key x xs lanes o))
  pick-Ahead k x xs lanes _ above sorted (nothing f) =
      ahead above (sorted, f (key x)) λ j h. (cons h sorted, f j)
  pick-Ahead k x xs lanes _ above sorted (ahead {x = y} {rest = rest} above_y left f) =
      elim (Bool-cases (ltb (key y) (key x))) [
        | inl e ↦
            let less : key y ≤ key x = ground arith in
            rw e (
              ahead above_y (cons less sorted, left)
                λ j h. (cons (omega (arith, h, less)) sorted, f j h))
        | inr e ↦
            let less : key x ≤ key y = ground arith in
            rw e (
              ahead above (sorted, f (key x) less)
                λ j h. (cons h sorted, f j (omega (arith, h, less))))
      ]

  least-Ahead :
      (k : ℕ) (lanes : List (List A)) → EachSorted k lanes → Ahead k lanes (least key lanes)
  unfolding least
  least-Ahead k [] h = nothing λ j. tt
  least-Ahead k ([] ∷ lanes) h = past-Ahead k lanes _ (least-Ahead k lanes h.1)
  least-Ahead k ((x ∷ xs) ∷ lanes) (cons above sorted, h) =
      pick-Ahead k x xs lanes _ above sorted (least-Ahead k lanes h)

  steps-SortedFrom :
      (n k : ℕ) (lanes : List (List A))
      → EachSorted k lanes
      → SortedFrom k (merge_steps key n lanes)
  unfolding merge_steps
  steps-SortedFrom zero k lanes h = nil
  steps-SortedFrom (suc n) k lanes h = go _ (least-Ahead k lanes h) (steps-SortedFrom n)
    where
      go :
          (o : Option (A × List (List A)))
          → Ahead k lanes o
          → ((j : ℕ) (rest : List (List A))
              → EachSorted j rest
              → SortedFrom j (merge_steps key n rest))
          → SortedFrom k (elim o [ none ↦ [] | some (x, rest) ↦ x ∷ merge_steps key n rest ])
      go _ (nothing f) ih = nil
      go _ (ahead {x = x} {rest = rest} above left f) ih = cons above (ih (key x) rest left)

  -- Where the records of each worker are sorted by their time, so are those of the merge.
  pub merge-SortedFrom :
      (k : ℕ) (lanes : List (List A)) → EachSorted k lanes → SortedFrom k (merge key lanes)
  unfolding merge
  merge-SortedFrom k lanes h = steps-SortedFrom (sum (map length lanes)) k lanes h
