-- ===== src/Parallel/Interleaving.antt =====
-- The order in which the merge takes the records of the workers' files.
pub mod Totals
use microservices_demo_nats.Prelude.{
  ℕ, zero, suc, ◌≡◌, refl, inl, inr, List, [], ◌∷◌, map, Option, none, some, ltb, length, sum,
  Bool-cases, arith,
}
use microservices_demo_nats.Parallel.Merge.{pick, past, least, merge_steps, merge}

-- A record is taken from the front of one of the lanes.
pub data Takes {A : Type 0} : A → List (List A) → List (List A) → Type 0 where
  here : {x : A} {xs : List A} {lanes : List (List A)} → Takes x ((x ∷ xs) ∷ lanes) (xs ∷ lanes)
  there :
      {x : A} {l : List A} {lanes rest : List (List A)}
      → Takes x lanes rest
      → Takes x (l ∷ lanes) (l ∷ rest)

pub data AreEmpty {A : Type 0} : List (List A) → Type 0 where
  no_lane : AreEmpty []
  empty : {lanes : List (List A)} → AreEmpty lanes → AreEmpty ([] ∷ lanes)

-- Records that are taken one by one from the fronts of the lanes, until all are empty: each record
-- of each lane is there once, and those of one lane are in its order.
pub data Interleaves {A : Type 0} : List (List A) → List A → Type 0 where
  over : {lanes : List (List A)} → AreEmpty lanes → Interleaves lanes []
  next :
      {x : A} {lanes rest : List (List A)} {xs : List A}
      → Takes x lanes rest
      → Interleaves rest xs
      → Interleaves lanes (x ∷ xs)

data Found {A : Type 0} (lanes : List (List A)) : Option (A × List (List A)) → Type 0 where
  nothing : AreEmpty lanes → Found lanes none
  taken : {x : A} {rest : List (List A)} → Takes x lanes rest → Found lanes (some (x, rest))

module _ {A : Type 0} (key : A → ℕ) where
  past-Found :
      (lanes : List (List A)) (o : Option (A × List (List A)))
      → Found lanes o
      → Found ([] ∷ lanes) (past key o)
  past-Found lanes _ (nothing e) = nothing (empty e)
  past-Found lanes _ (taken t) = taken (there t)

  pick-Found :
      (x : A) (xs : List A) (lanes : List (List A)) (o : Option (A × List (List A)))
      → Found lanes o
      → Found ((x ∷ xs) ∷ lanes) (some (pick key x xs lanes o))
  pick-Found x xs lanes _ (nothing e) = taken here
  pick-Found x xs lanes _ (taken {x = y} {rest = rest} t) =
      elim (Bool-cases (ltb (key y) (key x))) [
        | inl e ↦ rw e (taken (there t))
        | inr e ↦ rw e (taken here)
      ]

  least-Found : (lanes : List (List A)) → Found lanes (least key lanes)
  unfolding least
  least-Found [] = nothing no_lane
  least-Found ([] ∷ lanes) = past-Found lanes _ (least-Found lanes)
  least-Found ((x ∷ xs) ∷ lanes) = pick-Found x xs lanes _ (least-Found lanes)

  Takes-size :
      (x : A) (lanes rest : List (List A))
      → Takes x lanes rest
      → sum (map length lanes) ≡ suc (sum (map length rest))
  Takes-size x _ _ here = omega arith
  Takes-size x _ _ (there {l = l} {lanes = lanes} {rest = rest} t) =
      omega (arith, Takes-size x lanes rest t)

  AreEmpty-size : (lanes : List (List A)) → AreEmpty lanes → sum (map length lanes) ≡ 0
  AreEmpty-size _ no_lane = refl
  AreEmpty-size _ (empty {lanes = lanes} e) = omega (arith, AreEmpty-size lanes e)

  steps-Interleaves :
      (n : ℕ) (lanes : List (List A))
      → sum (map length lanes) ≡ n
      → Interleaves lanes (merge_steps key n lanes)
  unfolding merge_steps
  steps-Interleaves zero lanes size = go _ (least-Found lanes)
    where
      go : (o : Option (A × List (List A))) → Found lanes o → Interleaves lanes []
      go _ (nothing e) = over e
      go _ (taken {x = x} {rest = rest} t) = absurd (omega (arith, size, Takes-size x lanes rest t))
  steps-Interleaves (suc n) lanes size =
      go _ (least-Found lanes) (λ rest h. steps-Interleaves n rest h)
    where
      go :
          (o : Option (A × List (List A)))
          → Found lanes o
          → ((rest : List (List A))
              → sum (map length rest) ≡ n
              → Interleaves rest (merge_steps key n rest))
          → Interleaves lanes (elim o [ none ↦ [] | some (x, rest) ↦ x ∷ merge_steps key n rest ])
      go _ (nothing e) ih = absurd (omega (arith, size, AreEmpty-size lanes e))
      go _ (taken {x = x} {rest = rest} t) ih =
          next t (ih rest (omega (arith, size, Takes-size x lanes rest t)))

  -- The merge of the workers' records is an interleaving of them: it has each record of each worker
  -- once, and keeps each worker's order, whether or not the workers' files are sorted.
  pub merge-Interleaves : (lanes : List (List A)) → Interleaves lanes (merge key lanes)
  unfolding merge
  merge-Interleaves lanes = steps-Interleaves (sum (map length lanes)) lanes refl
