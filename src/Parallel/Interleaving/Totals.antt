-- ===== src/Parallel/Interleaving/Totals.antt =====
-- What interleaving keeps: a map of the records, and what they sum to.
use microservices_demo_nats.Prelude.{ℕ, ◌+◌, ◌≡◌, refl, sym, List, map, sum, arith}
use microservices_demo_nats.Parallel.Interleaving.{
  Takes, here, there, AreEmpty, no_lane, empty, Interleaves, over, next,
}

module _ {A B : Type 0} (f : A → B) where
  Takes-map :
      {x : A} {lanes rest : List (List A)}
      → Takes x lanes rest
      → Takes (f x) (map (map f) lanes) (map (map f) rest)
  Takes-map here = here
  Takes-map (there t) = there (Takes-map t)

  AreEmpty-map : {lanes : List (List A)} → AreEmpty lanes → AreEmpty (map (map f) lanes)
  AreEmpty-map no_lane = no_lane
  AreEmpty-map (empty e) = empty (AreEmpty-map e)

  pub Interleaves-map :
      {lanes : List (List A)} {xs : List A}
      → Interleaves lanes xs
      → Interleaves (map (map f) lanes) (map f xs)
  Interleaves-map (over e) = over (AreEmpty-map e)
  Interleaves-map (next t i) = next (Takes-map t) (Interleaves-map i)

module _ {A : Type 0} (f : A → ℕ) where
  Takes-sum :
      {x : A} {lanes rest : List (List A)}
      → Takes x lanes rest
      → sum (map (λ l. sum (map f l)) lanes) ≡ f x + sum (map (λ l. sum (map f l)) rest)
  Takes-sum here = omega arith
  Takes-sum (there {l = l} t) = omega (arith, Takes-sum t)

  AreEmpty-sum : {lanes : List (List A)} → AreEmpty lanes → sum (map (λ l. sum (map f l)) lanes) ≡ 0
  AreEmpty-sum no_lane = refl
  AreEmpty-sum (empty e) = omega (arith, AreEmpty-sum e)

  -- Interleaving neither loses nor adds.
  pub Interleaves-sum :
      {lanes : List (List A)} {xs : List A}
      → Interleaves lanes xs
      → sum (map f xs) ≡ sum (map (λ l. sum (map f l)) lanes)
  Interleaves-sum (over e) = sym (AreEmpty-sum e)
  Interleaves-sum (next t i) = omega (arith, Takes-sum t, Interleaves-sum i)
