-- ===== src/Catalog/Sets.antt =====
-- Python sets of texts, kept as sorted lists without duplicates, and the encoded index.
use Prim.Native.Nat.{Ordering}
use Prim.Native.String.{compare}
use text.Mathlib.Text.{is_eq}
use microservices_demo_nats.Prelude.{
  String, ◌≡◌, refl, ap, Bool, true, not, ◌&&◌, ◌||◌, List, [], ◌∷◌, arith, str_eq, str_eq_iff,
  elem, if◌then◌else◌,
}

-- `set.add`
unfoldable pub add : String → List String → List String
add x [] = x ∷ []
add x (y ∷ ys) = elim (compare x y) [
  | Ordering.lt ↦ x ∷ y ∷ ys
  | Ordering.eq ↦ y ∷ ys
  | Ordering.gt ↦ y ∷ add x ys
]

-- `sorted(set(xs))`
unfoldable pub sorted_set : List String → List String
unfolding add
sorted_set [] = []
sorted_set (x ∷ xs) = add x (sorted_set xs)

-- `set.discard`
unfoldable pub discard : String → List String → List String
discard x [] = []
discard x (y ∷ ys) = let rest = discard x ys in if str_eq y x then rest else y ∷ rest

-- the comprehension's `if str(candidate)`
unfoldable pub non_empty : List String → List String
non_empty [] = []
non_empty (x ∷ xs) = let rest = non_empty xs in if str_eq x "" then rest else x ∷ rest

abbrev subset : List String → List String → Bool
subset [] ys = true
subset (x ∷ xs) ys = elem x ys && subset xs ys

-- `==` on sets
unfoldable pub same_set : List String → List String → Bool
same_set xs ys = subset xs ys && subset ys xs

pub elem-add : (x y : String) (ys : List String) → elem x (add y ys) ≡ (str_eq y x || elem x ys)
unfolding add
elem-add x y [] = refl
elem-add x y (z ∷ zs) = go (compare y z) refl (elem-add x y zs)
  where
    go :
        (o : Ordering)
        → compare y z ≡ o
        → elem x (add y zs) ≡ (str_eq y x || elem x zs)
        → elem x (elim o [
          | Ordering.lt ↦ y ∷ z ∷ zs
          | Ordering.eq ↦ z ∷ zs
          | Ordering.gt ↦ z ∷ add y zs
        ])
          ≡ (str_eq y x || (str_eq z x || elem x zs))
    go Ordering.lt h ih = refl
    go Ordering.eq h ih =
        let same : y ≡ z = (str_eq_iff y z).0 (ap is_eq h) in rw same (ground arith)
    go Ordering.gt h ih = ground arith

pub elem-sorted_set : (x : String) (ys : List String) → elem x (sorted_set ys) ≡ elem x ys
unfolding sorted_set
elem-sorted_set x [] = refl
elem-sorted_set x (y ∷ ys) = ground (arith, elem-add x y (sorted_set ys), elem-sorted_set x ys)

pub elem-discard :
    (x y : String) (ys : List String) → elem x (discard y ys) ≡ (not (str_eq y x) && elem x ys)
unfolding discard
elem-discard x y [] = ground arith
elem-discard x y (z ∷ zs) =
    ground (arith, elem-discard x y zs, str_eq_iff z y, str_eq_iff z x, str_eq_iff y x)

pub elem-non_empty :
    (x : String) (ys : List String) → elem x (non_empty ys) ≡ (not (str_eq x "") && elem x ys)
unfolding non_empty
elem-non_empty x [] = ground arith
elem-non_empty x (z ∷ zs) =
    ground (arith, elem-non_empty x zs, str_eq_iff z x, str_eq_iff z "", str_eq_iff x "")

subset-elem :
    (x : String) (xs ys : List String) → subset xs ys ≡ true → elem x xs ≡ true → elem x ys ≡ true
subset-elem x [] ys h m = cc
subset-elem x (z ∷ zs) ys h m = ground (arith, subset-elem x zs ys, str_eq_iff z x)

-- Equal sets have the same members.
pub same_set-elem :
    (x : String) (xs ys : List String) → same_set xs ys ≡ true → elem x xs ≡ elem x ys
unfolding same_set
same_set-elem x xs ys h = ground (arith, subset-elem x xs ys, subset-elem x ys xs)
