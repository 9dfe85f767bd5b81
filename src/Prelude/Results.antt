-- ===== src/Prelude/Results.antt =====
-- Results of code that may raise, and a loop that tries a compare-and-set a bounded number of times.
use Prim.Native.Nat.{ℕ, zero, suc}
use mathlib.Core.Path.{◌≡◌, refl}
use mathlib.Core.Option.{Option, none, some}
use native.Mathlib.Omega.{arith}

pub data Result {ℓ} (E A : Type ℓ) : Type ℓ where
  ok : A → Result E A
  err : E → Result E A

infixl 5 ◌>>=◌
abbrev pub ◌>>=◌ {ℓ} : {E A B : Type ℓ} → Result E A → (A → Result E B) → Result E B
ok a >>= f = f a
err e >>= f = err e

-- One round of a retry loop: it returns a value, asks for another round, or raises.
pub data Round {ℓ} (E A : Type ℓ) : Type ℓ where
  finished : A → Round E A
  again : Round E A
  crashed : E → Round E A

module _ {E A W : Type 0} where
  abbrev after_round : (W → Result E (Option A) × W) → Round E A × W → Result E (Option A) × W
  after_round more (finished a, v) = (ok (some a), v)
  after_round more (again, v) = more v
  after_round more (crashed e, v) = (err e, v)

  -- `for attempt in range(n)`; `none` means that the loop ended without a `break`.
  unfoldable pub retry : (W → Round E A × W) → ℕ → W → Result E (Option A) × W
  retry body zero w = (ok none, w)
  retry body (suc n) w = after_round (retry body n) (body w)

  pub retry-finished :
      (body : W → Round E A × W) (n : ℕ) (w : W) (a : A)
      → (body w).0 ≡ finished a
      → retry body (suc n) w ≡ (ok (some a), (body w).1)
  unfolding retry
  retry-finished body n w a h = go (body w) h
    where
      go :
          (r : Round E A × W) → r.0 ≡ finished a → after_round (retry body n) r ≡ (ok (some a), r.1)
      go (finished b, v) h = cc
      go (again, v) h = cc
      go (crashed e, v) h = cc

  pub retry-crashed :
      (body : W → Round E A × W) (n : ℕ) (w : W) (e : E)
      → (body w).0 ≡ crashed e
      → retry body (suc n) w ≡ (err e, (body w).1)
  unfolding retry
  retry-crashed body n w e h = go (body w) h
    where
      go : (r : Round E A × W) → r.0 ≡ crashed e → after_round (retry body n) r ≡ (err e, r.1)
      go (finished b, v) h = cc
      go (again, v) h = cc
      go (crashed d, v) h = cc

  pub retry-again :
      (body : W → Round E A × W) (n : ℕ) (w : W)
      → (body w).0 ≡ again
      → retry body (suc n) w ≡ retry body n (body w).1
  unfolding retry
  retry-again body n w h = go (body w) h
    where
      go : (r : Round E A × W) → r.0 ≡ again → after_round (retry body n) r ≡ retry body n r.1
      go (finished b, v) h = cc
      go (again, v) h = refl
      go (crashed d, v) h = cc

-- The invariant rule: what each round keeps, and what holds of the value of the last one.
module _ {E A W : Type 0} (body : W → Round E A × W) (P : W → Type 0)
    (keep : (w : W) → P w → P (body w).1) where
  pub retry_keeps : (n : ℕ) (w : W) → P w → P (retry body n w).1
  unfolding retry
  retry_keeps zero w p = p
  retry_keeps (suc n) w p = go (body w) (retry_keeps n) (keep w p)
    where
      go :
          (r : Round E A × W)
          → ((v : W) → P v → P (retry body n v).1)
          → P r.1
          → P (after_round (retry body n) r).1
      go (finished b, v) ih q = q
      go (again, v) ih q = ih v q
      go (crashed e, v) ih q = q

  pub retry_result :
      (Q : A → W → Type 0)
      → ((w : W) (a : A) → P w → (body w).0 ≡ finished a → Q a (body w).1)
      → (n : ℕ) (w : W) (a : A) → P w
      → (retry body n w).0 ≡ ok (some a)
      → Q a (retry body n w).1
  unfolding retry
  retry_result Q last zero w a p h = cc
  retry_result Q last (suc n) w a p h =
      go (body w) (keep w p) (λ b. last w b p) (λ v. retry_result Q last n v a) h
    where
      go :
          (r : Round E A × W)
          → P r.1
          → ((b : A) → r.0 ≡ finished b → Q b r.1)
          → ((v : W) → P v → (retry body n v).0 ≡ ok (some a) → Q a (retry body n v).1)
          → (after_round (retry body n) r).0 ≡ ok (some a)
          → Q a (after_round (retry body n) r).1
      go (finished b, v) q here ih e = here a (ground arith)
      go (again, v) q here ih e = ih v q e
      go (crashed x, v) q here ih e = cc
