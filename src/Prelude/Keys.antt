-- ===== src/Prelude/Keys.antt =====
-- Types with a Boolean equality, and lists searched by it.
use Prim.Native.String.{String}
use mathlib.Core.Path.{◌≡◌, refl, ◌∙◌}
use mathlib.Core.Logic.{◌↔◌}
use mathlib.Core.Bool.{Bool, true, false, ◌||◌}
use mathlib.Core.List.{List, [], ◌∷◌, ◌++◌}
use native.Mathlib.Omega.{arith}
use text.Mathlib.Text.{◌==◌ as text_eq}
use text.Mathlib.TextEquality.{eq_iff}

pub record Eq {ℓ} (A : Type ℓ) : Type ℓ where
  pub eqb : A → A → Bool
  pub eqb_iff : (a b : A) → (eqb a b ≡ true) ↔ (a ≡ b)

-- Equality of texts.
abbrev pub str_eq : String → String → Bool
str_eq = text_eq

pub str_eq_iff : (s t : String) → (str_eq s t ≡ true) ↔ (s ≡ t)
str_eq_iff = eq_iff

pub str_eq_refl : (s : String) → str_eq s s ≡ true
str_eq_refl s = (eq_iff s s).1 refl

instance abbrev pub string_eq : Eq String
string_eq = record { eqb = str_eq; eqb_iff = str_eq_iff }

abbrev pub elem : String → List String → Bool
elem x [] = false
elem x (y ∷ ys) = str_eq y x || elem x ys

pub elem-append : (x : String) (ys zs : List String) → elem x (ys ++ zs) ≡ (elem x ys || elem x zs)
elem-append x [] zs = refl
elem-append x (y ∷ ys) zs = ground (arith, elem-append x ys zs)

pub or-true : (b : Bool) → (b || true) ≡ true
or-true true = refl
or-true false = refl

pub elem_later : (x : String) (ys zs : List String) → elem x zs ≡ true → elem x (ys ++ zs) ≡ true
elem_later x ys zs h = elem-append x ys zs ∙ rw h (or-true (elem x ys))

pub elem_sooner : (x : String) (ys zs : List String) → elem x ys ≡ true → elem x (ys ++ zs) ≡ true
elem_sooner x ys zs h = elem-append x ys zs ∙ rw h refl
