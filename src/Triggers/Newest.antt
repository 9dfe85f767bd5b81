-- ===== src/Triggers/Newest.antt =====
-- The dictionary `newest`, from a session to its newest trigger: a list of triggers in the order in
-- which their sessions came up, since the key of each is its own session.
use microservices_demo_nats.Prelude.{
  ℕ, ◌+◌, ◌<◌, ◌≤◌, max, String, ◌≡◌, refl, Bool, true, ◌&&◌, List, [], ◌∷◌, ◌++◌, map, Option,
  none, some, arith, inl, inr, Bool-cases, leb, str_eq, str_eq_iff, any, if◌then◌else◌,
}
use microservices_demo_nats.Triggers.Decode.{Message, Trigger}

-- How many elements pass a test.
abbrev pub count {ℓ} : {A : Type ℓ} → (A → Bool) → List A → ℕ
count p [] = 0
count p (x ∷ xs) = (if p x then 1 else 0) + count p xs

pub count-append {ℓ} :
    {A : Type ℓ} (p : A → Bool) (xs ys : List A) → count p (xs ++ ys) ≡ count p xs + count p ys
count-append p [] ys = omega arith
count-append p (x ∷ xs) ys = omega (arith, count-append p xs ys)

pub count-map {ℓ κ} :
    {A : Type ℓ} {B : Type κ} (p : B → Bool) (f : A → B) (xs : List A)
    → count p (map f xs) ≡ count (λ x. p (f x)) xs
count-map p f [] = refl
count-map p f (x ∷ xs) = omega (arith, count-map p f xs)

pub any-count {ℓ} : {A : Type ℓ} (p : A → Bool) (xs : List A) → any p xs ≡ true → 0 < count p xs
any-count p [] h = absurd (cc (h))
any-count p (x ∷ xs) h = elim (Bool-cases (p x)) [
  | inl e ↦ rw e (omega arith)
  | inr e ↦ rw e (let more = any-count p xs (rw e at h) in omega (arith, more))
]

module _ {B P : Type 0} where
  -- `newest.get(session_id)`
  unfoldable pub previous : String → List (Trigger B P) → Option (Trigger B P)
  previous s [] = none
  previous s (u ∷ us) = if str_eq u.session_id s then some u else previous s us

  -- `newest[trigger.session_id] = ...`: an old key keeps its place.
  unfoldable pub assign : Trigger B P → List (Trigger B P) → List (Trigger B P)
  assign t [] = t ∷ []
  assign t (u ∷ us) = if str_eq u.session_id t.session_id then t ∷ us else u ∷ assign t us

  abbrev pub covers : String → ℕ → Trigger B P → Bool
  covers s v u = str_eq u.session_id s && leb v u.context_version

  abbrev pub is_for : String → Trigger B P → Bool
  is_for s u = str_eq u.session_id s

  abbrev pub weight_of : (Message B → Bool) → Option (Trigger B P) → ℕ
  weight_of p none = 0
  weight_of p (some u) = if p u.message then 1 else 0

  pub assign_count :
      (p : Message B → Bool) (t : Trigger B P) (us : List (Trigger B P))
      → count (λ u. p u.message) (assign t us) + weight_of p (previous t.session_id us)
        ≡ count (λ u. p u.message) us + (if p t.message then 1 else 0)
  unfolding assign previous
  assign_count p t [] = omega arith
  assign_count p t (u ∷ us) = ground (arith, assign_count p t us)

  count_is_for-assign :
      (s : String) (t : Trigger B P) (us : List (Trigger B P))
      → count (is_for s) (assign t us)
        ≡ (if str_eq t.session_id s then max 1 (count (is_for s) us) else count (is_for s) us)
  unfolding assign
  count_is_for-assign s t [] = ground arith
  count_is_for-assign s t (u ∷ us) = elim (Bool-cases (str_eq u.session_id t.session_id)) [
    | inl e ↦ rw e (ground (arith, str_eq_iff u.session_id t.session_id))
    | inr e ↦ rw e (
        ground (
          arith,
          count_is_for-assign s t us,
          str_eq_iff u.session_id t.session_id,
          str_eq_iff u.session_id s,
          str_eq_iff t.session_id s,
        ))
  ]

  pub assign-is_for :
      (s : String) (t : Trigger B P) (us : List (Trigger B P))
      → count (is_for s) us ≤ 1
      → count (is_for s) (assign t us) ≤ 1
  assign-is_for s t us h = ground (arith, count_is_for-assign s t us)

  pub assign-covers :
      (s : String) (v : ℕ) (t : Trigger B P) (us : List (Trigger B P))
      → ((u : Trigger B P)
          → previous t.session_id us ≡ some u
          → u.context_version ≤ t.context_version)
      → any (covers s v) us ≡ true
      → any (covers s v) (assign t us) ≡ true
  unfolding assign previous
  assign-covers s v t [] newer h = cc
  assign-covers s v t (u ∷ us) newer h = elim (Bool-cases (str_eq u.session_id t.session_id)) [
    | inl e ↦ rw e (ground (arith, newer u (rw e refl), str_eq_iff u.session_id t.session_id))
    | inr e ↦ rw e (ground (arith, assign-covers s v t us (λ x p. newer x (rw e p))))
  ]

  pub assign-covers_self :
      (t : Trigger B P) (us : List (Trigger B P))
      → any (covers t.session_id t.context_version) (assign t us) ≡ true
  unfolding assign
  assign-covers_self t [] = ground (arith, str_eq_iff t.session_id t.session_id)
  assign-covers_self t (u ∷ us) =
      ground (arith, assign-covers_self t us, str_eq_iff t.session_id t.session_id)

  -- An older trigger is covered by the one that is there.
  pub previous-covers :
      (v : ℕ) (s : String) (u : Trigger B P) (us : List (Trigger B P))
      → previous s us ≡ some u
      → v ≤ u.context_version
      → any (covers s v) us ≡ true
  unfolding previous
  previous-covers v s u [] h le = cc
  previous-covers v s u (x ∷ us) h le = ground (arith, previous-covers v s u us)
