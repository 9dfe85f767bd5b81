-- ===== src/Saturation/Tables.antt =====
-- The table of the progress that the workers have stored, and how it grows.
use microservices_demo_nats.Prelude.{
  ℕ, suc, ◌+◌, ◌≤◌, ◌≡◌, ◌≢◌, refl, ap, ◌∙◌, inl, inr, true, List, [], ◌∷◌, ◌++◌, Option, none,
  some, ◌==◌, ==_iff, length, Bool-cases, arith,
}
use microservices_demo_nats.Saturation.Decision.{Progress}
use microservices_demo_nats.Saturation.Coordination.{
  Phase, measuring, collecting, awaiting, timed_out, set_at,
}

module _ {A : Type 0} (f : ℕ → A) (k : ℕ) (v : A) where
  pub set_same : set_at f k v k ≡ v
  set_same = let here : (k == k) ≡ true = (==_iff k k).1 refl in rw here refl

  pub set_other : (j : ℕ) → j ≢ k → set_at f k v j ≡ f j
  set_other j h = elim (Bool-cases (j == k)) [
    | inl e ↦ absurd (h ((==_iff j k).0 e))
    | inr e ↦ rw e refl
  ]

  -- What holds of the new value and of the old ones holds of each.
  pub set_all : (P : ℕ → A → Type 0) (j : ℕ) → P k v → (j ≢ k → P j (f j)) → P j (set_at f k v j)
  set_all P j new old = elim (Bool-cases (j == k)) [
    | inl e ↦ rw e (rw ((==_iff j k).0 e) new)
    | inr e ↦ rw e (old λ h. cc (e, (==_iff j k).1 h))
  ]

abbrev pub Table : Type 0 → Type 0
Table F = ℕ → ℕ → Option (Progress F)

module _ {F : Type 0} where
  -- The first rung whose progress the worker has not stored.
  abbrev pub next_put : Phase F → ℕ
  next_put (measuring r) = r
  next_put (collecting r w ps) = suc r
  next_put (awaiting r) = suc r
  next_put (timed_out r) = suc r

  -- The first rung that worker 0 has not decided.
  abbrev pub next_decision : Phase F → ℕ
  next_decision (measuring r) = r
  next_decision (collecting r w ps) = r
  next_decision (awaiting r) = r
  next_decision (timed_out r) = r

  -- The progress of the workers from the given one on, as the table has it.
  abbrev pub Reads : (ℕ → Option (Progress F)) → ℕ → List (Progress F) → Type 0
  Reads row index [] = Unit
  Reads row index (p ∷ ps) = (row index ≡ some p) × Reads row (suc index) ps

  abbrev pub Gathers : Table F → Phase F → Type 0
  Gathers t (collecting r w ps) = Reads (t r) 0 ps
  Gathers t (measuring r) = Unit
  Gathers t (awaiting r) = Unit
  Gathers t (timed_out r) = Unit

  abbrev pub Extends : Table F → Table F → Type 0
  Extends t u = (r i : ℕ) (p : Progress F) → t r i ≡ some p → u r i ≡ some p

  pub Reads-Extends :
      (t u : Table F) (r index : ℕ) (ps : List (Progress F))
      → Extends t u
      → Reads (t r) index ps
      → Reads (u r) index ps
  Reads-Extends t u r index [] e h = tt
  Reads-Extends t u r index (p ∷ ps) e h =
      (e r index p h.0, Reads-Extends t u r (suc index) ps e h.1)

  pub Gathers-Extends : (t u : Table F) (ph : Phase F) → Extends t u → Gathers t ph → Gathers u ph
  Gathers-Extends t u (collecting r w ps) e h = Reads-Extends t u r 0 ps e h
  Gathers-Extends t u (measuring r) e h = tt
  Gathers-Extends t u (awaiting r) e h = tt
  Gathers-Extends t u (timed_out r) e h = tt

  pub Reads-append :
      (row : ℕ → Option (Progress F)) (index : ℕ) (ps : List (Progress F)) (p : Progress F)
      → Reads row index ps
      → row (index + length ps) ≡ some p
      → Reads row index (ps ++ p ∷ [])
  Reads-append row index [] p h e = let same : index + 0 ≡ index = omega arith in (rw same at e, tt)
  Reads-append row index (q ∷ ps) p h e =
      let same : index + suc (length ps) ≡ suc index + length ps = omega arith in
      (h.0, Reads-append row (suc index) ps p h.1 (rw same at e))

  abbrev pub put_at : Table F → ℕ → ℕ → Progress F → Table F
  put_at t r i p = set_at t r (set_at (t r) i (some p))

  pub put_Extends :
      (t : Table F) (rung index : ℕ) (p : Progress F)
      → t rung index ≡ none
      → Extends t (put_at t rung index p)
  put_Extends t rung index p free r i q h =
      set_all t rung _ (λ j row. t j i ≡ some q → row i ≡ some q) r
        (λ e.
          set_all (t rung) index (some p) (λ j o. t rung j ≡ some q → o ≡ some q) i
            (λ g. absurd (cc)) (λ other g. g) e)
        (λ other e. e) h

  -- A worker that has not stored a rung's progress has none in the table.
  abbrev pub Behind : Table F → (ℕ → Phase F) → Type 0
  Behind t phase = (i r : ℕ) → next_put (phase i) ≤ r → t r i ≡ none

  pub Behind-set :
      (t : Table F) (phase : ℕ → Phase F) (k : ℕ) (new : Phase F)
      → Behind t phase
      → next_put (phase k) ≤ next_put new
      → Behind t (set_at phase k new)
  Behind-set t phase k new b le i r =
      set_all phase k new (λ j ph. next_put ph ≤ r → t r j ≡ none) i
        (λ h. b k r (omega (arith, le, h))) (λ other h. b i r h)

  pub Behind-put :
      (t : Table F) (phase : ℕ → Phase F) (k rung : ℕ) (p : Progress F) (new : Phase F)
      → Behind t phase
      → phase k ≡ measuring rung
      → next_put new ≡ suc rung
      → Behind (put_at t rung k p) (set_at phase k new)
  Behind-put t phase k rung p new b here up i r =
      set_all phase k new (λ j ph. next_put ph ≤ r → put_at t rung k p r j ≡ none) i
        (λ h.
          let later : suc rung ≤ r = rw up at h in
          let seen : next_put (phase k) ≤ r = rw here (omega (arith, later)) in
          ap (λ row. row k) (set_other t rung _ r (λ e. absurd (omega (arith, later, e))))
          ∙ b k r seen)
        (λ other h.
          set_all t rung _ (λ j row. t j i ≡ none → row i ≡ none) r
            (λ e. set_other (t rung) k (some p) i other ∙ e) (λ _ e. e) (b i r h))
