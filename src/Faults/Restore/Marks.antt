-- ===== src/Faults/Restore/Marks.antt =====
-- The deployments that the controller holds to be scaled down.
use microservices_demo_nats.Prelude.{
  ℕ, String, ◌≡◌, refl, false, ◌||◌, List, [], ◌∷◌, str_eq, str_eq_iff, Bool-cases, inl, inr, arith,
}
use microservices_demo_nats.Faults.Outside.{Fault}
use microservices_demo_nats.Faults.Controller.{mark, unmark, is_held, reversed_onto}

module _ (want : String → ℕ) where
  -- Each fault knows the replicas that its deployment is to have.
  abbrev pub AllKnown : List Fault → Type 0
  AllKnown [] = Unit
  AllKnown (f ∷ fs) = (f.original_replicas ≡ want f.deployment) × AllKnown fs

  pub mark-AllKnown :
      (f : Fault) (gs : List Fault)
      → f.original_replicas ≡ want f.deployment
      → AllKnown gs
      → AllKnown (mark f gs)
  unfolding mark
  mark-AllKnown f [] h k = (h, tt)
  mark-AllKnown f (g ∷ gs) h (k, ks) = elim (Bool-cases (str_eq g.deployment f.deployment)) [
    | inl e ↦ rw e (h, ks)
    | inr e ↦ rw e (k, mark-AllKnown f gs h ks)
  ]

  pub unmark-AllKnown : (dep : String) (gs : List Fault) → AllKnown gs → AllKnown (unmark dep gs)
  unfolding unmark
  unmark-AllKnown dep [] k = tt
  unmark-AllKnown dep (g ∷ gs) (k, ks) = elim (Bool-cases (str_eq g.deployment dep)) [
    | inl e ↦ rw e (unmark-AllKnown dep gs ks)
    | inr e ↦ rw e (k, unmark-AllKnown dep gs ks)
  ]

  pub reversed_onto-AllKnown :
      (fs gs : List Fault) → AllKnown fs → AllKnown gs → AllKnown (reversed_onto fs gs)
  unfolding reversed_onto
  reversed_onto-AllKnown [] gs k l = l
  reversed_onto-AllKnown (f ∷ fs) gs (k, ks) l = reversed_onto-AllKnown fs (f ∷ gs) ks (k, l)

pub is_held-mark :
    (f : Fault) (gs : List Fault) (dep : String)
    → is_held dep (mark f gs) ≡ (str_eq f.deployment dep || is_held dep gs)
unfolding mark
is_held-mark f [] dep = refl
is_held-mark f (g ∷ gs) dep =
    ground (arith, is_held-mark f gs dep, str_eq_iff g.deployment f.deployment)

pub is_held-unmark :
    (d : String) (gs : List Fault) (dep : String)
    → str_eq d dep ≡ false
    → is_held dep (unmark d gs) ≡ is_held dep gs
unfolding unmark
is_held-unmark d [] dep h = refl
is_held-unmark d (g ∷ gs) dep h =
    ground (arith, is_held-unmark d gs dep h, str_eq_iff g.deployment d)

pub is_held-reversed_onto :
    (fs gs : List Fault) (dep : String)
    → is_held dep (reversed_onto fs gs) ≡ (is_held dep fs || is_held dep gs)
unfolding reversed_onto
is_held-reversed_onto [] gs dep = refl
is_held-reversed_onto (f ∷ fs) gs dep = ground (arith, is_held-reversed_onto fs (f ∷ gs) dep)
