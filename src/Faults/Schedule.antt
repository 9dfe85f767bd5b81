-- ===== src/Faults/Schedule.antt =====
-- The times of an accepted plan, and its run.
use mathlib.Core.Path.{subst}
use microservices_demo_nats.Prelude.{
  ℕ, leb→le, Bool-cases, inl, inr, if◌then◌else◌, ◌+◌, ◌≤◌, ◌<◌, String, ◌≡◌, refl, Bool, true,
  false, not, Option, none, some, leb, ◌==◌, str_eq, arith, ok, err,
}
use microservices_demo_nats.Config.Values.{Reading, negative, at}
use microservices_demo_nats.Faults.Plan.{
  PlanError, Planned, ◌>>=◌, Kubectl, Arguments, FaultPlan, at_least_one, replicas, checked,
  positive, duration_seconds, plan_from_args,
}

-- The faults follow one another, and there is time to recover after the last.
pub record IsOrdered (p : FaultPlan) : Type 0 where
  pub first : 0 < p.payment.disable_at_seconds
  pub payment_down : p.payment.disable_at_seconds < p.payment.enable_at_seconds
  pub apart : p.payment.enable_at_seconds < p.shipping.disable_at_seconds
  pub shipping_down : p.shipping.disable_at_seconds < p.shipping.enable_at_seconds
  pub recovers : p.shipping.enable_at_seconds + p.convergence_stable_seconds ≤ duration_seconds p
  pub two : str_eq p.payment.deployment p.shipping.deployment ≡ false
  pub running : (1 ≤ p.payment.original_replicas) × (1 ≤ p.shipping.original_replicas)

ok-injective : {A : Type 0} (a b : A) → ◌≡◌ {A = Planned A} (ok a) (ok b) → a ≡ b
ok-injective a b h = cc

-- A postcondition of a result, and its rule for a bind.
data Ensures {A : Type 0} (P : A → Type 0) : Planned A → Type 0 where
  returned : {a : A} → P a → Ensures P (ok a)
  raised : {e : PlanError} → Ensures P (err e)

then-Ensures :
    {A B : Type 0} (P : B → Type 0) (m : Planned A) (f : A → Planned B)
    → ((a : A) → m ≡ ok a → Ensures P (f a))
    → Ensures P (m >>= f)
unfolding ◌>>=◌
then-Ensures P (ok a) f h = h a refl
then-Ensures P (err e) f h = raised

Ensures-ok : {A : Type 0} {P : A → Type 0} (a : A) (r : Planned A) → r ≡ ok a → Ensures P r → P a
Ensures-ok {P = P} a _ h (returned {a = b} p) = subst P (ok-injective b a h) p
Ensures-ok a _ h raised = absurd (cc)

positive_pos : (r : Reading) (n : ℕ) → positive r ≡ ok n → 1 ≤ n
positive_pos negative n h = absurd (cc)
positive_pos (at m) n h = ground arith

checked-true : (t : Bool) (e : PlanError) (u : Unit {0}) → checked t e ≡ ok u → t ≡ true
checked-true true e u h = refl
checked-true false e u h = cc

at_least_one-Ensures : (r : Option Reading) → Ensures (λ n. 1 ≤ n) (at_least_one r)
at_least_one-Ensures none = raised
at_least_one-Ensures (some negative) = raised
at_least_one-Ensures (some (at m)) = elim (Bool-cases (m == 0)) [
  | inl e ↦ rw e raised
  | inr e ↦ rw e (returned (ground arith))
]

not-true : (b : Bool) → not b ≡ true → b ≡ false
not-true true h = cc
not-true false h = refl

replicas_pos : (k : Kubectl) (d : String) (n : ℕ) → replicas k d ≡ ok n → 1 ≤ n
unfolding replicas
replicas_pos k d n h = Ensures-ok n _ h (
    then-Ensures (λ x. 1 ≤ x) _ _
      λ raw _. at_least_one-Ensures (k.to_int (if str_eq raw "" then "1" else raw)))

plan_from_args-Ensures : (k : Kubectl) (a : Arguments) → Ensures IsOrdered (plan_from_args k a)
unfolding plan_from_args duration_seconds
plan_from_args-Ensures k a = then-Ensures IsOrdered _ _ λ v1 e1. then-Ensures IsOrdered _ _ λ v2 e2.
    then-Ensures IsOrdered _ _ λ v3 e3. then-Ensures IsOrdered _ _ λ v4 e4.
      then-Ensures IsOrdered _ _ λ v5 e5. then-Ensures IsOrdered _ _ λ v6 e6.
        then-Ensures IsOrdered _ _ λ v7 e7. then-Ensures IsOrdered _ _ λ v8 e8.
          then-Ensures IsOrdered _ _ λ v9 e9. then-Ensures IsOrdered _ _ λ v10 e10.
            then-Ensures IsOrdered _ _ λ v11 e11. then-Ensures IsOrdered _ _ λ v12 e12.
              then-Ensures IsOrdered _ _ λ v13 e13. then-Ensures IsOrdered _ _ λ v14 e14.
                let s1 = positive_pos a.startup_time v1 e1 in
                let s2 = positive_pos a.disable_paymentservice_time v2 e2 in
                let s3 = positive_pos a.between_disable_time v3 e3 in
                let s4 = positive_pos a.disable_shippingservice_time v4 e4 in
                let enough : leb v6 v5 ≡ true = checked-true _ _ v7 e7 in
                let stable = leb→le v6 v5 enough in
                let differ =
                  checked-true (not (str_eq a.payment_deployment a.shipping_deployment)) _ v10
                    e10 in
                returned (record {
                  first = s1;
                  payment_down = omega (arith, s2);
                  apart = omega (arith, s3);
                  shipping_down = omega (arith, s4);
                  recovers = omega (arith, stable);
                  two = not-true _ differ;
                  running = (replicas_pos k _ v13 e13, replicas_pos k _ v14 e14);
                })

-- An accepted plan disables and enables the two services one after the other, at times that strictly
-- grow, leaves the time in which the system must be stable again before it ends, and names two
-- different deployments that have replicas to restore.
pub plan_from_args-IsOrdered :
    (k : Kubectl) (a : Arguments) (p : FaultPlan) → plan_from_args k a ≡ ok p → IsOrdered p
plan_from_args-IsOrdered k a p h = Ensures-ok p _ h (plan_from_args-Ensures k a)
