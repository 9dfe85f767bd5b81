-- ===== src/Faults/Outside.antt =====
-- What a fault-tolerance run does to the outside: it reads the clock, waits, writes its journal and
-- scales deployments by `kubectl`. Times are in milliseconds.
use microservices_demo_nats.Prelude.{ℕ, ◌+◌, ◌≤◌, String, ◌≡◌, Bool, true, false, str_eq}

pub record Fault : Type 0 where
  pub service : String
  pub deployment : String
  pub disable_at_seconds : ℕ
  pub enable_at_seconds : ℕ
  pub original_replicas : ℕ

pub data Action : Type 0 where
  scale_down_started disabled scale_up_started reenabled restored restore_failed : Action

-- Each answer tells whether the call went through; `pause` tells whether the stop was requested.
pub record Outside : Type 1 where
  pub State : Type 0
  pub now : State → ℕ
  pub pause : ℕ → State → Bool × State
  pub prepare : State → Bool × State  -- `fault-plan.json` is written and `faults.jsonl` is opened
  pub note : Fault → Action → State → Bool × State
  pub scale : String → ℕ → State → Bool × State

-- A pause that is not cut short by the stop lasts as long as it was asked to.
abbrev pub Advances : Outside → Type 0
Advances o = (d : ℕ) (s : o.State) → (o.pause d s).0 ≡ false → o.now s + d ≤ o.now (o.pause d s).1

-- Nobody else scales the deployments. A call of `scale` that fails may have scaled its own one.
pub record IsCluster (o : Outside) (replicas : o.State → String → ℕ) : Type 0 where
  pub at_pause :
      (d : ℕ) (s : o.State) (dep : String) → replicas (o.pause d s).1 dep ≡ replicas s dep
  pub at_prepare : (s : o.State) (dep : String) → replicas (o.prepare s).1 dep ≡ replicas s dep
  pub at_note :
      (f : Fault) (a : Action) (s : o.State) (dep : String)
      → replicas (o.note f a s).1 dep ≡ replicas s dep
  pub at_other :
      (d dep : String) (n : ℕ) (s : o.State)
      → str_eq d dep ≡ false
      → replicas (o.scale d n s).1 dep ≡ replicas s dep
  pub at_scaled :
      (d : String) (n : ℕ) (s : o.State)
      → (o.scale d n s).0 ≡ true
      → replicas (o.scale d n s).1 d ≡ n
