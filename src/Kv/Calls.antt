-- ===== src/Kv/Calls.antt =====
-- The calls of one replica. Other replicas act between two of them: `others n` is whatever happens to
-- the bucket before the n-th call.
use microservices_demo_nats.Kv.Interface.{Entry, Reply, Bucket, World}
use microservices_demo_nats.Prelude.{ℕ, suc, ◌≡◌, some, Eq}

-- A revision is never used twice for one key, whatever others do.
abbrev pub KeepsRevisions :
    {K V : Type 0} ⦃e : Eq K⦄ (b : Bucket K V) → (ℕ → b.State → b.State) → Type 0
KeepsRevisions {K} {V} b others =
    (n : ℕ) (s : b.State) (k : K) (x y : Entry V)
    → b.peek s k ≡ some x
    → b.peek (others n s) k ≡ some y
    → x.revision ≡ y.revision
    → x.value ≡ y.value

module _ {K V : Type 0} ⦃e : Eq K⦄ (b : Bucket K V) (others : ℕ → b.State → b.State) where
  abbrev pub arrive : World b.State → World b.State
  arrive w = record { state = others w.time w.state; time = suc w.time }

  unfoldable pub get : K → World b.State → Reply (Entry V) × World b.State
  get k w = let v = arrive w in (b.get v.state k, v)

  unfoldable pub create : K → V → World b.State → Reply (Unit {0}) × World b.State
  create k x w =
      let v = arrive w in let (r, s) = b.create v.state k x in (r, record v { state = s })

  unfoldable pub update : K → V → ℕ → World b.State → Reply (Unit {0}) × World b.State
  update k x revision w =
      let v = arrive w in let (r, s) = b.update v.state k x revision in (r, record v { state = s })
