-- ===== src/Kv/Quiet.antt =====
-- Calls to a healthy bucket that nobody else writes to.
use microservices_demo_nats.Prelude.{ℕ, ◌≡◌, none, some, Eq}
use microservices_demo_nats.Kv.Interface.{Entry, Reply, done, Bucket, Written, IsHealthy, World}
use microservices_demo_nats.Kv.Calls.{create, update}

-- Nobody else acts.
abbrev pub still {ℓ} : {S : Type ℓ} → ℕ → S → S
still n s = s

module _ {K V : Type 0} ⦃e : Eq K⦄ (b : Bucket K V) (healthy : IsHealthy b) where
  -- What a quiet write leaves behind.
  abbrev pub Rewritten : K → V → b.State → Reply (Unit {0}) → b.State → Type 0
  Rewritten k x s r t = (r ≡ done tt) × Written b.peek k x s t

  pub create_quiet :
      (k : K) (x : V) (w : World b.State)
      → b.peek w.state k ≡ none
      → Rewritten k x w.state (create b still k x w).0 (create b still k x w).1.state
  unfolding create
  create_quiet k x w h =
      let answer = healthy.create_absent w.state k x h in
      (answer, (b.create_done w.state k x answer).1)

  pub update_quiet :
      (k : K) (x : V) (old : Entry V) (w : World b.State)
      → b.peek w.state k ≡ some old
      → Rewritten k x w.state
          (update b still k x old.revision w).0
          (update b still k x old.revision w).1.state
  unfolding update
  update_quiet k x old w h =
      let answer = healthy.update_current w.state k x old h in
      (answer, (b.update_done w.state k x old.revision answer).3)
