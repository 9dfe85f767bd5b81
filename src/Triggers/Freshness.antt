-- ===== src/Triggers/Freshness.antt =====
-- Of the triggers of one session only the newest is retained.
use microservices_demo_nats.Prelude.{
  ℕ, ◌+◌, ◌<◌, ◌≤◌, ◌⊎◌, String, ◌≡◌, refl, ap, true, List, [], ◌∷◌, Option, none, some, arith, leb,
  any, Bool-cases, inl, inr,
}
use microservices_demo_nats.Triggers.Decode.{
  trigger_time, item_added_subject, cleared_subject, is_cart_subject, decode_trigger, Codec,
  Message, Trigger,
}
use microservices_demo_nats.Triggers.Newest.{
  count, previous, covers, is_for, assign-is_for, assign-covers, assign-covers_self,
  previous-covers,
}
use microservices_demo_nats.Triggers.Batch.{
  is_untimely, Verdict, keep, drop, compete, Sorted, place, sort_one, sort_batch, no_messages,
  cart_verdict, latest_cart_triggers,
}

module _ {B P : Type 0} where
  abbrev Covered : String → ℕ → Sorted B P → Type 0
  Covered s v st = any (covers s v) st.newest ≡ true

  place-Covered :
      (s : String) (v : ℕ) (m : Message B) (t : Trigger B P) (o : Option (Trigger B P))
      (st : Sorted B P)
      → previous t.session_id st.newest ≡ o
      → Covered s v st
      → Covered s v (place m t o st)
  unfolding place
  place-Covered s v m t none st e h = assign-covers s v t st.newest (λ u p. cc) h
  place-Covered s v m t (some u) st e h =
      elim (Bool-cases (leb u.context_version t.context_version)) [
        | inl f ↦ rw f (assign-covers s v t st.newest (λ x p. ground arith) h)
        | inr f ↦ rw f h
      ]

  place_covers_self :
      (m : Message B) (t : Trigger B P) (o : Option (Trigger B P)) (st : Sorted B P)
      → previous t.session_id st.newest ≡ o
      → Covered t.session_id t.context_version (place m t o st)
  unfolding place
  place_covers_self m t none st e = assign-covers_self t st.newest
  place_covers_self m t (some u) st e =
      elim (Bool-cases (leb u.context_version t.context_version)) [
        | inl f ↦ rw f (assign-covers_self t st.newest)
        | inr f ↦ rw f (previous-covers t.context_version t.session_id u st.newest e (ground arith))
      ]

  place_once :
      (s : String) (m : Message B) (t : Trigger B P) (o : Option (Trigger B P)) (st : Sorted B P)
      → count (is_for s) st.newest ≤ 1
      → count (is_for s) (place m t o st).newest ≤ 1
  unfolding place
  place_once s m t none st h = assign-is_for s t st.newest h
  place_once s m t (some u) st h = ground (arith, assign-is_for s t st.newest h)

  sort_one-Covered :
      (s : String) (v : ℕ) (m : Message B) (d : Verdict B P) (st : Sorted B P)
      → Covered s v st
      → Covered s v (sort_one m d st)
  unfolding sort_one
  sort_one-Covered s v m keep st h = h
  sort_one-Covered s v m drop st h = h
  sort_one-Covered s v m (compete t) st h = place-Covered s v m t _ st refl h

  sort_one_once :
      (s : String) (m : Message B) (d : Verdict B P) (st : Sorted B P)
      → count (is_for s) st.newest ≤ 1
      → count (is_for s) (sort_one m d st).newest ≤ 1
  unfolding sort_one
  sort_one_once s m keep st h = h
  sort_one_once s m drop st h = h
  sort_one_once s m (compete t) st h = place_once s m t _ st h

  module _ (verdict : Message B → Verdict B P) where
    sort_batch-Covered :
        (s : String) (v : ℕ) (ms : List (Message B)) (st : Sorted B P)
        → Covered s v st
        → Covered s v (sort_batch verdict st ms)
    unfolding sort_batch
    sort_batch-Covered s v [] st h = h
    sort_batch-Covered s v (m ∷ ms) st h =
        sort_batch-Covered s v ms (sort_one m (verdict m) st)
          (sort_one-Covered s v m (verdict m) st h)

    pub sort_batch_once :
        (s : String) (ms : List (Message B)) (st : Sorted B P)
        → count (is_for s) st.newest ≤ 1
        → count (is_for s) (sort_batch verdict st ms).newest ≤ 1
    unfolding sort_batch
    sort_batch_once s [] st h = h
    sort_batch_once s (m ∷ ms) st h =
        sort_batch_once s ms (sort_one m (verdict m) st) (sort_one_once s m (verdict m) st h)

    -- Each competing trigger of the batch is covered by a retained one.
    abbrev pub AllCovered : List (Message B) → Sorted B P → Type 0
    AllCovered [] st = Unit
    AllCovered (m ∷ ms) st =
        ((t : Trigger B P)
          → verdict m ≡ compete t
          → any (covers t.session_id t.context_version) st.newest ≡ true)
        × AllCovered ms st

    pub sort_batch-AllCovered :
        (ms : List (Message B)) (st : Sorted B P) → AllCovered ms (sort_batch verdict st ms)
    unfolding sort_batch
    sort_batch-AllCovered [] st = tt
    sort_batch-AllCovered (m ∷ ms) st = (
      λ t e.
          sort_batch-Covered t.session_id t.context_version ms (sort_one m (verdict m) st)
            (self t e),
      sort_batch-AllCovered ms (sort_one m (verdict m) st),
    )
      where
        self :
            (t : Trigger B P)
            → verdict m ≡ compete t
            → Covered t.session_id t.context_version (sort_one m (verdict m) st)
        self t e = rw e (unfold sort_one in place_covers_self m t _ st refl)

module _ (c : Codec) where
  -- Each page view that can be read, and has no time or is not older than `max_age`, is matched by a
  -- trigger of its session that is at least as new.
  abbrev pub AllMatched : ℕ → ℕ → List (Trigger c.Bytes c.Payload) → List (Message c.Bytes) → Type 0
  AllMatched now max_age newest [] = Unit
  AllMatched now max_age newest (m ∷ ms) =
      ((t : Trigger c.Bytes c.Payload)
        → decode_trigger c m ≡ some t
        → (trigger_time t.envelope ≡ 0) ⊎ (now ≤ trigger_time t.envelope + max_age)
        → any (covers t.session_id t.context_version) newest ≡ true)
      × AllMatched now max_age newest ms

  -- What becomes of a batch: the filter raises, for a trigger of which the time cannot be read, or it
  -- retains the newest triggers.
  pub data Newest (now max_age : ℕ) (ms : List (Message c.Bytes))
      : Option (Sorted c.Bytes c.Payload) → Type 0 where
    raises : 0 < count (is_untimely c) ms → Newest now max_age ms none
    retains :
        {s : Sorted c.Bytes c.Payload}
        → count (is_untimely c) ms ≡ 0
        → AllMatched now max_age s.newest ms
        → ((session : String) → count (is_for session) s.newest ≤ 1)
        → Newest now max_age ms (some s)

  -- Each cart event that can be read is matched by a trigger of its user that is at least as new.
  abbrev pub AllReplaced : List (Trigger c.Bytes c.Payload) → List (Message c.Bytes) → Type 0
  AllReplaced newest [] = Unit
  AllReplaced newest (m ∷ ms) =
      ((t : Trigger c.Bytes c.Payload)
        → decode_trigger c m ≡ some t
        → (m.subject ≡ item_added_subject) ⊎ (m.subject ≡ cleared_subject)
        → any (covers t.session_id t.context_version) newest ≡ true)
      × AllReplaced newest ms

  cart-competes :
      (m : Message c.Bytes) (t : Trigger c.Bytes c.Payload)
      → decode_trigger c m ≡ some t
      → (m.subject ≡ item_added_subject) ⊎ (m.subject ≡ cleared_subject)
      → cart_verdict c m ≡ compete t
  unfolding cart_verdict
  cart-competes m t e h = rw (is_cart h) (rw e refl)
    where
      is_cart :
          (m.subject ≡ item_added_subject) ⊎ (m.subject ≡ cleared_subject)
          → is_cart_subject m.subject ≡ true
      is_cart (inl k) = ap is_cart_subject k
      is_cart (inr k) = ap is_cart_subject k

  covered-AllReplaced :
      (s : Sorted c.Bytes c.Payload) (ms : List (Message c.Bytes))
      → AllCovered (cart_verdict c) ms s
      → AllReplaced s.newest ms
  covered-AllReplaced s [] h = tt
  covered-AllReplaced s (m ∷ ms) (first, rest) =
      (λ t e cart. first t (cart-competes m t e cart), covered-AllReplaced s ms rest)

  -- Each cart event of a batch that can be read is matched by a retained trigger of its user that is at
  -- least as new, and no user has two retained triggers.
  pub latest_cart_triggers_newest :
      (ms : List (Message c.Bytes))
      → AllReplaced (latest_cart_triggers c ms).newest ms
        × ((user : String) → count (is_for user) (latest_cart_triggers c ms).newest ≤ 1)
  unfolding latest_cart_triggers
  latest_cart_triggers_newest ms = (
    covered-AllReplaced _ ms (sort_batch-AllCovered (cart_verdict c) ms no_messages),
    λ s. sort_batch_once (cart_verdict c) s ms no_messages (omega arith),
  )
