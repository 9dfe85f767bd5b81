-- ===== src/Triggers/Explained.antt =====
-- How the messages of a batch are settled, and why.
use microservices_demo_nats.Prelude.{
  ℕ, ◌<◌, String, ◌≡◌, refl, Bool, false, true, ◌||◌, ◌⊎◌, not, List, [], ◌∷◌, ◌++◌, map, Option,
  none, some, arith, str_eq, any, Bool-cases, inl, inr, or-true,
}
use microservices_demo_nats.Triggers.Decode.{
  Codec, Envelope, page_view_subject, Message, Trigger, Item, raw, decoded, message_of,
  is_cart_subject, decode_trigger,
}
use microservices_demo_nats.Triggers.Newest.{count}
use microservices_demo_nats.Triggers.Batch.{
  Sorted, items, is_untimely, published, handle_decoded, handle_trigger, result_event, settled_as,
  settle_item, acknowledge, acknowledged, redelivered, unsettled, Generated, Settlement,
  process_message, is_refused, is_nak_failing,
}

module _ (c : Codec) where
  pub decode_trigger-message :
      (m : Message c.Bytes) (t : Trigger c.Bytes c.Payload)
      → decode_trigger c m ≡ some t
      → t.message ≡ m
  unfolding decode_trigger
  decode_trigger-message m t h = ground arith

  unreadable_lem :
      (m : Message c.Bytes) (x : Option (Envelope c.Payload))
      → c.parse m.body ≡ x
      → elim x [ none ↦ false | some _ ↦ true ] ≡ false
      → decode_trigger c m ≡ none
  unfolding decode_trigger
  unreadable_lem m none e h = rw e refl
  unreadable_lem m (some v) e h = absurd (cc (h))

  module _ (candidates : List String → String → Option (List String × ℕ))
      (uuid5 : String → ℕ → String) (publish : Generated → Bool) where
    -- The handling of a message fails: it is no trigger, there is no event for it, or JetStream does not
    -- take the event.
    pub data Fails (m : Message c.Bytes) : List Generated → Type 0 where
      no_trigger : decode_trigger c m ≡ none → Fails m []
      no_event :
          (t : Trigger c.Bytes c.Payload)
          → t.message ≡ m
          → result_event c candidates uuid5 publish t ≡ none
          → Fails m []
      not_taken : (e : Generated) → publish e ≡ false → Fails m (e ∷ [])

    -- What was sent was taken.
    pub data Sent : List Generated → Type 0 where
      nothing_to_send : Sent []
      taken : (e : Generated) → publish e ≡ true → Sent (e ∷ [])

    abbrev Handled : Message c.Bytes → Bool × List Generated → Type 0
    Handled m (true, sent) = Sent sent
    Handled m (false, sent) = Fails m sent

    published-Handled :
        (t : Trigger c.Bytes c.Payload) (m : Message c.Bytes) (x : Option Generated)
        → result_event c candidates uuid5 publish t ≡ x
        → t.message ≡ m
        → Handled m (published c candidates uuid5 publish x)
    published-Handled t m none h own = no_event t own h
    published-Handled t m (some e) h own = elim (Bool-cases (publish e)) [
      | inl accepted ↦ rw accepted (taken e accepted)
      | inr refused ↦ rw refused (not_taken e refused)
    ]

    decoded-Handled :
        (m : Message c.Bytes) (x : Option (Trigger c.Bytes c.Payload))
        → decode_trigger c m ≡ x
        → Handled m (handle_decoded c candidates uuid5 publish x)
    decoded-Handled m none h = no_trigger h
    decoded-Handled m (some t) h = published-Handled t m _ refl (decode_trigger-message m t h)

    handle_trigger-Handled :
        (i : Item c.Bytes c.Payload)
        → Handled (message_of i) (handle_trigger c candidates uuid5 publish i)
    unfolding handle_trigger
    handle_trigger-Handled (decoded t) = published-Handled t t.message _ refl refl
    handle_trigger-Handled (raw m) =
        elim (Bool-cases (is_cart_subject m.subject || str_eq m.subject page_view_subject)) [
          | inl e ↦ rw e (decoded-Handled m (decode_trigger c m) refl)
          | inr e ↦ rw e nothing_to_send
        ]

    module _ (acks naks : Message c.Bytes → Bool) (is_reached : Item c.Bytes c.Payload → Bool) where
      -- Part of a batch may be left as it is where the time of a trigger cannot be read, or where an
      -- acknowledgement or a request for a redelivery fails.
      abbrev pub IsBroken : List (Message c.Bytes) → Type 0
      IsBroken ms =
          (0 < count (is_untimely c) ms)
          ⊎ (0 < count (λ m. not (acks m)) ms)
          ⊎ (0 < count (λ m. not (naks m)) ms)

      -- How a message of the batch `ms` may have been settled, and what was sent for it.
      pub data Explained (ms : List (Message c.Bytes))
          : Message c.Bytes × Settlement × List Generated → Type 0 where
        is_acknowledged :
            {m : Message c.Bytes} {sent : List Generated}
            → acks m ≡ true
            → Sent sent
            → Explained ms (m, acknowledged, sent)
        is_redelivered :
            {m : Message c.Bytes} {sent : List Generated}
            → naks m ≡ true
            → (acks m ≡ false) ⊎ Fails m sent
            → Explained ms (m, redelivered, sent)
        is_unsettled :
            {m : Message c.Bytes} {sent : List Generated}
            → naks m ≡ false
            → (acks m ≡ false) ⊎ Fails m sent
            → Explained ms (m, unsettled, sent)
        is_left : {m : Message c.Bytes} → IsBroken ms → Explained ms (m, unsettled, [])

      abbrev Entry : Type 0
      Entry = Message c.Bytes × Settlement × List Generated

      abbrev process : Item c.Bytes c.Payload → Entry
      process i = process_message c candidates uuid5 publish acks naks is_reached i

      settled_as-Explained :
          (ms : List (Message c.Bytes)) (m : Message c.Bytes) (handled : Bool)
          (sent : List Generated)
          → Handled m (handled, sent)
          → Explained ms
              (m, settled_as c candidates uuid5 publish acks naks is_reached handled m, sent)
      settled_as-Explained ms m false sent h = elim (Bool-cases (naks m)) [
        | inl e ↦ rw e (is_redelivered e (inr h))
        | inr e ↦ rw e (is_unsettled e (inr h))
      ]
      settled_as-Explained ms m true sent h = elim (Bool-cases (acks m)) [
        | inl a ↦ rw a (is_acknowledged a h)
        | inr a ↦ elim (Bool-cases (naks m)) [
          | inl e ↦ rw a (rw e (is_redelivered e (inl a)))
          | inr e ↦ rw a (rw e (is_unsettled e (inl a)))
        ]
      ]

      process-Explained :
          (ms : List (Message c.Bytes)) (i : Item c.Bytes c.Payload) → Explained ms (process i)
      unfolding process_message
      process-Explained ms (decoded t) =
          settled_as-Explained ms t.message _ _ (handle_trigger-Handled (decoded t))
      process-Explained ms (raw m) =
          elim (Bool-cases (elim (c.parse m.body) [ none ↦ false | some _ ↦ true ])) [
            | inl e ↦ rw e (settled_as-Explained ms m _ _ (handle_trigger-Handled (raw m)))
            | inr e ↦ rw e (
                settled_as-Explained ms m false []
                  (no_trigger (unreadable_lem m (c.parse m.body) refl e)))
          ]

      pub settle_item-Explained :
          (ms : List (Message c.Bytes)) (s : Sorted c.Bytes c.Payload) (i : Item c.Bytes c.Payload)
          → (any (is_refused c candidates uuid5 publish acks naks is_reached) s.discarded ≡ true
              → IsBroken ms)
          → (any (is_nak_failing c candidates uuid5 publish acks naks is_reached) (items s) ≡ true
              → IsBroken ms)
          → Explained ms (settle_item c candidates uuid5 publish acks naks is_reached s i)
      unfolding settle_item
      settle_item-Explained ms s i refused failing =
          elim (Bool-cases
            (any (is_refused c candidates uuid5 publish acks naks is_reached) s.discarded)) [
              | inl e ↦ rw e (is_left (refused e))
              | inr e ↦
                  elim (Bool-cases (
                    any (is_nak_failing c candidates uuid5 publish acks naks is_reached)
                      (items s))) [
                        | inl f ↦ elim (Bool-cases (is_reached i)) [
                          | inl h ↦ rw e (rw f (rw h (process-Explained ms i)))
                          | inr h ↦ rw e (rw f (rw h (is_left (failing f))))
                        ]
                        | inr f ↦ rw e (rw f (process-Explained ms i))
                      ]
            ]

      abbrev pub AllExplained : List (Message c.Bytes) → List Entry → Type 0
      AllExplained ms [] = Unit
      AllExplained ms (x ∷ xs) = Explained ms x × AllExplained ms xs

      pub append-AllExplained :
          (ms : List (Message c.Bytes)) (xs ys : List Entry)
          → AllExplained ms xs
          → AllExplained ms ys
          → AllExplained ms (xs ++ ys)
      append-AllExplained ms [] ys h k = k
      append-AllExplained ms (x ∷ xs) ys (first, h) k = (first, append-AllExplained ms xs ys h k)

      pub map-AllExplained :
          {A : Type 0} (ms : List (Message c.Bytes)) (f : A → Entry) (xs : List A)
          → ((x : A) → Explained ms (f x))
          → AllExplained ms (map f xs)
      map-AllExplained ms f [] h = tt
      map-AllExplained ms f (x ∷ xs) h = (h x, map-AllExplained ms f xs h)

      pub acknowledge-AllExplained :
          (ms ds : List (Message c.Bytes))
          → (any (is_refused c candidates uuid5 publish acks naks is_reached) ds ≡ true
              → IsBroken ms)
          → AllExplained ms (map (acknowledge c candidates uuid5 publish acks naks is_reached) ds)
      acknowledge-AllExplained ms [] h = tt
      acknowledge-AllExplained ms (d ∷ ds) h = (
        elim (Bool-cases (acks d)) [
          | inl e ↦ rw e (is_acknowledged e nothing_to_send)
          | inr e ↦ rw e (is_left (h (rw e refl)))
        ],
        acknowledge-AllExplained ms ds (λ k. h (rw k (or-true (not (acks d))))),
      )
