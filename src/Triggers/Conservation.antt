-- ===== src/Triggers/Conservation.antt =====
-- The messages of a fetched batch that are settled.
use microservices_demo_nats.Prelude.{ℕ, ◌+◌, String, ◌≡◌, Bool, List, Option}
use microservices_demo_nats.Triggers.Decode.{Codec, Message, Trigger, Item}
use microservices_demo_nats.Triggers.Newest.{count}
use microservices_demo_nats.Triggers.Batch
use microservices_demo_nats.Triggers.Batch.{
  Verdict, compete, Sorted, cart_of, cart_verdict, latest_cart_triggers, has_time, published,
  handle_decoded, handle_trigger, result_event, settled_as, settle_item, readable, acknowledged,
  redelivered, unsettled, Generated, Settlement,
}

-- A trigger stands for the message that it was decoded from.
abbrev pub IsOwn : {B P : Type 0} → Message B → Verdict B P → Type 0
IsOwn m (compete t) = t.message ≡ m
IsOwn m _ = Unit

module _ {B P : Type 0} (p : Message B → Bool) where
  abbrev of_trigger : Trigger B P → Bool
  of_trigger t = p t.message

  abbrev pub held : Sorted B P → ℕ
  held s = count p s.retained + count of_trigger s.newest + count p s.discarded

module _ (c : Codec) where
  module _ (candidates : List String → String → Option (List String × ℕ))
      (uuid5 : String → ℕ → String) (publish : Generated → Bool)
      (acks naks : Message c.Bytes → Bool) (is_reached : Item c.Bytes c.Payload → Bool) where
    abbrev Entry : Type 0
    Entry = Message c.Bytes × Settlement × List Generated

    abbrev settle : Sorted c.Bytes c.Payload → Item c.Bytes c.Payload → Entry
    settle s i = settle_item c candidates uuid5 publish acks naks is_reached s i

    module _ (p : Message c.Bytes → Bool) where
      -- The message that a settlement is about.
      abbrev pub settles : Entry → Bool
      settles x = p x.0
