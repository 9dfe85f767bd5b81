-- ===== src/Examples/Triggers.antt =====
-- Batches of two events of one session.
use microservices_demo_nats.Prelude.{
  ℕ, ◌≤◌, String, ◌≡◌, refl, Bool, true, false, not, ltb, ◌==◌, List, [], ◌∷◌, map, Option, none,
  some,
}
use microservices_demo_nats.Triggers.Decode.{
  Codec, Message, Item, page_view_subject, item_added_subject, decode_trigger, context_version,
}
use microservices_demo_nats.Triggers.Newest.{count, is_for, previous, assign}
use microservices_demo_nats.Triggers.Batch.{
  Generated, Settlement, acknowledged, unsettled, Sorted, fresh_page_views, latest_cart_triggers,
  settle_fetched, settle_batch, settle_item, process_message, handle_trigger, result_event,
  sort_batch, sort_one, place, page_view_verdict,
}
use microservices_demo_nats.Triggers.Freshness.{Newest, AllReplaced, latest_cart_triggers_newest}

-- The body of a message is its time in seconds; every page view is of one session.
abbrev simple : Codec
simple = record {
  Bytes = ℕ;
  Payload = ℕ;
  parse = λ n. some (record {
    message_id = "m";
    correlation_id = "c";
    aggregate_type = "page";
    aggregate_version = 0;
    seconds = n;
    nanos = 0;
    payload = n;
  });
  unpack_page_view = λ n. some (record { session_id = "s"; product_id = "" });
  unpack_item_added = λ n. some (record { user_id = "s"; items = [] });
  unpack_cleared = λ n. none;
  digest = λ s. 7;
  is_datetime = λ seconds nanos. ltb seconds 253_402_300_800;
}

abbrev batch : List (Message ℕ)
batch =
    record { subject = page_view_subject; body = 20 }
    ∷ record { subject = page_view_subject; body = 10 }
    ∷ []

abbrev five : List String → String → Option (List String × ℕ)
five excluded seed = some ("MUG" ∷ [], 5)

abbrev name_by_trigger : String → ℕ → String
name_by_trigger id revision = id

abbrev always : Generated → Bool
always e = true

abbrev cart_batch : List (Message ℕ)
cart_batch =
    record { subject = item_added_subject; body = 20 }
    ∷ record { subject = item_added_subject; body = 10 }
    ∷ []

abbrev far_batch : List (Message ℕ)
far_batch = record { subject = page_view_subject; body = 253_402_300_800 } ∷ batch

abbrev any_message : Message ℕ → Bool
any_message m = true

-- The acknowledgement of a discarded message fails.
abbrev not_ten : Message ℕ → Bool
not_ten m = not (m.body == 10)

abbrev never_reached : Item ℕ ℕ → Bool
never_reached i = false

abbrev how : Message ℕ × Settlement × List Generated → Settlement
how x = x.1

abbrev settled_with :
    (Message ℕ → Bool)
    → Option (Sorted ℕ ℕ)
    → List (Message ℕ)
    → List (Message ℕ × Settlement × List Generated)
settled_with acks filtered ms =
    settle_fetched simple five name_by_trigger always acks any_message never_reached filtered ms

settled_run :
    map how (settled_with any_message (fresh_page_views simple 21_000_000 15_000_000 batch) batch)
    ≡ acknowledged ∷ acknowledged ∷ []
unfolding settle_fetched settle_batch settle_item process_message handle_trigger result_event
    fresh_page_views sort_batch sort_one place page_view_verdict decode_trigger context_version
    previous assign
settled_run = refl

refused_run :
    map how (settled_with not_ten (fresh_page_views simple 21_000_000 15_000_000 batch) batch)
    ≡ unsettled ∷ unsettled ∷ []
unfolding settle_fetched settle_batch settle_item process_message handle_trigger result_event
    fresh_page_views sort_batch sort_one place page_view_verdict decode_trigger context_version
    previous assign
refused_run = refl

far_run : fresh_page_views simple 21_000_000 15_000_000 far_batch ≡ none
unfolding fresh_page_views decode_trigger context_version
far_run = refl

latest_cart_triggers_newest_example :
    AllReplaced simple (latest_cart_triggers simple cart_batch).newest cart_batch
    × ((user : String) → count (is_for user) (latest_cart_triggers simple cart_batch).newest ≤ 1)
latest_cart_triggers_newest_example = latest_cart_triggers_newest simple cart_batch
