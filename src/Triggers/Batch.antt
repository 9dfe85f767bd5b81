-- ===== src/Triggers/Batch.antt =====
-- `_fresh_page_views`, `_latest_cart_triggers`, `_handle_trigger`, `_publish_result` and
-- `_process_message`, over one fetched batch. Logging and tracing are left out.
use microservices_demo_nats.Prelude.{
  ℕ, ◌+◌, String, Bool, true, false, ◌&&◌, ◌||◌, List, [], ◌∷◌, ◌++◌, map, Option, none, some, ltb,
  leb, str_eq, any, ◌==◌, not, if◌then◌else◌,
}
use microservices_demo_nats.Triggers.Decode.{
  Codec, Message, Envelope, Trigger, Item, raw, decoded, message_of, trigger_time, is_cart_subject,
  page_view_subject, decode_trigger, context_version,
}
use microservices_demo_nats.Triggers.Newest.{previous, assign}

-- What a filter does with a message: keep it as it is, acknowledge it, or let it compete for its
-- session.
pub data Verdict (B P : Type 0) : Type 0 where
  keep : Verdict B P
  drop : Verdict B P
  compete : Trigger B P → Verdict B P

-- The three containers of the loops.
pub record Sorted (B P : Type 0) : Type 0 where
  pub newest : List (Trigger B P)
  pub retained : List (Message B)
  pub discarded : List (Message B)

-- A result event, as far as the model names its fields.
pub record Generated : Type 0 where
  pub session_id : String
  pub context_version : ℕ
  pub product_ids : List String
  pub message_id : String
  pub causation_id : String
  pub occurred_at : ℕ
  pub expires_at : ℕ

-- What became of a message; one that is not settled is delivered again by the server, later.
pub data Settlement : Type 0 where
  acknowledged redelivered unsettled : Settlement

module _ {B P : Type 0} where
  unfoldable pub place : Message B → Trigger B P → Option (Trigger B P) → Sorted B P → Sorted B P
  place m t none s = record s { newest = assign t s.newest }
  place m t (some u) s =
      if leb u.context_version t.context_version
      then record s { newest = assign t s.newest; discarded = s.discarded ++ u.message ∷ [] }
      else record s { discarded = s.discarded ++ m ∷ [] }

  unfoldable pub sort_one : Message B → Verdict B P → Sorted B P → Sorted B P
  unfolding place
  sort_one m keep s = record s { retained = s.retained ++ m ∷ [] }
  sort_one m drop s = record s { discarded = s.discarded ++ m ∷ [] }
  sort_one m (compete t) s = place m t (previous t.session_id s.newest) s

  unfoldable pub sort_batch : (Message B → Verdict B P) → Sorted B P → List (Message B) → Sorted B P
  sort_batch verdict s [] = s
  sort_batch verdict s (m ∷ ms) = sort_batch verdict (sort_one m (verdict m) s) ms

  abbrev pub items : Sorted B P → List (Item B P)
  items s = map raw s.retained ++ map decoded s.newest

  abbrev pub no_messages : Sorted B P
  no_messages = record { newest = []; retained = []; discarded = [] }

module _ (c : Codec) where
  -- `now` and `max_age` are in microseconds; a trigger of time 0 is never stale.
  abbrev pub is_stale : ℕ → ℕ → Envelope c.Payload → Bool
  is_stale now max_age e = ltb 0 (trigger_time e) && ltb (trigger_time e + max_age) now

  abbrev pub page_view_of : ℕ → ℕ → Option (Trigger c.Bytes c.Payload) → Verdict c.Bytes c.Payload
  page_view_of now max_age none = keep
  page_view_of now max_age (some t) = if is_stale now max_age t.envelope then drop else compete t

  unfoldable pub page_view_verdict : ℕ → ℕ → Message c.Bytes → Verdict c.Bytes c.Payload
  page_view_verdict now max_age m = page_view_of now max_age (decode_trigger c m)

  abbrev pub cart_of : Option (Trigger c.Bytes c.Payload) → Verdict c.Bytes c.Payload
  cart_of none = keep
  cart_of (some t) = compete t

  unfoldable pub cart_verdict : Message c.Bytes → Verdict c.Bytes c.Payload
  cart_verdict m = if is_cart_subject m.subject then cart_of (decode_trigger c m) else keep

  -- Whether `_trigger_time` returns.
  abbrev pub has_time : Envelope c.Payload → Bool
  has_time e = (e.seconds == 0 && e.nanos == 0) || c.is_datetime e.seconds e.nanos

  abbrev pub raises_on : Option (Trigger c.Bytes c.Payload) → Bool
  raises_on none = false
  raises_on (some t) = not (has_time t.envelope)

  abbrev pub is_untimely : Message c.Bytes → Bool
  is_untimely m = raises_on (decode_trigger c m)

  -- `none` if `_trigger_time` raises for one of the messages, before any is acknowledged.
  unfoldable pub fresh_page_views :
      ℕ → ℕ → List (Message c.Bytes) → Option (Sorted c.Bytes c.Payload)
  fresh_page_views now max_age ms =
      if any is_untimely ms
      then none
      else some (sort_batch (page_view_verdict now max_age) no_messages ms)

  unfoldable pub latest_cart_triggers : List (Message c.Bytes) → Sorted c.Bytes c.Payload
  latest_cart_triggers ms = sort_batch cart_verdict no_messages ms

  -- The catalog cache answers candidates and a revision, or raises; `uuid5` names a result by the
  -- trigger and the catalog revision; `publish` tells whether JetStream took the event.
  module _ (candidates : List String → String → Option (List String × ℕ))
      (uuid5 : String → ℕ → String) (publish : Generated → Bool) where
    abbrev generated : Trigger c.Bytes c.Payload → Option (List String × ℕ) → Option Generated
    generated t none = none
    generated t (some (product_ids, revision)) = some (record {
      session_id = t.session_id;
      context_version = context_version c t.envelope;
      product_ids = product_ids;
      message_id = uuid5 t.envelope.message_id revision;
      causation_id = t.envelope.message_id;
      occurred_at = trigger_time t.envelope;
      expires_at = trigger_time t.envelope + 600_000_000;
    })

    -- `datetime.max`, in microseconds since 1970.
    abbrev last_time : ℕ
    last_time = 253_402_300_799_999_999

    -- The event to publish; `none` if an exception is raised before.
    unfoldable pub result_event : Trigger c.Bytes c.Payload → Option Generated
    result_event t =
        if str_eq t.envelope.message_id "" || str_eq t.session_id ""
        then none
        else if not (has_time t.envelope) || ltb last_time (trigger_time t.envelope + 600_000_000)
        then none
        else generated t (candidates t.excluded t.envelope.message_id)

    abbrev pub published : Option Generated → Bool × List Generated
    published none = (false, [])
    published (some e) = (publish e, e ∷ [])

    abbrev pub handle_decoded : Option (Trigger c.Bytes c.Payload) → Bool × List Generated
    handle_decoded none = (false, [])
    handle_decoded (some t) = published (result_event t)

    -- Whether the handler returned, and what it sent.
    unfoldable pub handle_trigger : Item c.Bytes c.Payload → Bool × List Generated
    handle_trigger (decoded t) = published (result_event t)
    handle_trigger (raw m) =
        if is_cart_subject m.subject || str_eq m.subject page_view_subject
        then handle_decoded (decode_trigger c m)
        else (true, [])

    abbrev pub readable : Item c.Bytes c.Payload → Bool
    readable (decoded t) = true
    readable (raw m) = elim (c.parse m.body) [ none ↦ false | some _ ↦ true ]

    -- Whether the acknowledgement and the request for a redelivery of a message go through, and whether
    -- an item is taken from the queue before the consumer ends, where a failed request ends it.
    module _ (acks naks : Message c.Bytes → Bool) (is_reached : Item c.Bytes c.Payload → Bool) where
      abbrev Settled : Type 0
      Settled = Message c.Bytes × Settlement × List Generated

      -- A redelivery is asked for if the handler or the acknowledgement raises.
      abbrev pub settled_as : Bool → Message c.Bytes → Settlement
      settled_as handled m =
          if handled && acks m then acknowledged else if naks m then redelivered else unsettled

      unfoldable pub process_message : Item c.Bytes c.Payload → Settled
      process_message item =
          if readable item
          then (
            message_of item,
            settled_as (handle_trigger item).0 (message_of item),
            (handle_trigger item).1,
          )
          else (message_of item, settled_as false (message_of item), [])

      abbrev pub acknowledge : Message c.Bytes → Settled
      acknowledge m = (m, if acks m then acknowledged else unsettled, [])

      abbrev pub leave : Message c.Bytes → Settled
      leave m = (m, unsettled, [])

      abbrev pub is_refused : Message c.Bytes → Bool
      is_refused m = not (acks m)

      abbrev pub is_nak_failing : Item c.Bytes c.Payload → Bool
      is_nak_failing item = not (naks (message_of item))

      -- No item is processed if the acknowledgement of a discarded message raises in `gather`, and not
      -- each needs to be if a request for a redelivery raises.
      unfoldable pub settle_item : Sorted c.Bytes c.Payload → Item c.Bytes c.Payload → Settled
      settle_item s item =
          if any is_refused s.discarded || (any is_nak_failing (items s) && not (is_reached item))
          then leave (message_of item)
          else process_message item

      -- A batch: what the filter discards is acknowledged, the rest is processed.
      unfoldable pub settle_batch : Sorted c.Bytes c.Payload → List Settled
      settle_batch s = map acknowledge s.discarded ++ map (settle_item s) (items s)

      -- The batch of which the filter made `filtered`, or on which it raised.
      unfoldable pub settle_fetched :
          Option (Sorted c.Bytes c.Payload) → List (Message c.Bytes) → List Settled
      settle_fetched none ms = map leave ms
      settle_fetched (some s) ms = settle_batch s
