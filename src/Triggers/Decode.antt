-- ===== src/Triggers/Decode.antt =====
-- Messages and their decoding: `_decode_trigger`, `_context_version` and `_trigger_time`.
use microservices_demo_nats.Prelude.{
  ℕ, ◌+◌, ◌*◌, ◌/◌, ◌%◌, ◌^◌, String, Bool, true, false, ◌&&◌, ◌||◌, not, List, [], ◌∷◌, Option,
  none, some, ◌==◌, str_eq, if◌then◌else◌,
}

abbrev pub page_view_subject : String
page_view_subject = "boutique.evt.storefront.page-viewed.v1"

abbrev pub item_added_subject : String
item_added_subject = "boutique.evt.cart.item-added.v1"

abbrev pub cleared_subject : String
cleared_subject = "boutique.evt.cart.cleared.v1"

-- The fields of `MessageEnvelope` that the service reads; times are not before 1970.
pub record Envelope (Payload : Type 0) : Type 0 where
  pub message_id : String
  pub correlation_id : String
  pub aggregate_type : String
  pub aggregate_version : ℕ
  pub seconds : ℕ
  pub nanos : ℕ
  pub payload : Payload

pub record PageView : Type 0 where
  pub session_id : String
  pub product_id : String

pub record Cart : Type 0 where
  pub user_id : String
  pub items : List String

-- The generated protobuf code and SHA-256: `none` stands for bytes or a payload of another type, and
-- `is_datetime` tells whether `ToDatetime` answers for some seconds and nanoseconds.
pub record Codec : Type 1 where
  pub Bytes : Type 0
  pub Payload : Type 0
  pub parse : Bytes → Option (Envelope Payload)
  pub unpack_page_view : Payload → Option PageView
  pub unpack_item_added : Payload → Option Cart
  pub unpack_cleared : Payload → Option Cart
  pub digest : String → ℕ
  pub is_datetime : ℕ → ℕ → Bool

pub record Message (Bytes : Type 0) : Type 0 where
  pub subject : String
  pub body : Bytes

pub record Trigger (Bytes Payload : Type 0) : Type 0 where
  pub message : Message Bytes
  pub envelope : Envelope Payload
  pub session_id : String
  pub excluded : List String
  pub context_version : ℕ

-- What a filter retains: the message itself, or its decoded form.
pub data Item (Bytes Payload : Type 0) : Type 0 where
  raw : Message Bytes → Item Bytes Payload
  decoded : Trigger Bytes Payload → Item Bytes Payload

abbrev pub message_of : {Bytes Payload : Type 0} → Item Bytes Payload → Message Bytes
message_of (raw m) = m
message_of (decoded t) = t.message

-- Microseconds since 1970, as `ToDatetime` keeps them.
abbrev pub trigger_time : {Payload : Type 0} → Envelope Payload → ℕ
trigger_time e = e.seconds * 1_000_000 + e.nanos / 1000

abbrev pub is_cart_subject : String → Bool
is_cart_subject s = str_eq s item_added_subject || str_eq s cleared_subject

module _ (c : Codec) where
  unfoldable pub context_version : Envelope c.Payload → ℕ
  context_version e =
      if str_eq e.aggregate_type "storefront-session" && not (e.aggregate_version == 0)
      then e.aggregate_version
      else if not (e.seconds == 0)
      then e.seconds * 1_000_000_000 + e.nanos
      else let version = c.digest e.message_id % 2 ^ 63 in if version == 0 then 1 else version

  abbrev of_page_view :
      Message c.Bytes → Envelope c.Payload → Option PageView → Option (Trigger c.Bytes c.Payload)
  of_page_view m e none = none
  of_page_view m e (some p) =
      if str_eq p.session_id ""
      then none
      else some (record {
        message = m;
        envelope = e;
        session_id = p.session_id;
        excluded = if str_eq p.product_id "" then [] else p.product_id ∷ [];
        context_version = context_version e;
      })

  abbrev of_cart :
      Message c.Bytes → Envelope c.Payload → Bool → Option Cart → Option (Trigger c.Bytes c.Payload)
  of_cart m e cleared none = none
  of_cart m e cleared (some cart) =
      if str_eq cart.user_id ""
      then none
      else some (record {
        message = m;
        envelope = e;
        session_id = cart.user_id;
        excluded = if cleared then [] else cart.items;
        context_version = context_version e;
      })

  abbrev of_envelope :
      Message c.Bytes → Option (Envelope c.Payload) → Option (Trigger c.Bytes c.Payload)
  of_envelope m none = none
  of_envelope m (some e) =
      if str_eq m.subject page_view_subject
      then of_page_view m e (c.unpack_page_view e.payload)
      else if str_eq m.subject item_added_subject
      then of_cart m e false (c.unpack_item_added e.payload)
      else if str_eq m.subject cleared_subject
      then of_cart m e true (c.unpack_cleared e.payload)
      else none

  -- `none` is the `ValueError` or the decoding error that the callers catch.
  unfoldable pub decode_trigger : Message c.Bytes → Option (Trigger c.Bytes c.Payload)
  decode_trigger m = of_envelope m (c.parse m.body)
