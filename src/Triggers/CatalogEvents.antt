-- ===== src/Triggers/CatalogEvents.antt =====
-- Catalog events: `_apply_catalog` of src/recommendationservice/nats_events.py.
use microservices_demo_nats.Prelude.{
  ℕ, String, Bool, true, false, Option, none, some, str_eq, if◌then◌else◌, Result, ok, err,
}
use microservices_demo_nats.Kv.{Bucket, World}
use microservices_demo_nats.Catalog.Records.{
  Key, key_has_eq, Stored, ProductRecord, SnapshotRecord, CatalogError, Outcome,
}
use microservices_demo_nats.Catalog.Apply.{apply_product, apply_snapshot}
use microservices_demo_nats.Triggers.Decode.{Envelope, Message}

pub record ProductChange : Type 0 where
  pub product_id : String
  pub product_version : ℕ
  pub catalog_revision : ℕ

pub record SnapshotCompleted : Type 0 where
  pub catalog_revision : ℕ
  pub product_count : ℕ
  pub checksum : String

-- The generated protobuf code: `none` stands for bytes or a payload of another type.
pub record CatalogCodec : Type 1 where
  pub Bytes : Type 0
  pub Payload : Type 0
  pub parse : Bytes → Option (Envelope Payload)
  pub unpack_upserted : Payload → Option ProductChange
  pub unpack_removed : Payload → Option ProductChange
  pub unpack_completed : Payload → Option SnapshotCompleted

pub data EventError : Type 0 where
  malformed_envelope : EventError
  no_message_id : EventError
  invalid_product : EventError
  invalid_removal : EventError
  invalid_snapshot : EventError
  not_applied : CatalogError → EventError

pub data Applied : Type 0 where
  ignored : Applied
  applied : Outcome → Applied

abbrev pub upserted_subject : String
upserted_subject = "boutique.evt.catalog.product-upserted.v1"

abbrev pub removed_subject : String
removed_subject = "boutique.evt.catalog.product-removed.v1"

abbrev pub completed_subject : String
completed_subject = "boutique.evt.catalog.snapshot-completed.v1"

-- The default of `max_attempts`
abbrev pub attempts : ℕ
attempts = 20

abbrev pub product_record :
    {Payload : Type 0} → Envelope Payload → Bool → ProductChange → ProductRecord
product_record e removed p = record {
  product_id = p.product_id;
  product_version = p.product_version;
  catalog_revision = p.catalog_revision;
  removed = removed;
  source_event_id = e.message_id;
  source_version = e.aggregate_version;
}

abbrev pub snapshot_record :
    {Payload : Type 0} → Envelope Payload → SnapshotCompleted → SnapshotRecord
snapshot_record e p = record {
  catalog_revision = p.catalog_revision;
  product_count = p.product_count;
  checksum = p.checksum;
  source_event_id = e.message_id;
  source_version = e.aggregate_version;
}

abbrev pub as_applied : Result CatalogError Outcome → Result EventError Applied
as_applied (ok outcome) = ok (applied outcome)
as_applied (err e) = err (not_applied e)

module _ (b : Bucket Key Stored) (others : ℕ → b.State → b.State) (c : CatalogCodec) where
  unfoldable pub apply_change :
      Envelope c.Payload
      → Bool
      → EventError
      → Option ProductChange
      → World b.State
      → Result EventError Applied × World b.State
  apply_change e removed invalid none w = (err invalid, w)
  apply_change e removed invalid (some p) w =
      if str_eq p.product_id ""
      then (err invalid, w)
      else let (r, v) = apply_product b others (product_record e removed p) attempts w in
        (as_applied r, v)

  unfoldable pub apply_completed :
      Envelope c.Payload
      → Option SnapshotCompleted
      → World b.State
      → Result EventError Applied × World b.State
  apply_completed e none w = (err invalid_snapshot, w)
  apply_completed e (some p) w =
      let (r, v) = apply_snapshot b others (snapshot_record e p) attempts w in (as_applied r, v)

  unfoldable pub apply_envelope :
      String
      → Option (Envelope c.Payload)
      → World b.State
      → Result EventError Applied × World b.State
  apply_envelope subject none w = (err malformed_envelope, w)
  apply_envelope subject (some e) w =
      if str_eq e.message_id ""
      then (err no_message_id, w)
      else if str_eq subject upserted_subject
      then apply_change e false invalid_product (c.unpack_upserted e.payload) w
      else if str_eq subject removed_subject
      then apply_change e true invalid_removal (c.unpack_removed e.payload) w
      else if str_eq subject completed_subject
      then apply_completed e (c.unpack_completed e.payload) w
      else (ok ignored, w)

  unfoldable pub apply_catalog :
      Message c.Bytes → World b.State → Result EventError Applied × World b.State
  apply_catalog m w = apply_envelope m.subject (c.parse m.body) w
