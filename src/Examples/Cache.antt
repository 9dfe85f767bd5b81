-- ===== src/Examples/Cache.antt =====
-- A catalog event, and the candidates after it.
use microservices_demo_nats.Prelude.{
  ℕ, ◌+◌, String, ◌≡◌, refl, [], ◌∷◌, none, some, arith, ok, retry,
}
use microservices_demo_nats.Kv.{Bucket, memory, empty_state, still, get, create}
use microservices_demo_nats.Catalog.Records.{Key, key_has_eq, Stored, created, product_key}
use microservices_demo_nats.Catalog.Apply.{
  apply_product, cas_round, product_round, reconcile_catalog_index, index_round,
}
use microservices_demo_nats.Catalog.Snapshot.{Sample, catalog_candidates}
use microservices_demo_nats.Triggers.Decode.{Message}
use microservices_demo_nats.Triggers.CatalogEvents.{
  CatalogCodec, upserted_subject, applied, apply_catalog, apply_envelope, apply_change,
}
use microservices_demo_nats.Triggers.Cache.{
  Service, candidates, apply_catalog_and_invalidate, invalidated_candidates,
}

abbrev shop : Bucket Key Stored
shop = memory

-- The body of a message is the ID of a product.
abbrev simple : CatalogCodec
simple = record {
  Bytes = String;
  Payload = String;
  parse = λ id. some (record {
    message_id = "m";
    correlation_id = "c";
    aggregate_type = "product";
    aggregate_version = 1;
    seconds = 5;
    nanos = 0;
    payload = id;
  });
  unpack_upserted =
      λ id. some (record { product_id = id; product_version = 1; catalog_revision = 2 });
  unpack_removed = λ id. none;
  unpack_completed = λ id. none;
}

abbrev mug_upserted : Message String
mug_upserted = record { subject = upserted_subject; body = "MUG" }

abbrev service : Service shop.State
service = record {
  cache = record { value = some ("CUP" ∷ [], 1); refreshed_at = 12 };
  store = record { state = empty_state; time = 3 };
}

abbrev everything : Sample
everything = λ seed population k. population

abbrev clock : ℕ → ℕ
clock t = 10 + t

mug_applied :
    (apply_catalog_and_invalidate shop still simple mug_upserted service).0 ≡ ok (applied created)
unfolding apply_catalog_and_invalidate apply_catalog apply_envelope apply_change apply_product
    product_key retry product_round cas_round get create reconcile_catalog_index index_round
mug_applied = refl

invalidated_candidates_example :
    let t = (apply_catalog_and_invalidate shop still simple mug_upserted service).1 in
    (candidates shop still everything clock 1 (λ s. s) [] "seed" "v1" 5 t).0
    ≡ (catalog_candidates shop still everything [] "seed" "v1" 5 t.store).0
invalidated_candidates_example =
    invalidated_candidates shop still everything clock 1 (λ s. s) simple mug_upserted service
      created [] "seed" "v1" 5 mug_applied refl (omega arith) (omega arith)
