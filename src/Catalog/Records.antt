-- ===== src/Catalog/Records.antt =====
-- The keys and the JSON objects of the catalog bucket.
use microservices_demo_nats.Prelude.{
  ℕ, String, ◌≡◌, refl, ◌↔◌, Bool, true, false, ◌||◌, List, [], ◌∷◌, Option, none, some, arith,
  ◌==◌, Eq, str_eq, str_eq_iff, any, codes, Result, ok, err, if◌then◌else◌,
}

-- `product.<id>`, the two fixed keys, and any other key that the bucket may hold.
pub data Key : Type 0 where
  product : String → Key
  catalog_products : Key
  catalog : Key
  other : String → Key

abbrev pub key_eq : Key → Key → Bool
key_eq (product i) (product j) = str_eq i j
key_eq catalog_products catalog_products = true
key_eq catalog catalog = true
key_eq (other i) (other j) = str_eq i j
key_eq _ _ = false

pub key_eq_iff : (a b : Key) → (key_eq a b ≡ true) ↔ (a ≡ b)
key_eq_iff (product i) (product j) = ground (arith, str_eq_iff i j)
key_eq_iff (other i) (other j) = ground (arith, str_eq_iff i j)
key_eq_iff _ _ = ground arith

instance abbrev pub key_has_eq : Eq Key
key_has_eq = record { eqb = key_eq; eqb_iff = key_eq_iff }

-- A JSON object read back from the bucket: a field may be missing.
pub record Stored : Type 0 where
  pub product_id : Option String
  pub product_version : Option ℕ
  pub catalog_revision : Option ℕ
  pub removed : Option Bool
  pub source_event_id : Option String
  pub source_version : Option ℕ
  pub product_count : Option ℕ
  pub checksum : Option String
  pub product_ids : Option (List String)

-- `dict.get(field, default)`
abbrev pub get_or {ℓ} : {A : Type ℓ} → Option A → A → A
get_or none d = d
get_or (some a) d = a

-- The dictionary that `_apply_catalog` passes to `apply_product`.
pub record ProductRecord : Type 0 where
  pub product_id : String
  pub product_version : ℕ
  pub catalog_revision : ℕ
  pub removed : Bool
  pub source_event_id : String
  pub source_version : ℕ

-- The dictionary that `_apply_catalog` passes to `apply_snapshot`.
pub record SnapshotRecord : Type 0 where
  pub catalog_revision : ℕ
  pub product_count : ℕ
  pub checksum : String
  pub source_event_id : String
  pub source_version : ℕ

abbrev pub encode_product : ProductRecord → Stored
encode_product r = record {
  product_id = some r.product_id;
  product_version = some r.product_version;
  catalog_revision = some r.catalog_revision;
  removed = some r.removed;
  source_event_id = some r.source_event_id;
  source_version = some r.source_version;
  product_count = none;
  checksum = none;
  product_ids = none;
}

abbrev pub encode_snapshot : SnapshotRecord → Stored
encode_snapshot r = record {
  product_id = none;
  product_version = none;
  catalog_revision = some r.catalog_revision;
  removed = none;
  source_event_id = some r.source_event_id;
  source_version = some r.source_version;
  product_count = some r.product_count;
  checksum = some r.checksum;
  product_ids = none;
}

abbrev pub encode_index : List String → Stored
encode_index ids = record {
  product_id = none;
  product_version = none;
  catalog_revision = none;
  removed = none;
  source_event_id = none;
  source_version = none;
  product_count = none;
  checksum = none;
  product_ids = some ids;
}

-- CatalogConflict, CatalogNotReady, ValueError, and any exception of the bucket's client.
pub data CatalogError : Type 0 where
  conflict not_ready value_error store_error : CatalogError

pub data Outcome : Type 0 where
  created duplicate stale updated : Outcome

-- The characters `.*> /\`, which no product ID may hold.
is_forbidden : ℕ → Bool
is_forbidden c = any (λ d. c == d) (b'.' ∷ b'*' ∷ b'>' ∷ b' ' ∷ b'/' ∷ 92 ∷ [])

unfoldable pub product_key : String → Result CatalogError Key
unfolding is_forbidden
product_key product_id =
    if str_eq product_id "" || any is_forbidden (codes product_id)
    then err value_error
    else ok (product product_id)

pub product_key-ok : (id : String) (key : Key) → product_key id ≡ ok key → key ≡ product id
unfolding product_key
product_key-ok id key h = ground arith

pub product_key-named : (id : String) → product_key id ≡ ok (product id) → str_eq id "" ≡ false
unfolding product_key
product_key-named id h = ground arith

product_key_rejects : product_key "a.b" ≡ err value_error
unfolding product_key
product_key_rejects = refl
