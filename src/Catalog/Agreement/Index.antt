-- ===== src/Catalog/Agreement/Index.antt =====
-- One quiet round of `_reconcile_catalog_index`.
use microservices_demo_nats.Prelude.{
  String, ◌≡◌, refl, inl, inr, Bool, true, false, not, ◌&&◌, List, [], ◌∷◌, Option, none, some,
  arith, Round, finished, Bool-cases, Option-cases, elem, str_eq, str_eq_iff, if◌then◌else◌,
}
use microservices_demo_nats.Kv.{
  Entry, Reply, done, refused, Bucket, World, IsHealthy, still, Rewritten, create_quiet,
  update_quiet, get, arrive,
}
use microservices_demo_nats.Catalog.Records.{
  Key, key_has_eq, key_eq, catalog_products, Stored, encode_index, CatalogError,
}
use microservices_demo_nats.Catalog.Sets.{
  same_set, elem-add, elem-sorted_set, elem-discard, elem-non_empty, same_set-elem,
}
use microservices_demo_nats.Catalog.Apply.{
  index_members, with_product, after_write, index_answer, index_round,
}

abbrev pub members_in : Option (Entry Stored) → List String
members_in none = []
members_in (some x) = index_members x.value

pub elem-index_members :
    (j : String) (ids : List String)
    → elem j (index_members (encode_index ids)) ≡ (not (str_eq j "") && elem j ids)
unfolding index_members
elem-index_members j ids = simp (elem-sorted_set, elem-non_empty)

elem-with_product :
    (j id : String) (removed : Bool) (ids : List String)
    → elem j (with_product id removed ids) ≡ (if str_eq id j then not removed else elem j ids)
unfolding with_product
elem-with_product j id true ids = rw elem-discard (ground arith)
elem-with_product j id false ids = rw elem-add (ground arith)

module _ (b : Bucket Key Stored) (healthy : IsHealthy b) where
  abbrev pub members : b.State → List String
  members s = members_in (b.peek s catalog_products)

  -- The round ended, one product is as it should be, and nothing else changed.
  pub record Reconciled (id : String) (removed : Bool) (s : b.State)
      (r : Round CatalogError (Unit {0})) (t : b.State) : Type 0 where
    pub ended : r ≡ finished tt
    pub index :
        (j : String)
        → elem j (members t) ≡ (if str_eq id j then not removed else elem j (members s))
    pub rest : (k : Key) → key_eq catalog_products k ≡ false → b.peek t k ≡ b.peek s k

  blank_not_member : (o : Option (Entry Stored)) → elem "" (members_in o) ≡ false
  unfolding index_members
  blank_not_member none = refl
  blank_not_member (some x) =
      simp (elem-sorted_set, elem-non_empty) (ground (arith, str_eq_iff "" ""))

  Reconciled-Rewritten :
      (id : String) (removed : Bool) (ids : List String) (s t : b.State) (r : Reply (Unit {0}))
      → str_eq id "" ≡ false
      → ((j : String) → elem j ids ≡ (if str_eq id j then not removed else elem j (members s)))
      → Rewritten b healthy catalog_products (encode_index ids) s r t
      → Reconciled id removed s (after_write tt r) t
  Reconciled-Rewritten id removed ids s t r named ids_lem (answer, written) = record {
    ended = rw answer;
    index = λ j. rw (written.at catalog_products) (
        rw elem-index_members (
          ground (
            arith,
            ids_lem j,
            str_eq_iff j "",
            str_eq_iff id j,
            str_eq_iff id "",
            blank_not_member (b.peek s catalog_products),
          )));
    rest = λ k h. rw (written.at k) (rw h);
  }

  absent_quiet :
      (id : String) (removed : Bool) (w : World b.State)
      → str_eq id "" ≡ false
      → b.peek w.state catalog_products ≡ none
      → Reconciled id removed w.state
          (index_answer b still id removed refused w).0
          (index_answer b still id removed refused w).1.state
  unfolding index_answer
  absent_quiet id true w named h =
      Reconciled-Rewritten id true [] w.state _ _ named (λ j. rw h (ground arith))
        (create_quiet b healthy catalog_products _ w h)
  absent_quiet id false w named h =
      Reconciled-Rewritten id false (id ∷ []) w.state _ _ named (λ j. rw h (ground arith))
        (create_quiet b healthy catalog_products _ w h)

  present_quiet :
      (id : String) (removed : Bool) (x : Entry Stored) (w : World b.State)
      → str_eq id "" ≡ false
      → b.peek w.state catalog_products ≡ some x
      → Reconciled id removed w.state
          (index_answer b still id removed (done x) w).0
          (index_answer b still id removed (done x) w).1.state
  unfolding index_answer
  present_quiet id removed x w named h = elim (Bool-cases (same_set ids before)) [
    | inl e ↦ rw e (record {
      ended = refl;
      index = λ j.
          rw h
            (ground (arith, same_set-elem j ids before e, elem-with_product j id removed before));
      rest = λ k _. refl;
    })
    | inr e ↦ rw e (
        Reconciled-Rewritten id removed ids w.state _ _ named
          (λ j. rw h (elem-with_product j id removed before))
          (update_quiet b healthy catalog_products _ x w h))
  ]
    where
      before : List String
      before = index_members x.value

      ids : List String
      ids = with_product id removed before

  -- A quiet round ends, and leaves the index right for its product and otherwise as it was.
  pub index_round_quiet :
      (id : String) (removed : Bool) (w : World b.State)
      → str_eq id "" ≡ false
      → Reconciled id removed w.state
          (index_round b still id removed w).0
          (index_round b still id removed w).1.state
  unfolding index_round get
  index_round_quiet id removed w named = elim (Option-cases (b.peek w.state catalog_products)) [
    | inl h ↦
        rw (healthy.get_absent w.state catalog_products h)
          (absent_quiet id removed (arrive b still w) named h)
    | inr (x, h) ↦
        rw (healthy.get_present w.state catalog_products x h)
          (present_quiet id removed x (arrive b still w) named h)
  ]
