-- ===== src/Sse/Orders.antt =====
-- `iter_received_orders`: the orders in a stream of events, and how the stream ends. The two clocks
-- and the release of the response are left out.
use microservices_demo_nats.Prelude.{
  String, ◌≡◌, ◌≢◌, refl, Bool, true, false, and_parts, str_eq_iff, not, ◌&&◌, List, [], ◌∷◌,
  Option, none, some, str_eq, if◌then◌else◌, Bool-cases, inl, inr,
}
use microservices_demo_nats.Sse.Events.{ServerSentEvent, Lines, iter_sse_events}

-- What `json.loads` makes of the data: an object, with `str(order.get(field, ""))` of its two fields, or
-- another value, or no JSON. `strip` is `str.strip`.
pub record Order : Type 0 where
  pub order_id : String
  pub status : String

pub data Parsed : Type 0 where
  object : Order → Parsed
  other_value : Parsed
  malformed : Parsed

pub record Received : Type 0 where
  pub order : Order
  pub event_id : Option String

pub data Ending : Type 0 where
  finished protocol_error : Ending

-- A stream that was read: its orders and how it ended.
pub record Stream : Type 0 where
  pub received : List Received
  pub ending : Ending

module _ (loads : String → Parsed) (strip : String → String) where
  abbrev pub complete : Order → Bool
  complete o = not (str_eq (strip o.order_id) "") && not (str_eq (strip o.status) "")

  abbrev checked : Parsed → Option Order
  checked (object o) = if complete o then some o else none
  checked other_value = none
  checked malformed = none

  abbrev pub take_order :
      ServerSentEvent → Option Order → List Received × Ending → List Received × Ending
  take_order e none rest = ([], protocol_error)
  take_order e (some o) rest = (record { order = o; event_id = e.event_id } ∷ rest.0, rest.1)

  -- `utf8` tells whether the events ended with the stream, or with a line that is not UTF-8.
  unfoldable pub take_orders : List ServerSentEvent → Bool → List Received × Ending
  take_orders [] utf8 = ([], if utf8 then finished else protocol_error)
  take_orders (e ∷ es) utf8 =
      let rest = take_orders es utf8 in
      if str_eq e.event "order" then take_order e (checked (loads e.content)) rest else rest

  unfoldable pub iter_received_orders : (l : Lines) → List l.Raw → Stream
  iter_received_orders l raws =
      let events = iter_sse_events l raws in
      let orders = take_orders events.0 events.1 in
      record { received = orders.0; ending = orders.1 }

  -- The ID and the status of an order are not blank.
  pub record IsFilled (o : Order) : Type 0 where
    pub order_id : strip o.order_id ≢ ""
    pub status : strip o.status ≢ ""

  -- What a stream of events delivers, and how it ends: each event named `order` is delivered, with its own
  -- ID, up to the first that holds no order with an ID and a status.
  pub data Delivers (utf8 : Bool) : List ServerSentEvent → List Received → Ending → Type 0 where
    over : utf8 ≡ true → Delivers utf8 [] [] finished
    broken : utf8 ≡ false → Delivers utf8 [] [] protocol_error
    skips :
        {e : ServerSentEvent} {es : List ServerSentEvent} {rs : List Received} {end : Ending}
        → e.event ≢ "order"
        → Delivers utf8 es rs end
        → Delivers utf8 (e ∷ es) rs end
    delivers :
        {e : ServerSentEvent} {es : List ServerSentEvent} {rs : List Received} {end : Ending}
        (o : Order)
        → e.event ≡ "order"
        → loads e.content ≡ object o
        → IsFilled o
        → Delivers utf8 es rs end
        → Delivers utf8 (e ∷ es) (record { order = o; event_id = e.event_id } ∷ rs) end
    refuses :
        {e : ServerSentEvent} {es : List ServerSentEvent}
        → e.event ≡ "order"
        → ((o : Order) → loads e.content ≡ object o → ¬ IsFilled o)
        → Delivers utf8 (e ∷ es) [] protocol_error

  complete-IsFilled : (o : Order) → complete o ≡ true → IsFilled o
  complete-IsFilled o h =
      let (id, status) =
        and_parts (not (str_eq (strip o.order_id) "")) (not (str_eq (strip o.status) "")) h in
      record {
        order_id = λ e. absurd (cc (id, (str_eq_iff (strip o.order_id) "").1 e));
        status = λ e. absurd (cc (status, (str_eq_iff (strip o.status) "").1 e));
      }

  IsFilled-complete : (o : Order) → complete o ≡ false → ¬ IsFilled o
  IsFilled-complete o h f = elim (Bool-cases (str_eq (strip o.order_id) "")) [
    | inl e ↦ f.order_id ((str_eq_iff (strip o.order_id) "").0 e)
    | inr e ↦ elim (Bool-cases (str_eq (strip o.status) "")) [
      | inl k ↦ f.status ((str_eq_iff (strip o.status) "").0 k)
      | inr k ↦ absurd (cc (rw (e, k) at h))
    ]
  ]

  take_order-Delivers :
      (utf8 : Bool) (e : ServerSentEvent) (es : List ServerSentEvent) (p : Parsed)
      (rest : List Received × Ending)
      → e.event ≡ "order"
      → loads e.content ≡ p
      → Delivers utf8 es rest.0 rest.1
      → Delivers utf8 (e ∷ es) (take_order e (checked p) rest).0 (take_order e (checked p) rest).1
  take_order-Delivers utf8 e es (object o) rest named read h = elim (Bool-cases (complete o)) [
    | inl t ↦ rw t (delivers o named read (complete-IsFilled o t) h)
    | inr t ↦ rw t (
        refuses named
          (λ q same f. let one : o ≡ q = cc (read, same) in IsFilled-complete o t (rw one f)))
  ]
  take_order-Delivers utf8 e es other_value rest named read h =
      refuses named (λ q same f. absurd (cc (read, same)))
  take_order-Delivers utf8 e es malformed rest named read h =
      refuses named (λ q same f. absurd (cc (read, same)))

  take_orders-Delivers :
      (es : List ServerSentEvent) (utf8 : Bool)
      → Delivers utf8 es (take_orders es utf8).0 (take_orders es utf8).1
  unfolding take_orders
  take_orders-Delivers [] true = over refl
  take_orders-Delivers [] false = broken refl
  take_orders-Delivers (e ∷ es) utf8 = elim (Bool-cases (str_eq e.event "order")) [
    | inl t ↦ rw t (
        take_order-Delivers utf8 e es (loads e.content) (take_orders es utf8)
          ((str_eq_iff e.event "order").0 t) refl (take_orders-Delivers es utf8))
    | inr t ↦ rw t (
        skips (λ q. absurd (cc (t, (str_eq_iff e.event "order").1 q)))
          (take_orders-Delivers es utf8))
  ]

  -- Whatever the stream holds, its orders are those of its events named `order`, each with the ID of its
  -- event, up to the first that is no JSON object with an ID and a status that are not blank: there
  -- the stream ends with an error. It ends without one only if it delivered all of them and each line
  -- was UTF-8.
  pub iter_received_orders-Delivers :
      (l : Lines) (raws : List l.Raw)
      → let events = iter_sse_events l raws in
        let stream = iter_received_orders l raws in
        Delivers events.1 events.0 stream.received stream.ending
  unfolding iter_received_orders
  iter_received_orders-Delivers l raws =
      take_orders-Delivers (iter_sse_events l raws).0 (iter_sse_events l raws).1
