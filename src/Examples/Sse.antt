-- ===== src/Examples/Sse.antt =====
-- A stream of two order events.
use microservices_demo_nats.Prelude.{
  String, ◌≡◌, refl, true, List, [], ◌∷◌, some, str_eq, if◌then◌else◌,
}
use microservices_demo_nats.Sse.Events.{
  Lines, read_line, split_field, join_lines, iter_from, iter_sse_events,
}
use microservices_demo_nats.Sse.Frames.{Draft, frames, event_of}
use microservices_demo_nats.Sse.Streams.{Carries, ended, carried, iter_sse_events-frames}
use microservices_demo_nats.Sse.Orders.{
  Parsed, object, malformed, finished, Delivers, take_orders, iter_received_orders,
  iter_received_orders-Delivers,
}

abbrev plain : Lines
plain = record { Raw = String; decode = λ s. some s; rstrip = λ s. s; remove_mark = λ s. s }

abbrev placed : Draft
placed = record { kind = "order"; id = "1"; first = "{"; more = "}" ∷ [] }

abbrev shipped : Draft
shipped = record { kind = "order"; id = "2"; first = "{}"; more = [] }

abbrev stream : List String
stream = frames (placed ∷ shipped ∷ [])

carry : (lines : List String) → Carries plain lines lines
carry [] = ended
carry (x ∷ xs) = carried x xs x x xs refl refl (carry xs)

iter_sse_events-frames_example :
    iter_sse_events plain stream ≡ (event_of placed ∷ event_of shipped ∷ [], true)
iter_sse_events-frames_example =
    iter_sse_events-frames plain (placed ∷ shipped ∷ []) stream (carry stream) (λ v. refl) refl

abbrev loads : String → Parsed
loads s =
    if str_eq s "{}" then object (record { order_id = "o1"; status = "SHIPPED" }) else malformed

abbrev strip : String → String
strip s = s

one_order : (iter_received_orders loads strip plain (frames (shipped ∷ []))).ending ≡ finished
unfolding iter_received_orders take_orders iter_sse_events iter_from read_line split_field
    join_lines
one_order = refl

iter_received_orders-Delivers_example :
    let events = iter_sse_events plain stream in
    let received = iter_received_orders loads strip plain stream in
    Delivers loads strip events.1 events.0 received.received received.ending
iter_received_orders-Delivers_example = iter_received_orders-Delivers loads strip plain stream
