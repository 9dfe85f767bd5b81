-- ===== src/Checkout/Reconnect.antt =====
-- Opening the stream of an order's events, and the pause before it is opened again
-- (src/benchmarkservice/locustfile.py, `retry_after_seconds`, `sse_reconnect_delay`,
-- `_open_order_event_stream`, `next_order_event_before`).
pub mod Answers
use Prim.Native.String.{◌++◌ as then_text}
use microservices_demo_nats.Prelude.{
  ℕ, zero, suc, ◌+◌, ◌-◌, ◌*◌, ◌/◌, ◌^◌, ◌≤◌, ◌<◌, min, max, String, ◌≡◌, refl, ◌⊎◌, inl, inr,
  Bool-cases, Bool, true, false, ◌||◌, Option, none, some, ltb, ltb_false→le, ◌==◌, if◌then◌else◌,
  arith,
}
use microservices_demo_nats.Checkout.Outside.{
  second, Response, OrderEvent, Heard, event, deadline_reached, Outside, IsTimely,
}
use microservices_demo_nats.Checkout.Context.{BusinessFailure, http_status_failure, Site}

-- A twentieth of a second to five seconds, and one second where nothing is advertised.
unfoldable pub retry_after_seconds : Option ℕ → ℕ
retry_after_seconds none = min (5 * second) (max (second / 20) second)
retry_after_seconds (some t) = min (5 * second) (max (second / 20) t)

abbrev pub reconnect_base : ℕ → ℕ
reconnect_base attempt = min (5 * second) (second * 2 ^ min attempt 16)

abbrev pub advertised : Option ℕ → ℕ
advertised none = 0
advertised (some t) = t

-- The stream, a failure, or the advertised pause.
pub data Opened : Type 0 where
  streaming : Opened
  refused_for : ℕ → Opened
  failing : BusinessFailure → Opened

abbrev pub is_streaming : Opened → Bool
is_streaming streaming = true
is_streaming (refused_for t) = false
is_streaming (failing e) = false

module _ (o : Outside) where
  unfoldable pub sse_reconnect_delay : ℕ → Option ℕ → o.World → ℕ × o.World
  sse_reconnect_delay attempt retry_after w =
      let base = reconnect_base attempt in
      let (jittered, v) = o.uniform base (min (5 * second) (base * 6 / 5)) w in
      (min (5 * second) (max (advertised retry_after) jittered), v)

  -- The stream is open from the request on; `close_stream_response` closes it.
  abbrev pub answered : Response → ℕ × ℕ → ℕ → Opened × ℕ
  answered r received streams =
      if r.status_code == 404 || r.status_code == 503
      then (refused_for (retry_after_seconds r.retry_after), streams - 1)
      else if r.status_code == 200
      then (if r.is_event_stream then (streaming, streams) else (
        failing (record {
          outcome = "INVALID_RESPONSE";
          detail = then_text "SSE Content-Type is " r.content_type;
          received = some received;
        }),
        streams - 1,
      ))
      else (
        failing (http_status_failure o.show r.status_code "STATUS_ERROR" "SSE" (some received)),
        streams - 1,
      )

  unfoldable pub open_order_event_stream : Site o.World → Opened × Site o.World
  open_order_event_stream s =
      let (r, w) = o.connect s.world in
      let (opened, streams) = answered r (o.now w, o.epoch w) (suc s.streams) in
      (opened, record s { world = w; streams = streams })

  unfoldable pub next_order_event_before : ℕ → Site o.World → Heard × Site o.World
  next_order_event_before deadline s =
      if ltb (o.now s.world) deadline
      then (let (heard, w) = o.next_event (deadline - o.now s.world) s.world in
          (heard, record s { world = w }))
      else (deadline_reached, s)

  -- `gevent.sleep(min(delay, max(0.0, deadline - time.monotonic())))`
  unfoldable pub pause : ℕ → ℕ → Option ℕ → Site o.World → Site o.World
  pause deadline attempt retry_after s =
      let (delay, w) = sse_reconnect_delay attempt retry_after s.world in
      record s { world = o.sleep (min delay (deadline - o.now w)) w }

  -- The stream is a generator, which releases the response at its end. One that was never started has
  -- nothing to end: the response stays open.
  abbrev pub close_order_stream : Bool → Site o.World → Site o.World
  close_order_stream is_started s = if is_started then record s { streams = s.streams - 1 } else s

module _ (o : Outside) (timely : IsTimely o) where
  two_pow_pos : (n : ℕ) → 1 ≤ 2 ^ n
  two_pow_pos zero = omega arith
  two_pow_pos (suc n) = omega (arith, two_pow_pos n)

  base_bounds :
      (attempt : ℕ) → (second ≤ reconnect_base attempt) × (reconnect_base attempt ≤ 5 * second)
  base_bounds attempt = omega (arith, two_pow_pos (min attempt 16))

  -- The pause before a new attempt is at least the base of its attempt, which starts with a second and
  -- doubles, and at most five seconds, whatever the server advertises.
  pub reconnect_delay_bounds :
      (attempt : ℕ) (retry_after : Option ℕ) (w : o.World)
      → let delay = (sse_reconnect_delay o attempt retry_after w).0 in
        (reconnect_base attempt ≤ delay) × (delay ≤ 5 * second)
  unfolding sse_reconnect_delay
  reconnect_delay_bounds attempt retry_after w =
      let base = base_bounds attempt in
      let high = min (5 * second) (reconnect_base attempt * 6 / 5) in
      let room : reconnect_base attempt ≤ high = omega (arith, base) in
      let drawn = timely.drawn (reconnect_base attempt) high w room in omega (arith, base, drawn)

  delay_drawing :
      (attempt : ℕ) (retry_after : Option ℕ) (w : o.World)
      → o.now w ≤ o.now (sse_reconnect_delay o attempt retry_after w).1
  unfolding sse_reconnect_delay
  delay_drawing attempt retry_after w = timely.drawing _ _ w

  -- A pause that is begun before the deadline takes time.
  pub pause_passes :
      (t deadline attempt : ℕ) (retry_after : Option ℕ) (s : Site o.World)
      → t < deadline
      → t ≤ o.now s.world
      → t < o.now (pause o deadline attempt retry_after s).world
  unfolding pause
  pause_passes t deadline attempt retry_after s h passed =
      let drawn = sse_reconnect_delay o attempt retry_after s.world in
      let slept = timely.slept (min drawn.0 (deadline - o.now drawn.1)) drawn.1 in
      omega (
        arith,
        slept,
        delay_drawing attempt retry_after s.world,
        reconnect_delay_bounds attempt retry_after s.world,
        base_bounds attempt,
      )

  pub pause_keeps :
      (deadline attempt : ℕ) (retry_after : Option ℕ) (s : Site o.World)
      → ((pause o deadline attempt retry_after s).recorded ≡ s.recorded)
        × ((pause o deadline attempt retry_after s).streams ≡ s.streams)
  unfolding pause
  pause_keeps deadline attempt retry_after s = (refl, refl)

  pub open_passes : (s : Site o.World) → o.now s.world ≤ o.now (open_order_event_stream o s).1.world
  unfolding open_order_event_stream
  open_passes s = timely.connected s.world

  pub next_passes :
      (deadline : ℕ) (s : Site o.World)
      → o.now s.world ≤ o.now (next_order_event_before o deadline s).1.world
  unfolding next_order_event_before
  next_passes deadline s = elim (Bool-cases (ltb (o.now s.world) deadline)) [
    | inl e ↦ rw e (timely.heard _ s.world)
    | inr e ↦ rw e (omega arith)
  ]

  pub next_read :
      (deadline : ℕ) (s : Site o.World) (e : OrderEvent)
      → (next_order_event_before o deadline s).0 ≡ event e
      → o.now s.world < o.now (next_order_event_before o deadline s).1.world
  unfolding next_order_event_before
  next_read deadline s x h = elim (Bool-cases (ltb (o.now s.world) deadline)) [
    | inl e ↦ rw e (timely.read _ s.world x (rw e at h))
    | inr e ↦ absurd (cc (rw e at h))
  ]

  -- The deadline is not reported early.
  pub next_waited :
      (deadline : ℕ) (s : Site o.World)
      → (next_order_event_before o deadline s).0 ≡ deadline_reached
      → deadline ≤ o.now (next_order_event_before o deadline s).1.world
  unfolding next_order_event_before
  next_waited deadline s h = elim (Bool-cases (ltb (o.now s.world) deadline)) [
    | inl e ↦ let waited = timely.waited _ s.world (rw e at h) in rw e (omega (arith, waited))
    | inr e ↦ rw e (omega (arith, ltb_false→le _ _ e))
  ]

  -- Where the stream was not started, the deadline had passed.
  pub next_called :
      (deadline : ℕ) (s : Site o.World)
      → ((next_order_event_before o deadline s).0 ≡ deadline_reached)
        ⊎ (ltb (o.now s.world) deadline ≡ true)
  unfolding next_order_event_before
  next_called deadline s = elim (Bool-cases (ltb (o.now s.world) deadline)) [
    | inl e ↦ inr e
    | inr e ↦ rw e (inl refl)
  ]

  pub next_keeps :
      (deadline : ℕ) (s : Site o.World)
      → ((next_order_event_before o deadline s).1.recorded ≡ s.recorded)
        × ((next_order_event_before o deadline s).1.streams ≡ s.streams)
  unfolding next_order_event_before
  next_keeps deadline s = elim (Bool-cases (ltb (o.now s.world) deadline)) [
    | inl e ↦ rw e (refl, refl)
    | inr e ↦ rw e (refl, refl)
  ]

  answered_streams :
      (r : Response) (received : ℕ × ℕ) (n : ℕ)
      → (answered o r received (suc n)).1
        ≡ n + (if is_streaming (answered o r received (suc n)).0 then 1 else 0)
  answered_streams r received n = ground arith

  -- One stream more is open where there is one to read, and none where there is not.
  pub open_streams :
      (s : Site o.World)
      → (open_order_event_stream o s).1.streams
        ≡ s.streams + (if is_streaming (open_order_event_stream o s).0 then 1 else 0)
  unfolding open_order_event_stream
  open_streams s =
      let (r, w) = o.connect s.world in answered_streams r (o.now w, o.epoch w) s.streams

  pub open_recorded : (s : Site o.World) → (open_order_event_stream o s).1.recorded ≡ s.recorded
  unfolding open_order_event_stream
  open_recorded s = refl
