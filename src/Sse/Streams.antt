-- ===== src/Sse/Streams.antt =====
-- The events of a whole stream of raw lines.
use microservices_demo_nats.Prelude.{
  String, ◌≡◌, refl, ap, true, false, List, [], ◌∷◌, map, some, any,
}
use microservices_demo_nats.Sse.Events.{
  ParserState, Lines, initial, has_nul, read_line, read_lines, iter_from, iter_sse_events,
}
use microservices_demo_nats.Sse.Frames.{Draft, frames, event_of, event_line, read_lines-frames}

module _ (l : Lines) where
  -- Raw lines that decode to the given lines, once their ends are stripped.
  pub data Carries : List l.Raw → List String → Type 0 where
    ended : Carries [] []
    carried :
        (raw : l.Raw) (raws : List l.Raw) (line text : String) (lines : List String)
        → l.decode raw ≡ some text
        → l.rstrip text ≡ line
        → Carries raws lines
        → Carries (raw ∷ raws) (line ∷ lines)

  abbrev Unmarked : List String → Type 0
  Unmarked [] = Unit
  Unmarked (line ∷ lines) = l.remove_mark line ≡ line

  first-Unmarked :
      (es : List Draft)
      → ((v : String) → l.remove_mark (event_line v) ≡ event_line v)
      → Unmarked (frames es)
  first-Unmarked [] h = tt
  first-Unmarked (e ∷ es) h = h e.kind

  iter_from-lines :
      (raws : List l.Raw) (lines : List String) (s : ParserState)
      → Carries raws lines
      → iter_from l false raws s ≡ ((read_lines lines s).0, true)
  unfolding iter_from read_lines
  iter_from-lines _ _ s ended = refl
  iter_from-lines _ _ s (carried raw raws line text lines d r h) =
      rw (iter_from, d) (rw r (rw (iter_from-lines raws lines (read_line line s).1 h) refl))

  iter_first-lines :
      (raws : List l.Raw) (lines : List String) (s : ParserState)
      → Carries raws lines
      → Unmarked lines
      → iter_from l true raws s ≡ ((read_lines lines s).0, true)
  unfolding iter_from read_lines
  iter_first-lines _ _ s ended u = refl
  iter_first-lines _ _ s (carried raw raws line text lines d r h) u =
      rw (iter_from, d) (rw r (rw u (rw (iter_from-lines raws lines (read_line line s).1 h) refl)))

  -- A stream of written events yields them as they were, in their order, and ends without an error:
  -- where each raw line decodes to a line of their frames, no ID has a NUL character, and a line that
  -- starts with the name of a field has no byte order mark to remove.
  pub iter_sse_events-frames :
      (es : List Draft) (raws : List l.Raw)
      → Carries raws (frames es)
      → ((v : String) → l.remove_mark (event_line v) ≡ event_line v)
      → any (λ e. has_nul e.id) es ≡ false
      → iter_sse_events l raws ≡ (map event_of es, true)
  unfolding iter_sse_events
  iter_sse_events-frames es raws c unmarked plain =
      rw (iter_first-lines raws (frames es) initial c (first-Unmarked es unmarked))
        (ap (λ xs. (xs, true)) (read_lines-frames es initial refl plain))
