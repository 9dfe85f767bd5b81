-- ===== src/Sse/Frames.antt =====
-- Events written as frames of lines and read back.
use microservices_demo_nats.Prelude.{
  String, ◌≡◌, refl, sym, ap, ◌∙◌, false, List, [], ◌∷◌, ◌++◌, map, some, arith, any,
}
use microservices_demo_nats.Sse.Events.{
  ServerSentEvent, ParserState, reset, dispatched, split_field, join_lines, has_nul, read_line,
  read_lines,
}

-- The line of a field, with a space after the colon.
abbrev pub event_line : String → String
event_line v = String.◌∷◌ "e" (
    String.◌∷◌ "v"
      (String.◌∷◌ "e" (String.◌∷◌ "n" (String.◌∷◌ "t" (String.◌∷◌ ":" (String.◌∷◌ " " v))))))

abbrev pub data_line : String → String
data_line v =
    String.◌∷◌ "d"
      (String.◌∷◌ "a" (String.◌∷◌ "t" (String.◌∷◌ "a" (String.◌∷◌ ":" (String.◌∷◌ " " v)))))

abbrev pub id_line : String → String
id_line v = String.◌∷◌ "i" (String.◌∷◌ "d" (String.◌∷◌ ":" (String.◌∷◌ " " v)))

-- An event with an ID, as the lines of its frame.
abbrev pub frame : String → String → List String → List String
frame kind id ds = event_line kind ∷ id_line id ∷ map data_line ds ++ "" ∷ []

read-event_line :
    (v : String) (s : ParserState) → read_line (event_line v) s ≡ ([], record s { event_type = v })
unfolding read_line split_field
read-event_line v s = refl

read-id_line :
    (v : String) (s : ParserState)
    → has_nul v ≡ false
    → read_line (id_line v) s ≡ ([], record s { last_event_id = some v })
unfolding read_line split_field
read-id_line v s h = rw h refl

read-data_line :
    (v : String) (s : ParserState)
    → read_line (data_line v) s ≡ ([], record s { data_lines = s.data_lines ++ v ∷ [] })
unfolding read_line split_field
read-data_line v s = refl

append_nil : {A : Type 0} (xs : List A) → xs ++ [] ≡ xs
append_nil [] = refl
append_nil (x ∷ xs) = ap (λ ys. x ∷ ys) (append_nil xs)

append_snoc :
    {A : Type 0} (xs : List A) (y : A) (ys : List A) → (xs ++ y ∷ []) ++ ys ≡ xs ++ (y ∷ ys)
append_snoc [] y ys = refl
append_snoc (x ∷ xs) y ys = ap (λ zs. x ∷ zs) (append_snoc xs y ys)

abbrev with_data : List String → ParserState → ParserState
with_data ds s = record s { data_lines = ds }

-- What a blank line after some data lines yields, and the rest of the lines after that.
abbrev closed : List String → List String → ParserState → List ServerSentEvent × ParserState
closed ds rest s =
    let after = read_lines rest (reset s) in (dispatched (with_data ds s) ++ after.0, after.1)

read-data_lines :
    (ds rest : List String) (s : ParserState)
    → read_lines (map data_line ds ++ ("" ∷ rest)) s ≡ closed (s.data_lines ++ ds) rest s
unfolding read_lines read_line split_field
read-data_lines [] rest s = ap (λ ds. closed ds rest s) (sym (append_nil s.data_lines))
read-data_lines (d ∷ ds) rest s =
    read-data_lines ds rest (with_data (s.data_lines ++ d ∷ []) s)
    ∙ ap (λ xs. closed xs rest s) (append_snoc s.data_lines d ds)

-- An event to write: its type, its ID, and its lines of data, of which there is at least one.
pub record Draft : Type 0 where
  pub kind : String
  pub id : String
  pub first : String
  pub more : List String

abbrev pub frames : List Draft → List String
frames [] = []
frames (e ∷ es) =
    event_line e.kind ∷ id_line e.id ∷ (map data_line (e.first ∷ e.more) ++ ("" ∷ frames es))

abbrev pub event_of : Draft → ServerSentEvent
event_of e = record {
  event = e.kind;
  content = join_lines (e.first ∷ e.more);
  event_id = some e.id;
}

-- Written events are read back as they were, in their order, by a parser in any state in which no
-- data is pending, as long as no ID has a NUL character.
pub read_lines-frames :
    (es : List Draft) (s : ParserState)
    → s.data_lines ≡ []
    → any (λ e. has_nul e.id) es ≡ false
    → (read_lines (frames es) s).0 ≡ map event_of es
unfolding read_lines read_line split_field
read_lines-frames [] s pending plain = refl
read_lines-frames (e ∷ es) s pending plain =
    let here : has_nul e.id ≡ false = ground (arith, plain) in
    let later : any (λ x. has_nul x.id) es ≡ false = ground (arith, plain) in
    let t : ParserState = record s { event_type = e.kind; last_event_id = some e.id } in
    rw here (
      ap (λ (p : List ServerSentEvent × ParserState). p.0)
        (read-data_lines (e.first ∷ e.more) (frames es) t)
      ∙ rw pending (ap (λ xs. event_of e ∷ xs) (read_lines-frames es (reset t) refl later)))
