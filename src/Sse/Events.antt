-- ===== src/Sse/Events.antt =====
-- `iter_sse_events`: the lines of a stream, and the events that they dispatch.
use Prim.Native.String.{◌++◌ as then_text}
use Prim.Native.Char.{code}
use microservices_demo_nats.Prelude.{
  String, Bool, true, false, not, ◌&&◌, List, [], ◌∷◌, ◌++◌, Option, none, some, ◌==◌, any, codes,
  str_eq, if◌then◌else◌,
}

pub record ServerSentEvent : Type 0 where
  pub event : String
  pub content : String
  pub event_id : Option String

-- `event_type`, `data` and `last_event_id`
pub record ParserState : Type 0 where
  pub event_type : String
  pub data_lines : List String
  pub last_event_id : Option String

abbrev pub initial : ParserState
initial = record { event_type = "message"; data_lines = []; last_event_id = none }

-- `line.partition(":")`: the value is `none` where there is no colon.
unfoldable pub split_field : String → String × Option String
split_field String.[] = (String.[], none)
split_field (String.◌∷◌ c s) =
    let rest = split_field s in
    if code c == b':' then (String.[], some s) else (String.◌∷◌ c rest.0, rest.1)

abbrev pub is_empty : String → Bool
is_empty String.[] = true
is_empty (String.◌∷◌ c s) = false

abbrev pub is_comment : String → Bool
is_comment String.[] = false
is_comment (String.◌∷◌ c s) = code c == b':'

-- One space after the colon is no part of the value.
abbrev pub without_space : String → String
without_space String.[] = String.[]
without_space (String.◌∷◌ c s) = if code c == b' ' then s else String.◌∷◌ c s

abbrev pub value_of : Option String → String
value_of none = ""
value_of (some v) = without_space v

-- `"\n".join(data)`
unfoldable pub join_lines : List String → String
join_lines [] = ""
join_lines (d ∷ []) = d
join_lines (d ∷ e ∷ ds) = then_text d (then_text "\n" (join_lines (e ∷ ds)))

abbrev pub has_nul : String → Bool
has_nul v = any (λ c. c == 0) (codes v)

abbrev pub with_field : String → String → ParserState → ParserState
with_field field value s =
    if str_eq field "event"
    then record s { event_type = value }
    else if str_eq field "data"
    then record s { data_lines = s.data_lines ++ value ∷ [] }
    else if str_eq field "id" && not (has_nul value)
    then record s { last_event_id = some value }
    else s

abbrev pub dispatched : ParserState → List ServerSentEvent
dispatched s = elim s.data_lines [
  | [] ↦ []
  | d ∷ ds ↦
      record { event = s.event_type; content = join_lines (d ∷ ds); event_id = s.last_event_id }
      ∷ []
]

abbrev pub reset : ParserState → ParserState
reset s = record s { event_type = "message"; data_lines = [] }

-- The loop's body, after the line was decoded and its end was stripped.
unfoldable pub read_line : String → ParserState → List ServerSentEvent × ParserState
read_line line s =
    if is_empty line
    then (dispatched s, reset s)
    else if is_comment line
    then ([], s)
    else ([], with_field (split_field line).0 (value_of (split_field line).1) s)

unfoldable pub read_lines : List String → ParserState → List ServerSentEvent × ParserState
read_lines [] s = ([], s)
read_lines (line ∷ lines) s =
    let rest = read_lines lines (read_line line s).1 in ((read_line line s).0 ++ rest.0, rest.1)

-- What `decode("utf-8")`, `rstrip` and `removeprefix` do to a raw line.
pub record Lines : Type 1 where
  pub Raw : Type 0
  pub decode : Raw → Option String
  pub rstrip : String → String
  pub remove_mark : String → String

module _ (l : Lines) where
  abbrev cleaned : Bool → String → String
  cleaned first line = if first then l.remove_mark (l.rstrip line) else l.rstrip line

  -- The events yielded before the end of the stream, or before a line that is not UTF-8 (`false`).
  unfoldable pub iter_from : Bool → List l.Raw → ParserState → List ServerSentEvent × Bool
  iter_from first [] s = ([], true)
  iter_from first (raw ∷ raws) s = elim (l.decode raw) [
    | none ↦ ([], false)
    | some line ↦
        let rest = iter_from false raws (read_line (cleaned first line) s).1 in
        ((read_line (cleaned first line) s).0 ++ rest.0, rest.1)
  ]

  unfoldable pub iter_sse_events : List l.Raw → List ServerSentEvent × Bool
  iter_sse_events raws = iter_from true raws initial
