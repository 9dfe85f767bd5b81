-- ===== src/Parallel/Records.antt =====
-- The records of a worker's files (src/benchmarkservice/parallel.py, `_read_records`,
-- `_write_records`, `_timestamp`).
use Prim.Native.Char.{code}
use microservices_demo_nats.Prelude.{
  ℕ, suc, String, ◌≡◌, refl, Bool, true, false, ◌&&◌, ◌||◌, List, [], ◌∷◌, map, Option, none, some,
  ltb, leb, ◌==◌, if◌then◌else◌, Result, ok, err,
}

-- The keys that the merge reads or writes; `fields` stands for the others. A time is counted in a
-- unit that is fine enough for every timestamp.
pub record Record : Type 0 where
  pub timestamp : Option ℕ
  pub event : Option String
  pub outstanding : Option ℕ
  pub fields : String

-- What `json.loads` makes of a line.
pub data Line : Type 0 where
  malformed : Line
  other : Line
  object : Record → Line

-- `json.loads` and `json.dumps`
pub record Json : Type 0 where
  pub loads : String → Line
  pub dumps : Record → String

pub data MergeError : Type 0 where
  malformed_record : MergeError
  malformed_status : MergeError
  no_workers : MergeError

-- `str.isspace` of one character
abbrev pub is_space : ℕ → Bool
is_space c =
    (leb 9 c && leb c 13)
    || (leb 28 c && leb c 32)
    || c == 133
    || c == 160
    || c == 5760
    || (leb 8192 c && leb c 8202)
    || c == 8232
    || c == 8233
    || c == 8239
    || c == 8287
    || c == 12288

-- `not line.strip()`
abbrev pub is_blank : String → Bool
is_blank String.[] = true
is_blank (String.◌∷◌ c s) = is_space (code c) && is_blank s

abbrev pub joined : Record → Result MergeError (List Record) → Result MergeError (List Record)
joined r (ok rs) = ok (r ∷ rs)
joined r (err e) = err e

-- What is read of a line that is not blank, where `rest` is what the later lines give.
abbrev pub read_value : ℕ → Line → Result MergeError (List Record) → Result MergeError (List Record)
read_value line_number malformed rest = if ltb 1 line_number then rest else err malformed_record
read_value line_number other rest = rest
read_value line_number (object r) rest = joined r rest

-- The lines of a file from the one with the given number on.
unfoldable pub records_from : Json → ℕ → List String → Result MergeError (List Record)
records_from json line_number [] = ok []
records_from json line_number (line ∷ lines) =
    let rest = records_from json (suc line_number) lines in
    if is_blank line then rest else read_value line_number (json.loads line) rest

-- A file that does not exist has no records.
unfoldable pub read_records : Json → Option (List String) → Result MergeError (List Record)
read_records json none = ok []
read_records json (some lines) = records_from json 1 lines

unfoldable pub write_records : Json → List Record → List String
write_records json = map json.dumps

abbrev pub timestamp_of : Record → ℕ
timestamp_of r = elim r.timestamp [ none ↦ 0 | some t ↦ t ]

-- A record that is printed is read back, and is not printed as a blank line.
pub record IsFaithful (json : Json) : Type 0 where
  pub reads : (r : Record) → json.loads (json.dumps r) ≡ object r
  pub printed : (r : Record) → is_blank (json.dumps r) ≡ false

module _ (json : Json) (faithful : IsFaithful json) where
  records_from-write_records :
      (n : ℕ) (rs : List Record) → records_from json n (write_records json rs) ≡ ok rs
  unfolding records_from write_records
  records_from-write_records n [] = refl
  records_from-write_records n (r ∷ rs) =
      rw (faithful.printed r)
        (rw (faithful.reads r) (rw (map_lem, records_from-write_records (suc n) rs) refl))
    where
      map_lem : map json.dumps rs ≡ write_records json rs
      map_lem = refl

  -- Where records are printed as lines that are not blank and that are read back as the same records,
  -- a file of records that was written is read back in full and in order.
  pub read_records-write_records :
      (rs : List Record) → read_records json (some (write_records json rs)) ≡ ok rs
  unfolding read_records
  read_records-write_records rs = records_from-write_records 1 rs
