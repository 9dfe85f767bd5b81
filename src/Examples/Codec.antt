-- ===== src/Examples/Codec.antt =====
-- A concrete printer and reader of the records of a worker's files: numbers are printed in unary.
use Prim.Native.Char.{Char, code}
use microservices_demo_nats.Prelude.{
  ℕ, zero, suc, String, ◌≡◌, refl, Option, none, some, ◌==◌, if◌then◌else◌,
}
use microservices_demo_nats.Parallel.Records.{Record, Json, Line, object, IsFaithful}

unfoldable show_number : ℕ → String → String
show_number zero s = String.◌∷◌ "." s
show_number (suc n) s = String.◌∷◌ "x" (show_number n s)

unfoldable read_number : String → ℕ × String
read_number String.[] = (0, "")
read_number (String.◌∷◌ c s) =
    let rest = read_number s in if code c == b'x' then (suc rest.0, rest.1) else (0, s)

read-show_number : (n : ℕ) (s : String) → read_number (show_number n s) ≡ (n, s)
unfolding show_number read_number
read-show_number zero s = refl
read-show_number (suc n) s = rw (read-show_number n s) refl

unfoldable show_text : String → String → String
show_text String.[] s = String.◌∷◌ "." s
show_text (String.◌∷◌ c t) s = String.◌∷◌ "c" (String.◌∷◌ c (show_text t s))

abbrev then_char : Char → String × String → String × String
then_char c (t, s) = (String.◌∷◌ c t, s)

unfoldable read_text : String → String × String
read_text String.[] = ("", "")
read_text (String.◌∷◌ c String.[]) = ("", "")
read_text (String.◌∷◌ c (String.◌∷◌ d s)) =
    let rest = read_text s in if code c == b'c' then then_char d rest else ("", String.◌∷◌ d s)

read-show_text : (t s : String) → read_text (show_text t s) ≡ (t, s)
unfolding show_text read_text
read-show_text String.[] String.[] = refl
read-show_text String.[] (String.◌∷◌ d s) = refl
read-show_text (String.◌∷◌ c t) s = rw (read-show_text t s) refl

abbrev show_some : {A : Type 0} → (A → String → String) → Option A → String → String
show_some show none s = String.◌∷◌ "." s
show_some show (some a) s = String.◌∷◌ "s" (show a s)

abbrev as_some : {A : Type 0} → A × String → Option A × String
as_some (a, s) = (some a, s)

unfoldable read_some : {A : Type 0} → (String → A × String) → String → Option A × String
read_some read String.[] = (none, "")
read_some read (String.◌∷◌ c s) = if code c == b's' then as_some (read s) else (none, s)

module _ {A : Type 0} (show : A → String → String) (read : String → A × String)
    (back : (a : A) (s : String) → read (show a s) ≡ (a, s)) where
  read-show_some : (o : Option A) (s : String) → read_some read (show_some show o s) ≡ (o, s)
  unfolding read_some
  read-show_some none s = refl
  read-show_some (some a) s = rw (back a s) refl

pub show_record : Record → String
show_record r = String.◌∷◌ "r" (
    show_some show_number r.timestamp
      (show_some show_text r.event (show_some show_number r.outstanding (show_text r.fields ""))))

abbrev read_fields : Option ℕ → Option String → Option ℕ × String → Record
read_fields timestamp event (outstanding, s) = record {
  timestamp = timestamp;
  event = event;
  outstanding = outstanding;
  fields = (read_text s).0;
}

abbrev read_event : Option ℕ → Option String × String → Record
read_event timestamp (event, s) = read_fields timestamp event (read_some read_number s)

abbrev read_time : Option ℕ × String → Record
read_time (timestamp, s) = read_event timestamp (read_some read_text s)

pub read_record : String → Line
read_record String.[] = Line.other
read_record (String.◌∷◌ c s) = object (read_time (read_some read_number s))

read-show_record : (r : Record) → read_record (show_record r) ≡ object r
unfolding show_record read_record
read-show_record r = rw (read-show_some show_number read_number read-show_number r.timestamp _) (
    rw (read-show_some show_text read_text read-show_text r.event _) (
      rw (read-show_some show_number read_number read-show_number r.outstanding _)
        (rw (read-show_text r.fields _) refl)))

abbrev pub codec : Json
codec = record { loads = read_record; dumps = show_record }

pub codec-IsFaithful : IsFaithful codec
unfolding show_record
codec-IsFaithful = record { reads = read-show_record; printed = λ r. refl }
