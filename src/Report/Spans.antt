-- ===== src/Report/Spans.antt =====
-- The phases of a fault-tolerance run (src/benchmarkservice/reporting.py, `_fault_phase`). Times are
-- milliseconds.
use Prim.Native.String.{◌++◌ as then_text}
use microservices_demo_nats.Prelude.{
  ℕ, String, Bool, true, false, List, [], ◌∷◌, Option, none, some, ltb, leb, if◌then◌else◌,
}

pub record Span : Type 0 where
  pub service : String
  pub scale_down_started : ℕ
  pub scale_up_started : Option ℕ
  pub reenabled : Option ℕ

abbrev pub is_disabled_at : ℕ → Option ℕ → Bool
is_disabled_at elapsed none = true
is_disabled_at elapsed (some up) = if leb up elapsed then false else true

-- The phase after some spans, from the one that they left.
unfoldable pub phase_after : ℕ → String → List Span → String
phase_after elapsed phase [] = phase
phase_after elapsed phase (s ∷ spans) =
    let later = phase_after elapsed (then_text s.service "_recovery") spans in
    if ltb elapsed s.scale_down_started
    then phase
    else if is_disabled_at elapsed s.scale_up_started
    then then_text s.service "_disabled"
    else later

unfoldable pub fault_phase : ℕ → List Span → ℕ → String
fault_phase elapsed spans duration =
    if leb duration elapsed then "drain" else phase_after elapsed "baseline" spans
