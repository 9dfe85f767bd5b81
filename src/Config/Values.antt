-- ===== src/Config/Values.antt =====
-- `_integer`, `_number`, `_boolean` and the URL checks. Python's conversions, its text methods and
-- `urlparse` are parameters. A rate or a time is a number of thousandths; NaN is not modelled.
use microservices_demo_nats.Prelude.{
  ℕ, ◌≤◌, String, Bool, true, false, ◌||◌, not, [], ◌∷◌, Option, none, some, arith, ltb, str_eq,
  elem, Result, ok, err, if◌then◌else◌, Bool-cases, inl, inr,
}

-- What `int(raw)` or `float(raw)` gives.
pub data Reading : Type 0 where
  negative : Reading
  at : ℕ → Reading

-- The parts of `urlparse`'s result that are looked at.
pub record Url : Type 0 where
  pub scheme : String
  pub netloc : String
  pub username : String
  pub password : String
  pub query : String
  pub fragment : String

pub record Python : Type 1 where
  pub Value : Type 0
  pub truthy : Value → Bool
  pub as_bool : Value → Option Bool  -- `isinstance(raw, bool)`
  pub as_text : Value → Option String  -- `isinstance(raw, str)`
  pub to_int : Value → Option Reading
  pub to_float : Value → Option Reading  -- in thousandths
  pub to_text : Value → String
  pub strip : String → String
  pub lower : String → String
  pub upper : String → String
  pub rstrip_slash : String → String
  pub urlparse : String → Url

pub data ConfigError : Type 0 where
  config_error : ConfigError

abbrev pub Checked : Type 0 → Type 0
Checked A = Result ConfigError A

-- Shut, so that proofs follow a `do` block step by step.
infixl 5 ◌>>=◌
unfoldable pub ◌>>=◌ : {A B : Type 0} → Checked A → (A → Checked B) → Checked B
ok a >>= f = f a
err e >>= f = err e

abbrev pub in_range : ℕ → ℕ → Option Reading → Checked ℕ
in_range minimum maximum none = err config_error
in_range minimum maximum (some negative) = err config_error
in_range minimum maximum (some (at n)) =
    if ltb n minimum || ltb maximum n then err config_error else ok n

abbrev pub InRange : ℕ → ℕ → Checked ℕ → Type 0
InRange minimum maximum (err e) = Unit
InRange minimum maximum (ok n) = (minimum ≤ n) × (n ≤ maximum)

in_range-InRange : (lo hi : ℕ) (o : Option Reading) → InRange lo hi (in_range lo hi o)
in_range-InRange lo hi none = tt
in_range-InRange lo hi (some negative) = tt
in_range-InRange lo hi (some (at n)) = elim (Bool-cases (ltb n lo || ltb hi n)) [
  | inl e ↦ rw e tt
  | inr e ↦ rw e (ground arith)
]

module _ (py : Python) where
  abbrev pub Values : Type 0
  Values = String → Option py.Value

  abbrev converted : (py.Value → Option Reading) → ℕ → ℕ → Option Bool → py.Value → Checked ℕ
  converted convert minimum maximum (some _) raw = err config_error
  converted convert minimum maximum none raw = in_range minimum maximum (convert raw)

  abbrev read : (py.Value → Option Reading) → ℕ → ℕ → ℕ → Option py.Value → Checked ℕ
  read convert default minimum maximum none = in_range minimum maximum (some (at default))
  read convert default minimum maximum (some raw) =
      converted convert minimum maximum (py.as_bool raw) raw

  -- `_integer(values, name, default, minimum, maximum)`
  unfoldable pub integer : Values → String → ℕ → ℕ → ℕ → Checked ℕ
  integer values name default minimum maximum = read py.to_int default minimum maximum (values name)

  unfoldable pub number : Values → String → ℕ → ℕ → ℕ → Checked ℕ
  number values name default minimum maximum =
      read py.to_float default minimum maximum (values name)

  abbrev boolean_text : Option String → Checked Bool
  boolean_text none = err config_error
  boolean_text (some raw) =
      let normalized = py.lower (py.strip raw) in
      if elem normalized ("1" ∷ "true" ∷ "yes" ∷ "on" ∷ [])
      then ok true
      else if elem normalized ("0" ∷ "false" ∷ "no" ∷ "off" ∷ [])
      then ok false
      else err config_error

  abbrev boolean_value : Option Bool → py.Value → Checked Bool
  boolean_value (some x) raw = ok x
  boolean_value none raw = boolean_text (py.as_text raw)

  abbrev boolean_of : Option py.Value → Bool → Checked Bool
  boolean_of none default = ok default
  boolean_of (some raw) default = boolean_value (py.as_bool raw) raw

  unfoldable pub boolean : Values → String → Bool → Checked Bool
  boolean values name default = boolean_of (values name) default

  abbrev unset : String → Bool
  unset s = str_eq s ""

  unfoldable pub normalize_http_url : String → Checked String
  normalize_http_url value =
      let candidate = py.strip value in
      let parsed = py.urlparse candidate in
      if unset candidate
      then err config_error
      else if not (elem parsed.scheme ("http" ∷ "https" ∷ [])) || unset parsed.netloc
      then err config_error
      else if not (unset parsed.username)
          || not (unset parsed.password)
          || not (unset parsed.query)
          || not (unset parsed.fragment)
      then err config_error
      else ok (py.rstrip_slash candidate)

  unfoldable pub normalize_target_url : String → Checked String
  normalize_target_url value =
      if str_eq (py.strip value) "local" then ok "http://frontend:80" else normalize_http_url value

  unfoldable pub normalize_metrics_url : String → Checked String
  normalize_metrics_url value =
      if str_eq (py.strip value) "local" then ok "local" else normalize_http_url value

  read-InRange :
      (convert : py.Value → Option Reading) (default lo hi : ℕ) (o : Option py.Value)
      → InRange lo hi (read convert default lo hi o)
  read-InRange convert default lo hi none = in_range-InRange lo hi (some (at default))
  read-InRange convert default lo hi (some raw) = go (py.as_bool raw)
    where
      go : (o : Option Bool) → InRange lo hi (converted convert lo hi o raw)
      go (some _) = tt
      go none = in_range-InRange lo hi (convert raw)

  pub integer-InRange :
      (values : Values) (name : String) (default lo hi : ℕ)
      → InRange lo hi (integer values name default lo hi)
  unfolding integer
  integer-InRange values name default lo hi = read-InRange py.to_int default lo hi (values name)

  pub number-InRange :
      (values : Values) (name : String) (default lo hi : ℕ)
      → InRange lo hi (number values name default lo hi)
  unfolding number
  number-InRange values name default lo hi = read-InRange py.to_float default lo hi (values name)
