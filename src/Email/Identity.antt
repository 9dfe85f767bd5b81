-- ===== src/Email/Identity.antt =====
-- `_result_message_id`: the framing of the two texts that a result's message ID is hashed from.
use Prim.Native.String.{◌++◌ as then_text}
use microservices_demo_nats.Prelude.{
  ℕ, ◌/◌, ◌%◌, ◌^◌, ◌<◌, String, ◌≡◌, refl, ◌||◌, List, [], ◌∷◌, ◌++◌, Option, none, some, arith,
  leb, str_eq, codes, length, if◌then◌else◌,
}
use microservices_demo_nats.Email.Outcome.{Mailer}

-- `struct.pack(">I", n)` for an n below 2^32
unfoldable pub pack32 : ℕ → List ℕ
pack32 n = n / 2 ^ 24 % 256 ∷ n / 2 ^ 16 % 256 ∷ n / 2 ^ 8 % 256 ∷ n % 256 ∷ []

abbrev result_prefix : List ℕ
result_prefix = codes "boutique.result.v1" ++ 0 ∷ []

unfoldable pub framed : List ℕ → List ℕ → List ℕ
framed input slot =
    result_prefix ++ (pack32 (length input) ++ (input ++ (pack32 (length slot) ++ slot)))

unfoldable pub result_message_id : Mailer → String → String → Option String
result_message_id m input_message_id slot =
    let input_bytes = m.encode input_message_id in
    let slot_bytes = m.encode slot in
    if str_eq input_message_id ""
      || leb (2 ^ 32) (length input_bytes)
      || leb (2 ^ 32) (length slot_bytes)
    then none
    else some (then_text "br1_" (m.digest_text (framed input_bytes slot_bytes)))

append-cancel :
    (xs ys us vs : List ℕ) → length xs ≡ length ys → xs ++ us ≡ ys ++ vs → (xs ≡ ys) × (us ≡ vs)
append-cancel [] [] us vs l h = (refl, h)
append-cancel [] (y ∷ ys) us vs l h = ground (arith, l)
append-cancel (x ∷ xs) [] us vs l h = ground (arith, l)
append-cancel (x ∷ xs) (y ∷ ys) us vs l h =
    let heads : x ≡ y = cc in
    let tails : xs ++ us ≡ ys ++ vs = cc in
    let (p, q) = append-cancel xs ys us vs (omega (arith, l)) tails in
    let whole : ◌≡◌ {A = List ℕ} (x ∷ xs) (y ∷ ys) = cc in (whole, q)

pack32-injective :
    (m n : ℕ) (us vs : List ℕ)
    → m < 2 ^ 32
    → n < 2 ^ 32
    → pack32 m ++ us ≡ pack32 n ++ vs
    → (m ≡ n) × (us ≡ vs)
unfolding pack32
pack32-injective m n us vs hm hn h =
    let a : m / 2 ^ 24 % 256 ≡ n / 2 ^ 24 % 256 = cc in
    let b : m / 2 ^ 16 % 256 ≡ n / 2 ^ 16 % 256 = cc in
    let c : m / 2 ^ 8 % 256 ≡ n / 2 ^ 8 % 256 = cc in
    let d : m % 256 ≡ n % 256 = cc in let e : us ≡ vs = cc in (omega (arith, a, b, c, d, hm, hn), e)

-- The bytes hashed for a result tell its two texts apart: two pairs of texts of less than 2^32
-- bytes each that are framed alike are the same pair.
pub framed-injective :
    (a b x y : List ℕ)
    → length a < 2 ^ 32
    → length x < 2 ^ 32
    → length b < 2 ^ 32
    → length y < 2 ^ 32
    → framed a b ≡ framed x y
    → (a ≡ x) × (b ≡ y)
unfolding framed
framed-injective a b x y ha hx hb hy h =
    let tail : List ℕ → List ℕ → List ℕ = λ u v. u ++ (pack32 (length v) ++ v) in
    let (p, q) =
      append-cancel result_prefix result_prefix (pack32 (length a) ++ tail a b)
        (pack32 (length x) ++ tail x y) refl h in
    let (l, r) = pack32-injective (length a) (length x) (tail a b) (tail x y) ha hx q in
    let (s, t) = append-cancel a x (pack32 (length b) ++ b) (pack32 (length y) ++ y) l r in
    let (u, v) = pack32-injective (length b) (length y) b y hb hy t in (s, v)
