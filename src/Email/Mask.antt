-- ===== src/Email/Mask.antt =====
-- What a masked recipient gives away.
use Prim.Native.Char.{Char, code}
use microservices_demo_nats.Prelude.{
  ℕ, String, ◌≡◌, refl, sym, ap, ◌∙◌, Bool, true, false, any, some, arith, codes, ◌==◌,
}
use microservices_demo_nats.Email.Outcome.{partition_at, mask_recipient, masked}

abbrev pub is_at : ℕ → Bool
is_at c = c == b'@'

-- A local part, the sign between and a domain.
abbrev pub address : String → Char → String → String
address String.[] at domain = String.◌∷◌ at domain
address (String.◌∷◌ c s) at domain = String.◌∷◌ c (address s at domain)

partition_at-address :
    (before : String) (at : Char) (domain : String)
    → is_at (code at) ≡ true
    → any is_at (codes before) ≡ false
    → partition_at (address before at domain) ≡ some (before, domain)
unfolding partition_at
partition_at-address String.[] at domain h none_before = rw h refl
partition_at-address (String.◌∷◌ c s) at domain h none_before =
    let here : is_at (code c) ≡ false = ground (arith, none_before) in
    let later : any is_at (codes s) ≡ false = ground (arith, none_before) in
    rw here (rw (partition_at-address s at domain h later) refl)

-- The mask of an address shows no more than the first character of its local part and its domain:
-- two addresses that agree in these, with local parts without the sign `@`, have the same mask.
pub mask_recipient_hides :
    (c at : Char) (one other domain : String)
    → is_at (code at) ≡ true
    → any is_at (codes (String.◌∷◌ c one)) ≡ false
    → any is_at (codes (String.◌∷◌ c other)) ≡ false
    → mask_recipient (address (String.◌∷◌ c one) at domain)
      ≡ mask_recipient (address (String.◌∷◌ c other) at domain)
unfolding mask_recipient
mask_recipient_hides c at one other domain h l r =
    ap masked (partition_at-address (String.◌∷◌ c one) at domain h l)
    ∙ sym (ap masked (partition_at-address (String.◌∷◌ c other) at domain h r))
