-- ===== src/Base64/RoundTrip.antt =====
-- Decoding undoes encoding.
use zapi_pwa.Base.{
  ℕ, ◌+◌, ◌*◌, ◌/◌, ◌%◌, ◌<◌, ◌≡◌, refl, ap, ap₂, ◌∙◌, false, some, List, [], ◌∷◌, ◌==◌, Text, All,
  arith,
}
use zapi_pwa.Base64.{digit, value_of, digits_of, bytes_of, to_base64, from_base64}

value-digit : (n : ℕ) → n < 64 → value_of (digit n) ≡ some n
unfolding value_of
value-digit n h = ground arith

digit-end : (n : ℕ) → n < 64 → (digit n == 61) ≡ false
digit-end n h = ground arith

digits-digit : (n : ℕ) (s : Text) → n < 64 → digits_of (digit n ∷ s) ≡ n ∷ digits_of s
unfolding digits_of
digits-digit n s h = rw (digit-end n h, value-digit n h) refl

-- The decoded digits in front of others.
quadruple :
    (a b c d : ℕ) (s : Text)
    → a < 64
    → b < 64
    → c < 64
    → d < 64
    → from_base64 (digit a ∷ digit b ∷ digit c ∷ digit d ∷ s)
      ≡ (a * 4 + b / 16) ∷ (b % 16 * 16 + c / 4) ∷ (c % 4 * 64 + d) ∷ from_base64 s
unfolding from_base64 bytes_of
quadruple a b c d s ha hb hc hd =
    rw
      (
        digits-digit a (digit b ∷ digit c ∷ digit d ∷ s) ha,
        digits-digit b (digit c ∷ digit d ∷ s) hb,
        digits-digit c (digit d ∷ s) hc,
        digits-digit d s hd,
      )
      refl

triple :
    (a b c : ℕ)
    → a < 64
    → b < 64
    → c < 64
    → from_base64 (digit a ∷ digit b ∷ digit c ∷ 61 ∷ [])
      ≡ (a * 4 + b / 16) ∷ (b % 16 * 16 + c / 4) ∷ []
unfolding from_base64 bytes_of digits_of
triple a b c ha hb hc =
    rw
      (
        digits-digit a (digit b ∷ digit c ∷ 61 ∷ []) ha,
        digits-digit b (digit c ∷ 61 ∷ []) hb,
        digits-digit c (61 ∷ []) hc,
      )
      refl

double :
    (a b : ℕ)
    → a < 64
    → b < 64
    → from_base64 (digit a ∷ digit b ∷ 61 ∷ 61 ∷ []) ≡ (a * 4 + b / 16) ∷ []
unfolding from_base64 bytes_of digits_of
double a b ha hb =
    rw (digits-digit a (digit b ∷ 61 ∷ 61 ∷ []) ha, digits-digit b (61 ∷ 61 ∷ []) hb) refl

abbrev pub IsByte : ℕ → Type 0
IsByte n = n < 256

nothing : from_base64 [] ≡ []
unfolding from_base64 digits_of bytes_of
nothing = refl

-- Decoding the base64 text of bytes gives the bytes back.
pub from_base64-to_base64 :
    (bytes : List ℕ) → All IsByte bytes → from_base64 (to_base64 bytes) ≡ bytes
unfolding to_base64
from_base64-to_base64 [] h = nothing
from_base64-to_base64 (a ∷ []) (ha, _) =
    let p : a / 4 * 4 + a % 4 * 16 / 16 ≡ a = omega arith in
    double (a / 4) (a % 4 * 16) (omega arith) (omega arith) ∙ ap (λ x. x ∷ []) p
from_base64-to_base64 (a ∷ b ∷ []) (ha, (hb, _)) =
    let p : a / 4 * 4 + (a % 4 * 16 + b / 16) / 16 ≡ a = omega arith in
    let q : (a % 4 * 16 + b / 16) % 16 * 16 + b % 16 * 4 / 4 ≡ b = omega arith in
    triple (a / 4) (a % 4 * 16 + b / 16) (b % 16 * 4) (omega arith) (omega arith) (omega arith)
    ∙ ap₂ (λ x y. x ∷ y ∷ []) p q
from_base64-to_base64 (a ∷ b ∷ c ∷ rest) (ha, (hb, (hc, h))) =
    let p : a / 4 * 4 + (a % 4 * 16 + b / 16) / 16 ≡ a = omega arith in
    let q : (a % 4 * 16 + b / 16) % 16 * 16 + (b % 16 * 4 + c / 64) / 4 ≡ b = omega arith in
    let r : (b % 16 * 4 + c / 64) % 4 * 64 + c % 64 ≡ c = omega arith in
    quadruple (a / 4) (a % 4 * 16 + b / 16) (b % 16 * 4 + c / 64) (c % 64) (to_base64 rest)
      (omega arith) (omega arith) (omega arith) (omega arith)
    ∙ rw (p, q, r) (ap (λ l. a ∷ b ∷ c ∷ l) (from_base64-to_base64 rest h))
