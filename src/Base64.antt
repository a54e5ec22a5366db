-- ===== src/Base64.antt =====
-- `Buffer.from(bytes).toString("base64")` and `Buffer.from(s, "base64")` of the runtime, which
-- packages/daemon/src/forwarder.ts and packages/pwa/src/app/api/internal/on-audio/route.ts call.
pub mod RoundTrip
use zapi_pwa.Base.{
  ℕ, ◌+◌, ◌-◌, ◌*◌, ◌/◌, ◌%◌, List, [], ◌∷◌, if◌then◌else◌, ltb, leb, ◌==◌, ◌&&◌, ◌||◌, Text,
  Option, none, some,
}

abbrev pub digit : ℕ → ℕ
digit n =
    if ltb n 26
    then 65 + n
    else if ltb n 52
    then 71 + n
    else if ltb n 62
    then n - 4
    else if n == 62
    then 43
    else 47

unfoldable pub to_base64 : List ℕ → Text
to_base64 [] = []
to_base64 (a ∷ []) = digit (a / 4) ∷ digit (a % 4 * 16) ∷ 61 ∷ 61 ∷ []
to_base64 (a ∷ b ∷ []) = digit (a / 4) ∷ digit (a % 4 * 16 + b / 16) ∷ digit (b % 16 * 4) ∷ 61 ∷ []
to_base64 (a ∷ b ∷ c ∷ rest) =
    digit (a / 4)
    ∷ digit (a % 4 * 16 + b / 16)
    ∷ digit (b % 16 * 4 + c / 64)
    ∷ digit (c % 64)
    ∷ to_base64 rest

-- Decoding passes over units outside the alphabet, and ends at `=`.
-- The value of a unit of the alphabet (`-` and `_` stand for `+` and `/`).
unfoldable pub value_of : ℕ → Option ℕ
value_of c =
    if leb 65 c && leb c 90
    then some (c - 65)
    else if leb 97 c && leb c 122
    then some (c - 71)
    else if leb 48 c && leb c 57
    then some (c + 4)
    else if c == 43 || c == 45
    then some 62
    else if c == 47 || c == 95
    then some 63
    else none

abbrev pub add_digit : Option ℕ → List ℕ → List ℕ
add_digit none ds = ds
add_digit (some d) ds = d ∷ ds

unfoldable pub digits_of : Text → List ℕ
digits_of [] = []
digits_of (c ∷ s) = let rest = digits_of s in if c == 61 then [] else add_digit (value_of c) rest

unfoldable pub bytes_of : List ℕ → List ℕ
bytes_of [] = []
bytes_of (a ∷ []) = []
bytes_of (a ∷ b ∷ []) = (a * 4 + b / 16) ∷ []
bytes_of (a ∷ b ∷ c ∷ []) = (a * 4 + b / 16) ∷ (b % 16 * 16 + c / 4) ∷ []
bytes_of (a ∷ b ∷ c ∷ d ∷ ds) =
    (a * 4 + b / 16) ∷ (b % 16 * 16 + c / 4) ∷ (c % 4 * 64 + d) ∷ bytes_of ds

unfoldable pub from_base64 : Text → List ℕ
unfolding digits_of bytes_of
from_base64 s = bytes_of (digits_of s)
