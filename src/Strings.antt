-- ===== src/Strings.antt =====
-- The string methods that the program calls, over UTF-16 code units.
pub mod Laws
use zapi_pwa.Base.{
  ℕ, zero, suc, ◌+◌, ◌-◌, ◌≡◌, refl, Bool, true, false, not, ◌&&◌, ◌||◌, Option, none, some, List,
  [], ◌∷◌, ◌++◌, map, ltb, leb, ◌==◌, if◌then◌else◌, Text, text, text_eq, take, drop, length, all,
}

-- `s.includes(c)` for a single unit
unfoldable pub has : ℕ → Text → Bool
has c [] = false
has c (d ∷ s) = d == c || has c s

-- `s.split(c)[0]`
unfoldable pub before : ℕ → Text → Text
before c [] = []
before c (d ∷ s) = if d == c then [] else d ∷ before c s

-- What follows the first `c`; `none` when there is none.
unfoldable pub after? : ℕ → Text → Option Text
after? c [] = none
after? c (d ∷ s) = if d == c then some s else after? c s

-- `s.split(c)[1]`; `undefined` when there is no `c`.
unfoldable pub second : ℕ → Text → Option Text
unfolding after? before
second c s = elim (after? c s) [ none ↦ none | some r ↦ some (before c r) ]

-- `s.slice(0, i)` and `s.slice(i + 1)` for `i = s.lastIndexOf(c)`; `none` where that is -1.
unfoldable pub split_last : ℕ → Text → Option (Text × Text)
unfolding has
split_last c [] = none
split_last c (d ∷ s) = elim (split_last c s) [
  | some (u, v) ↦ some (d ∷ u, v)
  | none ↦ if d == c then some ([], s) else none
]

-- `s.startsWith(p)`
unfoldable pub starts_with : Text → Text → Bool
starts_with s [] = true
starts_with [] (c ∷ p) = false
starts_with (d ∷ s) (c ∷ p) = d == c && starts_with s p

-- `s.includes(p)`
unfoldable pub includes : Text → Text → Bool
unfolding starts_with
includes [] p = starts_with [] p
includes (d ∷ s) p = starts_with (d ∷ s) p || includes s p

-- `s.endsWith(p)`
unfoldable pub ends_with : Text → Text → Bool
ends_with [] p = text_eq [] p
ends_with (d ∷ s) p = text_eq (d ∷ s) p || ends_with s p

-- `toLowerCase` on the ASCII letters.
abbrev pub lower_unit : ℕ → ℕ
lower_unit c = if leb b'A' c && leb c b'Z' then c + 32 else c

abbrev pub lower : Text → Text
lower = map lower_unit

-- The units that `\s` matches.
abbrev pub is_space : ℕ → Bool
is_space c =
    (leb 9 c && leb c 13)
    || c == 32
    || c == 160
    || c == 5760
    || (leb 8192 c && leb c 8202)
    || c == 8232
    || c == 8233
    || c == 8239
    || c == 8287
    || c == 12288
    || c == 65279

-- `s.replace(/\s+$/, "")`
unfoldable pub trim_end : Text → Text
trim_end [] = []
trim_end (c ∷ s) = elim (trim_end s) [ [] ↦ if is_space c then [] else c ∷ [] | d ∷ t ↦ c ∷ d ∷ t ]

-- `s.trimStart()`
unfoldable pub trim_start : Text → Text
trim_start [] = []
trim_start (c ∷ s) = if is_space c then trim_start s else c ∷ s

-- `s.trim()`
unfoldable pub trim : Text → Text
unfolding trim_start trim_end
trim s = trim_end (trim_start s)

-- `\d`
abbrev pub is_digit : ℕ → Bool
is_digit c = leb b'0' c && leb c b'9'

-- `/^\d+$/.test(s)`
abbrev pub is_digits : Text → Bool
is_digits [] = false
is_digits (c ∷ s) = all is_digit (c ∷ s)

-- `s.split(c)`
abbrev pub onto_first : ℕ → List Text → List Text
onto_first c [] = (c ∷ []) ∷ []
onto_first c (p ∷ ps) = (c ∷ p) ∷ ps

unfoldable pub split_on : ℕ → Text → List Text
split_on c [] = [] ∷ []
split_on c (d ∷ s) = if d == c then [] ∷ split_on c s else onto_first d (split_on c s)

-- `toUpperCase` on the ASCII letters.
abbrev pub upper_unit : ℕ → ℕ
upper_unit c = if leb b'a' c && leb c b'z' then c - 32 else c

abbrev pub upper : Text → Text
upper = map upper_unit
