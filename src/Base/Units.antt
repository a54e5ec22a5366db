-- ===== src/Base/Units.antt =====
-- A JavaScript string is the list of its UTF-16 code units.
use Prim.Native.Nat.{ℕ, ◌+◌, ◌-◌, ◌/◌, ◌%◌}
use Prim.Native.Char.{code}
use Prim.Native.String.{String}
use mathlib.Core.Path.{◌≡◌, refl}
use mathlib.Core.Logic.{◌↔◌}
use mathlib.Core.Bool.{Bool, true, false, ◌&&◌, ◌||◌}
use mathlib.Core.Option.{Option, none, some}
use mathlib.Core.List.{List, [], ◌∷◌, ◌++◌}
use mathlib.Core.List.{Memᴰ}
use mathlib.Core.Logic.{inl, inr}
use native.Mathlib.Omega.{arith}
use zapi_pwa.Base.Tests.{Bool-cases, ltb, ◌==◌, if◌then◌else◌}

abbrev pub Text : Type 0
Text = List ℕ

-- A code point outside the first plane takes two units.
abbrev pub units : ℕ → Text
units c =
    if ltb c 65536 then c ∷ [] else (55296 + (c - 65536) / 1024) ∷ (56320 + (c - 65536) % 1024) ∷ []

-- The value of a string literal.
abbrev pub text : String → Text
text String.[] = []
text (String.◌∷◌ c s) = units (code c) ++ text s

-- `s === t`
unfoldable pub text_eq : Text → Text → Bool
text_eq [] [] = true
text_eq [] (d ∷ t) = false
text_eq (c ∷ s) [] = false
text_eq (c ∷ s) (d ∷ t) = c == d && text_eq s t

pub text_eq_iff : (s t : Text) → (text_eq s t ≡ true) ↔ (s ≡ t)
unfolding text_eq
text_eq_iff [] [] = ground arith
text_eq_iff [] (d ∷ t) = ground arith
text_eq_iff (c ∷ s) [] = ground arith
text_eq_iff (c ∷ s) (d ∷ t) = ground (arith, text_eq_iff s t)

pub text_eq_refl : (s : Text) → text_eq s s ≡ true
text_eq_refl s = (text_eq_iff s s).1 refl

-- A string is falsy when it is empty; `null` and `undefined` are `none`.
abbrev pub is_empty : Text → Bool
is_empty [] = true
is_empty (c ∷ s) = false

abbrev pub truthy : Option Text → Bool
truthy none = false
truthy (some []) = false
truthy (some (c ∷ s)) = true

-- `xs.includes(s)` on an array of strings
abbrev pub mem_text : Text → List Text → Bool
mem_text s [] = false
mem_text s (t ∷ ts) = text_eq s t || mem_text s ts

-- `o === s` where `o` may be null
abbrev pub is_text : Option Text → Text → Bool
is_text none s = false
is_text (some t) s = text_eq t s

-- Membership as a proof.
pub mem_text_sound : (s : Text) (ts : List Text) → mem_text s ts ≡ true → Memᴰ s ts
mem_text_sound s [] h = cc
mem_text_sound s (t ∷ ts) h = elim (Bool-cases (text_eq s t)) [
  | inl same ↦ Memᴰ.head ((text_eq_iff s t).0 same)
  | inr other ↦ Memᴰ.tail (mem_text_sound s ts (ground arith))
]

pub mem_text_complete : (s : Text) (ts : List Text) → Memᴰ s ts → mem_text s ts ≡ true
mem_text_complete s [] m = elim m [ ]
mem_text_complete s (t ∷ ts) (Memᴰ.head e) = ground (arith, text_eq_iff s t)
mem_text_complete s (t ∷ ts) (Memᴰ.tail m) = ground (arith, mem_text_complete s ts m)

-- No text stands twice in the list.
abbrev pub AreDistinct : List Text → Type 0
AreDistinct [] = Unit
AreDistinct (id ∷ ids) = (mem_text id ids ≡ false) × AreDistinct ids
