-- ===== src/VCard/Escapes.antt =====
-- Escaped values.
use zapi_pwa.Base.{
  ℕ, append_assoc, append-nil, ap₂, ◌≡◌, ◌≢◌, refl, sym, ap, ◌∙◌, Bool, true, false, ◌&&◌, [], ◌∷◌,
  ◌++◌, arith, ◌==◌, if◌then◌else◌, All, Text,
}
use zapi_pwa.VCard.{lf, backslash, replace_pair, unescape_vcard_value}

-- How RFC 6350 escapes a unit of a value; each of the four escapes can be left out.
abbrev pub Escapes : Type 0
Escapes = Bool × Bool × Bool × Bool

abbrev hide : Bool → Bool → Bool → ℕ → Text
hide line comma semi c =
    if line && c == lf
    then backslash ∷ b'n' ∷ []
    else if comma && c == b','
    then backslash ∷ b',' ∷ []
    else if semi && c == b';'
    then backslash ∷ b';' ∷ []
    else c ∷ []

hidden : Bool → Bool → Bool → Text → Text
hidden line comma semi [] = []
hidden line comma semi (c ∷ s) = hide line comma semi c ++ hidden line comma semi s

abbrev escape_unit : ℕ → Text
escape_unit c = if c == backslash then backslash ∷ backslash ∷ [] else hide true true true c

-- The escaped value.
pub escape_vcard_value : Text → Text
escape_vcard_value [] = []
escape_vcard_value (c ∷ s) = escape_unit c ++ escape_vcard_value s

abbrev pub IsPlain : Text → Type 0
IsPlain = All (λ c. c ≢ backslash)

replace_skip :
    (a b r c : ℕ) (s : Text) → c ≢ a → replace_pair a b r (c ∷ s) ≡ c ∷ replace_pair a b r s
unfolding replace_pair
replace_skip a b r c [] h = refl
replace_skip a b r c (d ∷ s) h = ground arith

replace_hit : (a b r : ℕ) (s : Text) → replace_pair a b r (a ∷ b ∷ s) ≡ r ∷ replace_pair a b r s
unfolding replace_pair
replace_hit a b r s = ground arith

-- A pair whose second unit is another one is left as it is.
replace_miss :
    (a b r d : ℕ) (s : Text)
    → d ≢ b
    → d ≢ a
    → replace_pair a b r (a ∷ d ∷ s) ≡ a ∷ d ∷ replace_pair a b r s
unfolding replace_pair
replace_miss a b r d [] h k = ground arith
replace_miss a b r d (e ∷ s) h k = ground arith

abbrev pass_n : Text → Text
pass_n = replace_pair backslash b'n' lf

abbrev pass_comma : Text → Text
pass_comma = replace_pair backslash b',' b','

abbrev pass_semi : Text → Text
pass_semi = replace_pair backslash b';' b';'

abbrev pass_backslash : Text → Text
pass_backslash = replace_pair backslash backslash backslash

pass_n-hidden :
    (s rest : Text)
    → IsPlain s
    → pass_n (hidden true true true s ++ rest) ≡ hidden false true true s ++ pass_n rest
unfolding hidden
pass_n-hidden [] rest h = refl
pass_n-hidden (c ∷ s) rest (p, h) =
    let t = hidden true true true s ++ rest in
    ground (
      arith,
      pass_n-hidden s rest h,
      replace_hit backslash b'n' lf t,
      replace_miss backslash b'n' lf b',' t,
      replace_miss backslash b'n' lf b';' t,
      replace_skip backslash b'n' lf c t,
    )

pass_comma-hidden :
    (s rest : Text)
    → IsPlain s
    → pass_comma (hidden false true true s ++ rest) ≡ hidden false false true s ++ pass_comma rest
unfolding hidden
pass_comma-hidden [] rest h = refl
pass_comma-hidden (c ∷ s) rest (p, h) =
    let t = hidden false true true s ++ rest in
    ground (
      arith,
      pass_comma-hidden s rest h,
      replace_hit backslash b',' b',' t,
      replace_miss backslash b',' b',' b';' t,
      replace_skip backslash b',' b',' c t,
    )

pass_semi-hidden :
    (s rest : Text)
    → IsPlain s
    → pass_semi (hidden false false true s ++ rest) ≡ hidden false false false s ++ pass_semi rest
unfolding hidden
pass_semi-hidden [] rest h = refl
pass_semi-hidden (c ∷ s) rest (p, h) =
    let t = hidden false false true s ++ rest in
    ground (
      arith,
      pass_semi-hidden s rest h,
      replace_hit backslash b';' b';' t,
      replace_skip backslash b';' b';' c t,
    )

pass_backslash-hidden :
    (s rest : Text)
    → IsPlain s
    → pass_backslash (hidden false false false s ++ rest)
      ≡ hidden false false false s ++ pass_backslash rest
unfolding hidden
pass_backslash-hidden [] rest h = refl
pass_backslash-hidden (c ∷ s) rest (p, h) =
    let t = hidden false false false s ++ rest in
    ground (
      arith,
      pass_backslash-hidden s rest h,
      replace_hit backslash backslash backslash t,
      replace_skip backslash backslash backslash c t,
    )

hidden_none : (s : Text) → hidden false false false s ≡ s
unfolding hidden
hidden_none [] = refl
hidden_none (c ∷ s) = ap (◌∷◌ c) (hidden_none s)

escape-IsPlain :
    (s rest : Text)
    → IsPlain s
    → escape_vcard_value (s ++ rest) ≡ hidden true true true s ++ escape_vcard_value rest
unfolding escape_vcard_value hidden
escape-IsPlain [] rest h = refl
escape-IsPlain (c ∷ s) rest (p, h) =
    let e : escape_unit c ≡ hide true true true c = ground arith in
    ap₂ ◌++◌ e (escape-IsPlain s rest h)
    ∙ sym (append_assoc (hide true true true c) (hidden true true true s) (escape_vcard_value rest))

-- A value without a backslash in front of another is read up to the other.
unescape-IsPlain :
    (s rest : Text)
    → IsPlain s
    → unescape_vcard_value (hidden true true true s ++ rest) ≡ s ++ unescape_vcard_value rest
unfolding unescape_vcard_value
unescape-IsPlain s rest h = rw (pass_n-hidden s rest h) (
    rw (pass_comma-hidden s (pass_n rest) h) (
      rw (pass_semi-hidden s (pass_comma (pass_n rest)) h) (
        rw (pass_backslash-hidden s (pass_semi (pass_comma (pass_n rest))) h)
          (rw (hidden_none s) refl))))

unescape_nil : unescape_vcard_value [] ≡ []
unfolding unescape_vcard_value
unescape_nil = refl

escaped : (s : Text) → IsPlain s → escape_vcard_value s ≡ hidden true true true s ++ []
unfolding escape_vcard_value
escaped s h = ap escape_vcard_value (sym (append-nil s)) ∙ escape-IsPlain s [] h

escape_backslash_n :
    (v : Text)
    → escape_vcard_value (backslash ∷ b'n' ∷ v)
      ≡ backslash ∷ backslash ∷ b'n' ∷ escape_vcard_value v
unfolding escape_vcard_value
escape_backslash_n v = refl

miss_lf :
    (b r : ℕ) (s : Text)
    → lf ≢ b
    → replace_pair backslash b r (backslash ∷ lf ∷ s)
      ≡ backslash ∷ lf ∷ replace_pair backslash b r s
miss_lf b r s h = replace_miss backslash b r lf s h (omega arith)

unescape_backslash_n :
    (s : Text)
    → unescape_vcard_value (backslash ∷ backslash ∷ b'n' ∷ s)
      ≡ backslash ∷ lf ∷ unescape_vcard_value s
unfolding unescape_vcard_value
unescape_backslash_n s =
    let first : pass_n (backslash ∷ backslash ∷ b'n' ∷ s) ≡ backslash ∷ lf ∷ pass_n s =
      unfold replace_pair in refl in
    ap (λ t. pass_backslash (pass_semi (pass_comma t))) first
    ∙ ap (λ t. pass_backslash (pass_semi t)) (miss_lf b',' b',' (pass_n s) (omega arith))
    ∙ ap pass_backslash (miss_lf b';' b';' (pass_comma (pass_n s)) (omega arith))
    ∙ miss_lf backslash backslash (pass_semi (pass_comma (pass_n s))) (omega arith)

-- A value that holds no backslash is read back from its escaped form.
pub unescape-escape : (s : Text) → IsPlain s → unescape_vcard_value (escape_vcard_value s) ≡ s
unescape-escape s h =
    rw (escaped s h) (unescape-IsPlain s [] h ∙ ap (◌++◌ s) unescape_nil ∙ append-nil s)

-- A backslash in front of an `n` is not read back: it comes out as a backslash and a line feed.
pub unescape-escape_backslash :
    (u v : Text)
    → IsPlain u
    → IsPlain v
    → unescape_vcard_value (escape_vcard_value (u ++ (backslash ∷ b'n' ∷ v)))
      ≡ u ++ (backslash ∷ lf ∷ v)
unescape-escape_backslash u v h k = rw (escape-IsPlain u (backslash ∷ b'n' ∷ v) h) (
    unescape-IsPlain u (escape_vcard_value (backslash ∷ b'n' ∷ v)) h
    ∙ ap (◌++◌ u) (
        ap unescape_vcard_value (escape_backslash_n v)
        ∙ unescape_backslash_n (escape_vcard_value v)
        ∙ ap (λ t. backslash ∷ lf ∷ t) (unescape-escape v k)))
