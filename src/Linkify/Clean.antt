-- ===== src/Linkify/Clean.antt =====
-- No link is missed, and none ends in punctuation.
use zapi_pwa.Base.{
  and_parts, ◌≢◌, ℕ, zero, suc, ◌+◌, ◌≤◌, ◌≡◌, refl, sym, ap, ◌∙◌, true, ◌&&◌, Option, none, some,
  List, [], ◌∷◌, ◌++◌, arith, length, all, All, Text, Bool-cases, Option-cases, inl, inr,
  length-append,
}
use mathlib.Core.Option.{none-ne-some}
use zapi_pwa.Linkify.{
  is_url_unit, is_punct, url_units, strip_prefix, filled, match_prefix, https, http, www, or_match,
  match_here, behind, find_match, before_trailing, split_trailing, Node, plain, link, push_text,
  link_nodes, link_rounds, linkify,
}
use zapi_pwa.Linkify.Shown.{find_match-Found}

-- A prefix that does not match at the front of a text does not match at the front of a part of it.
strip_prefix-append :
    (p t u r : Text) → strip_prefix p t ≡ some r → strip_prefix p (t ++ u) ≡ some (r ++ u)
unfolding strip_prefix
strip_prefix-append [] t u r h = cc
strip_prefix-append (c ∷ p) [] u r h = cc
strip_prefix-append (c ∷ p) (d ∷ t) u r h = ground (arith, strip_prefix-append p t u r)

filled_some :
    (p : Text) (d : ℕ) (r u : Text)
    → is_url_unit d ≡ true
    → filled p (url_units ((d ∷ r) ++ u)) ≢ none
unfolding url_units
filled_some p d r u same h = none-ne-some _ (sym (rw (same, url_units) at h))

filled_part : (p r u : Text) → filled p (url_units (r ++ u)) ≡ none → filled p (url_units r) ≡ none
unfolding url_units
filled_part p [] u h = refl
filled_part p (d ∷ r) u h = elim (Bool-cases (is_url_unit d)) [
  | inr other ↦ rw (other, url_units) refl
  | inl same ↦ absurd (filled_some p d r u same h)
]

match_prefix_part : (p t u : Text) → match_prefix p (t ++ u) ≡ none → match_prefix p t ≡ none
unfolding match_prefix
match_prefix_part p t u h = elim (Option-cases (strip_prefix p t)) [
  | inl missing ↦ rw (missing, match_prefix) refl
  | inr (r, found) ↦
      rw (found, match_prefix)
        (filled_part p r u (rw (strip_prefix-append p t u r found, match_prefix) at h))
]

or_match-none : (a b : Option (Text × Text)) → or_match a b ≡ none → (a ≡ none) × (b ≡ none)
or_match-none none b h = (refl, h)
or_match-none (some m) b h = cc

match_here_part : (t u : Text) → match_here (t ++ u) ≡ none → match_here t ≡ none
unfolding match_here
match_here_part t u h =
    let a =
      or_match-none (match_prefix https (t ++ u))
        (or_match (match_prefix http (t ++ u)) (match_prefix www (t ++ u))) h in
    let b = or_match-none (match_prefix http (t ++ u)) (match_prefix www (t ++ u)) a.1 in
    rw
      (
        match_prefix_part https t u a.0,
        match_prefix_part http t u b.0,
        match_prefix_part www t u b.1,
      )
      refl

behind_inv :
    (c : ℕ) (t : Text) (o : Option (Text × Text × Text)) (f : Text × Text × Text)
    → behind c o ≡ some f
    → f.0 ≡ c ∷ t
    → (g : Text × Text × Text) × (o ≡ some g) × (g.0 ≡ t)
behind_inv c t none f h e = cc
behind_inv c t (some g) f h e = (g, refl, ground arith)

-- What stands before the first match has none.
before_clean :
    (t u : Text) (f : Text × Text × Text)
    → find_match (t ++ u) ≡ some f
    → f.0 ≡ t
    → find_match t ≡ none
unfolding find_match
before_clean [] u f h e = refl
before_clean (c ∷ t) u f h e = elim (Option-cases (match_here (c ∷ (t ++ u)))) [
  | inr ((m, rest), found) ↦
      let k : some ([], m, rest) ≡ some f = rw (found, find_match) at h in
      absurd (let z : [] ≡ c ∷ t = cc in cc)
  | inl missing ↦
      let k : behind c (find_match (t ++ u)) ≡ some f = rw (missing, find_match) at h in
      let (g, found, part) = behind_inv c t (find_match (t ++ u)) f k e in
      rw (match_here_part (c ∷ t) u missing, find_match) (rw (before_clean t u g found part) refl)
]

-- Punctuation has no match.
punct_no_match : (c : ℕ) (s : Text) → is_punct c ≡ true → match_here (c ∷ s) ≡ none
unfolding match_here
punct_no_match c s h = ground arith

punct_clean : (s : Text) → all is_punct s ≡ true → find_match s ≡ none
unfolding find_match
punct_clean [] h = refl
punct_clean (c ∷ s) h =
    let b = and_parts (is_punct c) (all is_punct s) h in
    rw (punct_no_match c s b.0, find_match) (rw (punct_clean s b.1) refl)

before_trailing-Punct :
    (c : ℕ) (m : Text × Text)
    → all is_punct m.1 ≡ true
    → all is_punct (before_trailing c m).1 ≡ true
before_trailing-Punct c ([], t) h = elim (Bool-cases (is_punct c)) [
  | inl same ↦ rw (same, before_trailing) (ap (λ b. b && all is_punct t) same ∙ h)
  | inr other ↦ rw (other, before_trailing) h
]
before_trailing-Punct c (d ∷ r, t) h = h

split_trailing-Punct : (s : Text) → all is_punct (split_trailing s).1 ≡ true
unfolding split_trailing
split_trailing-Punct [] = refl
split_trailing-Punct (c ∷ s) = before_trailing-Punct c (split_trailing s) (split_trailing-Punct s)

-- A text without its trailing punctuation has none.
again :
    (c : ℕ) (m : Text × Text)
    → split_trailing m.0 ≡ (m.0, [])
    → split_trailing (before_trailing c m).0 ≡ ((before_trailing c m).0, [])
unfolding split_trailing
again c ([], t) h = elim (Bool-cases (is_punct c)) [
  | inl same ↦ rw same refl
  | inr other ↦ rw (other, split_trailing) (rw other refl)
]
again c (d ∷ r, t) h = rw (h, split_trailing) refl

split_trailing_idempotent :
    (s : Text) → split_trailing (split_trailing s).0 ≡ ((split_trailing s).0, [])
unfolding split_trailing
split_trailing_idempotent [] = refl
split_trailing_idempotent (c ∷ s) = again c (split_trailing s) (split_trailing_idempotent s)

-- A plain text has no match; what a link shows ends in no punctuation.
abbrev pub IsClean : Node → Type 0
IsClean (plain s) = find_match s ≡ none
IsClean (link i raw href) = split_trailing raw ≡ (raw, [])

push_text-IsClean :
    (s : Text) (nodes : List Node)
    → find_match s ≡ none
    → All IsClean nodes
    → All IsClean (push_text s nodes)
push_text-IsClean [] nodes h k = k
push_text-IsClean (c ∷ s) nodes h k = (h, k)

nodes-IsClean :
    (i : ℕ) (m : Text) (nodes : List Node)
    → All IsClean nodes
    → All IsClean (link_nodes i (split_trailing m) nodes)
unfolding link_nodes
nodes-IsClean i m nodes h = (
  split_trailing_idempotent m,
  push_text-IsClean _ nodes (punct_clean _ (split_trailing-Punct m)) h,
)

rounds-IsClean : (fuel i : ℕ) (s : Text) → length s ≤ fuel → All IsClean (link_rounds fuel i s)
unfolding link_rounds
rounds-IsClean zero i [] h = tt
rounds-IsClean zero i (c ∷ s) h = absurd (omega arith)
rounds-IsClean (suc fuel) i s h = elim (Option-cases (find_match s)) [
  | inl missing ↦ rw (missing, link_rounds) (push_text-IsClean s [] missing tt)
  | inr ((before, m, rest), found) ↦
      let f = find_match-Found s (before, m, rest) found in
      rw (found, link_rounds)
        (push_text-IsClean before _
          (before_clean before (m ++ rest) (before, m, rest) (rw f.whole found) refl)
          (nodes-IsClean i m _ (
            rounds-IsClean fuel (i + 1) rest (
              ground (
                arith,
                length-append before (m ++ rest),
                length-append m rest,
                ap length f.whole,
                f.some_unit,
              )))))
]

-- Every URL of a text becomes a link: no plain node contains a match of the pattern; and what a
-- link shows ends in no punctuation.
pub linkify-IsClean : (t : Option Text) → All IsClean (linkify t)
unfolding linkify
linkify-IsClean none = tt
linkify-IsClean (some s) = rounds-IsClean (length s) 0 s (omega arith)
