-- ===== src/Linkify/Shown.antt =====
-- What the nodes of a text show, one after the other.
use mathlib.Core.Option.{none-ne-some}
use zapi_pwa.Base.{
  ℕ, zero, suc, ◌+◌, ◌≤◌, ◌≡◌, refl, subst, sym, ap, ap₂, ◌∙◌, Option, none, some, List, [], ◌∷◌,
  ◌++◌, append_assoc, append-nil, arith, length, Text, Option-cases, inl, inr, length-append,
}
use zapi_pwa.Linkify.{
  url_units, strip_prefix, filled, match_prefix, https, http, www, or_match, match_here, behind,
  find_match, before_trailing, split_trailing, Node, plain, link, push_text, link_nodes,
  link_rounds, linkify,
}

-- What a node shows.
abbrev shown : Node → Text
shown (plain s) = s
shown (link i raw href) = raw

abbrev pub shown_text : List Node → Text
shown_text [] = []
shown_text (n ∷ nodes) = shown n ++ shown_text nodes

url_units-append : (s : Text) → (url_units s).0 ++ (url_units s).1 ≡ s
unfolding url_units
url_units-append [] = refl
url_units-append (c ∷ s) = ground (arith, url_units-append s)

strip_prefix-append : (p s r : Text) → strip_prefix p s ≡ some r → p ++ r ≡ s
unfolding strip_prefix
strip_prefix-append [] s r h = cc
strip_prefix-append (c ∷ p) [] r h = cc
strip_prefix-append (c ∷ p) (d ∷ s) r h = ground (arith, strip_prefix-append p s r)

-- A match and the rest are the text; the match is not empty.
pub record Splits (s : Text) (m : Text × Text) : Type 0 where
  pub whole : m.0 ++ m.1 ≡ s
  pub some_unit : 1 ≤ length m.0

filled-Splits :
    (p s r : Text) (u m : Text × Text)
    → p ++ r ≡ s
    → u.0 ++ u.1 ≡ r
    → filled p u ≡ some m
    → Splits s m
filled-Splits p s r ([], rest) m h k e = cc
filled-Splits p s r (d ∷ u, rest) (m, rest') h k e = record {
  whole = ground (arith, append_assoc p (d ∷ u) rest);
  some_unit = ground (arith, length-append p (d ∷ u));
}

prefix-Splits : (p s : Text) (m : Text × Text) → match_prefix p s ≡ some m → Splits s m
unfolding match_prefix
prefix-Splits p s m h = elim (Option-cases (strip_prefix p s)) [
  | inl missing ↦ absurd (none-ne-some m (rw (missing, match_prefix) at h))
  | inr (r, found) ↦
      filled-Splits p s r (url_units r) m (strip_prefix-append p s r found) (url_units-append r)
        (rw (found, match_prefix) at h)
]

or_match-Splits :
    (s : Text) (o p : Option (Text × Text)) (m : Text × Text)
    → ((k : Text × Text) → o ≡ some k → Splits s k)
    → ((k : Text × Text) → p ≡ some k → Splits s k)
    → or_match o p ≡ some m
    → Splits s m
or_match-Splits s (some k) p m f g h = f m h
or_match-Splits s none p m f g h = g m h

match_here-Splits : (s : Text) (m : Text × Text) → match_here s ≡ some m → Splits s m
unfolding match_here
match_here-Splits s m h =
    let rest : (k : Text × Text)
        → or_match (match_prefix http s) (match_prefix www s) ≡ some k
        → Splits s k =
      λ k.
        or_match-Splits s (match_prefix http s) (match_prefix www s) k (prefix-Splits http s)
          (prefix-Splits www s) in
    or_match-Splits s (match_prefix https s) (or_match (match_prefix http s) (match_prefix www s)) m
      (prefix-Splits https s) rest h

-- What stands before a match, the match and the rest.
pub record Found (s : Text) (f : Text × Text × Text) : Type 0 where
  pub whole : f.0 ++ (f.1 ++ f.2) ≡ s
  pub some_unit : 1 ≤ length f.1
  pub here : match_here (f.1 ++ f.2) ≡ some (f.1, f.2)

behind-Found :
    (c : ℕ) (s : Text) (o : Option (Text × Text × Text)) (f : Text × Text × Text)
    → ((g : Text × Text × Text) → o ≡ some g → Found s g)
    → behind c o ≡ some f
    → Found (c ∷ s) f
behind-Found c s none f ih h = cc
behind-Found c s (some (before, m, rest)) (before', m', rest') ih h =
    let i = ih (before, m, rest) refl in
    let e : (c ∷ before, m, rest) ≡ (before', m', rest') = cc in
    subst (Found (c ∷ s)) e
      (record { whole = ap (◌∷◌ c) i.whole; some_unit = i.some_unit; here = i.here })

pub find_match-Found : (s : Text) (f : Text × Text × Text) → find_match s ≡ some f → Found s f
unfolding find_match
find_match-Found [] f h = cc
find_match-Found (c ∷ s) f h = elim (Option-cases (match_here (c ∷ s))) [
  | inl missing ↦
      behind-Found c s (find_match s) f (find_match-Found s) (rw (missing, find_match) at h)
  | inr ((m, rest), found) ↦
      let i = match_here-Splits (c ∷ s) (m, rest) found in
      let k : some ([], m, rest) ≡ some f = rw (found, find_match) at h in
      let e : ([], m, rest) ≡ f = cc in
      subst (Found (c ∷ s)) e
        (record { whole = i.whole; some_unit = i.some_unit; here = rw i.whole found })
]

push_text-shown :
    (s : Text) (nodes : List Node) → shown_text (push_text s nodes) ≡ s ++ shown_text nodes
push_text-shown [] nodes = refl
push_text-shown (c ∷ s) nodes = refl

before_trailing-append :
    (c : ℕ) (m : Text × Text)
    → (before_trailing c m).0 ++ (before_trailing c m).1 ≡ c ∷ (m.0 ++ m.1)
before_trailing-append c ([], t) = ground arith
before_trailing-append c (d ∷ r, t) = refl

split_trailing-append : (s : Text) → (split_trailing s).0 ++ (split_trailing s).1 ≡ s
unfolding split_trailing
split_trailing-append [] = refl
split_trailing-append (c ∷ s) =
    before_trailing-append c (split_trailing s) ∙ ap (◌∷◌ c) (split_trailing-append s)

link_nodes-shown :
    (i : ℕ) (m : Text × Text) (nodes : List Node)
    → shown_text (link_nodes i m nodes) ≡ m.0 ++ (m.1 ++ shown_text nodes)
unfolding link_nodes
link_nodes-shown i (raw, trailing) nodes = ap (◌++◌ raw) (push_text-shown trailing nodes)

rounds-shown : (fuel i : ℕ) (s : Text) → shown_text (link_rounds fuel i s) ≡ s
unfolding link_rounds
rounds-shown zero i s = push_text-shown s [] ∙ append-nil s
rounds-shown (suc fuel) i s = elim (Option-cases (find_match s)) [
  | inl missing ↦ rw (missing, link_rounds) (push_text-shown s [] ∙ append-nil s)
  | inr ((before, m, rest), found) ↦
      let f = find_match-Found s (before, m, rest) found in
      let nodes = link_rounds fuel (i + 1) rest in
      rw (found, link_rounds)
        (push_text-shown before (link_nodes i (split_trailing m) nodes)
          ∙ ap (◌++◌ before) (
              link_nodes-shown i (split_trailing m) nodes
              ∙ sym (append_assoc _ _ (shown_text nodes))
              ∙ ap₂ ◌++◌ (split_trailing-append m) (rounds-shown fuel (i + 1) rest))
          ∙ f.whole)
]

-- What the nodes show, one after the other, is the text.
pub shown_text-linkify : (s : Text) → shown_text (linkify (some s)) ≡ s
unfolding linkify
shown_text-linkify s = rounds-shown (length s) 0 s
