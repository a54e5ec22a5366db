-- ===== src/Linkify.antt =====
-- packages/pwa/src/app/app/lib/linkify.tsx: the links in the text of a message. A text is cut at
-- the matches of `URL_RE`, from left to right.
pub mod Clean
pub mod Bare
pub mod Shown
use zapi_pwa.Base.{
  ℕ, zero, suc, ◌+◌, Bool, true, false, not, ◌||◌, Option, none, some, List, [], ◌∷◌, ◌++◌, ◌==◌,
  if◌then◌else◌, length, Text, text,
}
use zapi_pwa.Strings.{is_space, starts_with}

-- `[^\s<>"']`
abbrev pub is_url_unit : ℕ → Bool
is_url_unit c = not (is_space c || c == b'<' || c == b'>' || c == b'"' || c == 39)

-- `[.,;:!?)\]}]`
abbrev pub is_punct : ℕ → Bool
is_punct c =
    c == b'.'
    || c == b','
    || c == b';'
    || c == b':'
    || c == b'!'
    || c == b'?'
    || c == b')'
    || c == b']'
    || c == b'}'

-- The units of a URL in front of a text, and what follows them.
unfoldable pub url_units : Text → Text × Text
url_units [] = ([], [])
url_units (c ∷ s) =
    let (u, rest) = url_units s in if is_url_unit c then (c ∷ u, rest) else ([], c ∷ s)

-- A text without a prefix that it may have.
unfoldable pub strip_prefix : Text → Text → Option Text
strip_prefix [] s = some s
strip_prefix (c ∷ p) [] = none
strip_prefix (c ∷ p) (d ∷ s) = if d == c then strip_prefix p s else none

-- `p[^\s<>"']+` at the front of a text: the match and the rest.
abbrev pub filled : Text → Text × Text → Option (Text × Text)
filled p ([], rest) = none
filled p (c ∷ u, rest) = some (p ++ (c ∷ u), rest)

unfoldable pub match_prefix : Text → Text → Option (Text × Text)
unfolding strip_prefix url_units
match_prefix p s = elim (strip_prefix p s) [ none ↦ none | some r ↦ filled p (url_units r) ]

abbrev pub https : Text
https = text "https://"

abbrev pub http : Text
http = text "http://"

abbrev pub www : Text
www = text "www."

abbrev pub or_match : Option (Text × Text) → Option (Text × Text) → Option (Text × Text)
or_match (some m) o = some m
or_match none o = o

-- `URL_RE` at the front of a text.
unfoldable pub match_here : Text → Option (Text × Text)
unfolding match_prefix
match_here s = or_match (match_prefix https s) (or_match (match_prefix http s) (match_prefix www s))

abbrev pub behind : ℕ → Option (Text × Text × Text) → Option (Text × Text × Text)
behind c none = none
behind c (some (before, m, rest)) = some (c ∷ before, m, rest)

-- `URL_RE.exec(text)` from `last` on: what stands before the match, the match, and the rest.
unfoldable pub find_match : Text → Option (Text × Text × Text)
find_match [] = none
find_match (c ∷ s) = elim (match_here (c ∷ s)) [
  | some (m, rest) ↦ some ([], m, rest)
  | none ↦ behind c (find_match s)
]

abbrev pub before_trailing : ℕ → Text × Text → Text × Text
before_trailing c ([], t) = if is_punct c then ([], c ∷ t) else (c ∷ [], t)
before_trailing c (d ∷ r, t) = (c ∷ d ∷ r, t)

-- A match without its trailing punctuation, and that punctuation.
unfoldable pub split_trailing : Text → Text × Text
split_trailing [] = ([], [])
split_trailing (c ∷ s) = before_trailing c (split_trailing s)

pub data Node : Type 0 where
  plain : Text → Node
  link : ℕ → Text → Text → Node

-- A text that is pushed unless it is empty.
abbrev pub push_text : Text → List Node → List Node
push_text [] nodes = nodes
push_text (c ∷ s) nodes = plain (c ∷ s) ∷ nodes

unfoldable pub href_of : Text → Text
unfolding starts_with
href_of raw = if starts_with raw www then https ++ raw else raw

-- The nodes of a match with the key `i`.
unfoldable pub link_nodes : ℕ → Text × Text → List Node → List Node
unfolding href_of
link_nodes i (raw, trailing) nodes = link i raw (href_of raw) ∷ push_text trailing nodes

-- The rounds of the loop. Each takes at least one unit, so the length of the text is enough fuel.
unfoldable pub link_rounds : ℕ → ℕ → Text → List Node
unfolding find_match split_trailing link_nodes
link_rounds zero i s = push_text s []
link_rounds (suc fuel) i s = elim (find_match s) [
  | none ↦ push_text s []
  | some (before, m, rest) ↦
      push_text before (link_nodes i (split_trailing m) (link_rounds fuel (i + 1) rest))
]

-- `linkify(text)`
unfoldable pub linkify : Option Text → List Node
unfolding link_rounds
linkify none = []
linkify (some s) = link_rounds (length s) 0 s
