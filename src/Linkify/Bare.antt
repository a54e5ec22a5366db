-- ===== src/Linkify/Bare.antt =====
-- The bare host `www.` with punctuation behind it.
use zapi_pwa.Base.{
  and_parts, ℕ, zero, suc, ◌+◌, ◌≡◌, refl, ap₂, ◌∙◌, true, some, [], ◌∷◌, ◌++◌, length, all, Text,
  text,
}
use zapi_pwa.Linkify.{
  is_url_unit, is_punct, url_units, www, match_here, find_match, split_trailing, plain, link,
  href_of, link_nodes, link_rounds, linkify,
}

split_all_punct : (s : Text) → all is_punct s ≡ true → split_trailing s ≡ ([], s)
unfolding split_trailing
split_all_punct [] h = refl
split_all_punct (c ∷ s) h =
    let b = and_parts (is_punct c) (all is_punct s) h in rw (split_all_punct s b.1) (rw b.0 refl)

url_units-all : (s : Text) → all is_url_unit s ≡ true → url_units s ≡ (s, [])
unfolding url_units
url_units-all [] h = refl
url_units-all (c ∷ s) h =
    let b = and_parts (is_url_unit c) (all is_url_unit s) h in
    rw (url_units-all s b.1) (rw b.0 refl)

no_rounds : (fuel i : ℕ) → link_rounds fuel i [] ≡ []
unfolding link_rounds find_match
no_rounds zero i = refl
no_rounds (suc fuel) i = refl

match_www :
    (c : ℕ) (p : Text)
    → all is_url_unit (c ∷ p) ≡ true
    → match_here (www ++ (c ∷ p)) ≡ some (www ++ (c ∷ p), [])
unfolding match_here
match_www c p k = rw (url_units-all (c ∷ p) k) refl

split_www :
    (c : ℕ) (p : Text)
    → all is_punct (c ∷ p) ≡ true
    → split_trailing (www ++ (c ∷ p)) ≡ (text "www", b'.' ∷ c ∷ p)
unfolding split_trailing
split_www c p h = rw (split_all_punct (c ∷ p) h) refl

find_match_first :
    (c : ℕ) (s m rest : Text)
    → match_here (c ∷ s) ≡ some (m, rest)
    → find_match (c ∷ s) ≡ some ([], m, rest)
unfolding find_match
find_match_first c s m rest h = rw (h, find_match) refl

rounds_first :
    (fuel i : ℕ) (s m rest : Text)
    → find_match s ≡ some ([], m, rest)
    → link_rounds (suc fuel) i s ≡ link_nodes i (split_trailing m) (link_rounds fuel (i + 1) rest)
unfolding link_rounds
rounds_first fuel i s m rest h = rw (h, link_rounds) refl

-- The bare host `www.` with punctuation behind it becomes a link to the relative address `www`.
pub linkify_bare_www :
    (c : ℕ) (p : Text)
    → all is_punct (c ∷ p) ≡ true
    → all is_url_unit (c ∷ p) ≡ true
    → linkify (some (www ++ (c ∷ p))) ≡ link 0 (text "www") (text "www") ∷ plain (b'.' ∷ c ∷ p) ∷ []
unfolding linkify
linkify_bare_www c p h k =
    let s = www ++ (c ∷ p) in
    let found = find_match_first b'w' (b'w' ∷ b'w' ∷ b'.' ∷ c ∷ p) s [] (match_www c p k) in
    rounds_first (length (b'w' ∷ b'w' ∷ b'.' ∷ c ∷ p)) 0 s s [] found
    ∙ ap₂ (link_nodes 0) (split_www c p h) (no_rounds (length (b'w' ∷ b'w' ∷ b'.' ∷ c ∷ p)) 1)
    ∙ unfold link_nodes href_of in refl
