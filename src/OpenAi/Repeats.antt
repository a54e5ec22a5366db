-- ===== src/OpenAi/Repeats.antt =====
-- The word counts of `isWhisperHallucination` against a plain count.
use zapi_pwa.Base.{
  ℕ, ◌+◌, ◌*◌, ◌≤◌, ◌<◌, ◌≡◌, ◌↔◌, true, List, [], ◌∷◌, if◌then◌else◌, leb, Text, text_eq,
  text_eq_iff, length, arith, Bool-cases, inl, inr,
}
use zapi_pwa.OpenAi.{bump, count_words, max_count, is_repetitive}

-- How often a word stands in a list.
abbrev pub occurrences : Text → List Text → ℕ
occurrences w [] = 0
occurrences w (v ∷ vs) = if text_eq v w then occurrences w vs + 1 else occurrences w vs

-- The value of a word in the map, 0 where it has none.
abbrev value : Text → List (Text × ℕ) → ℕ
value w [] = 0
value w ((v, n) ∷ freq) = if text_eq v w then n else value w freq

value-bump :
    (w v : Text) (freq : List (Text × ℕ))
    → value w (bump v freq) ≡ (if text_eq v w then value w freq + 1 else value w freq)
unfolding bump
value-bump w v [] = ground arith
value-bump w v ((u, n) ∷ freq) =
    ground (arith, text_eq_iff u v, text_eq_iff v w, text_eq_iff u w, value-bump w v freq)

value-count_words :
    (w : Text) (ws : List Text) (freq : List (Text × ℕ))
    → value w (count_words ws freq) ≡ value w freq + occurrences w ws
unfolding count_words
value-count_words w [] freq = omega arith
value-count_words w (v ∷ ws) freq =
    ground (arith, value-count_words w ws (bump v freq), value-bump w v freq)

value-le-max : (w : Text) (freq : List (Text × ℕ)) → value w freq ≤ max_count freq
unfolding max_count
value-le-max w [] = omega arith
value-le-max w ((v, n) ∷ freq) = ground (arith, value-le-max w freq)

-- No word stands twice in the map.
abbrev NodupKeys : List (Text × ℕ) → Type 0
NodupKeys [] = Unit
NodupKeys ((v, n) ∷ freq) = (value v freq ≡ 0) × NodupKeys freq

bump-NodupKeys : (w : Text) (freq : List (Text × ℕ)) → NodupKeys freq → NodupKeys (bump w freq)
unfolding bump
bump-NodupKeys w [] h = ground arith
bump-NodupKeys w ((v, n) ∷ freq) (fresh, h) =
    ground (arith, bump-NodupKeys w freq h, value-bump v w freq, text_eq_iff v w, text_eq_iff w v)

count_words-NodupKeys :
    (ws : List Text) (freq : List (Text × ℕ)) → NodupKeys freq → NodupKeys (count_words ws freq)
unfolding count_words
count_words-NodupKeys [] freq h = h
count_words-NodupKeys (w ∷ ws) freq h =
    count_words-NodupKeys ws (bump w freq) (bump-NodupKeys w freq h)

-- The largest count belongs to a word.
max_word : (freq : List (Text × ℕ)) → NodupKeys freq → (w : Text) × (max_count freq ≤ value w freq)
unfolding max_count
max_word [] h = ([], omega arith)
max_word ((v, n) ∷ freq) (fresh, h) =
    let (w, p) = max_word freq h in
    elim (Bool-cases (leb (max_count freq) n)) [
      | inl top ↦ (v, ground (arith, text_eq_iff v v))
      | inr low ↦ (w, ground (arith, text_eq_iff v w))
    ]

-- A list of words counts as repetitive exactly when it has ten words or more, and one of them
-- makes up more than 85 per cent of them.
pub is_repetitive_iff :
    (ws : List Text)
    → (is_repetitive ws ≡ true)
      ↔ ((10 ≤ length ws) × (w : Text) × (85 * length ws < 100 * occurrences w ws))
unfolding is_repetitive
is_repetitive_iff ws =
    let freq = count_words ws [] in
    let (w, p) = max_word freq (count_words-NodupKeys ws [] tt) in
    (
      λ h. (ground arith, w, ground (arith, value-count_words w ws [])),
      λ h. ground (arith, value-le-max h.1 freq, value-count_words h.1 ws []),
    )
