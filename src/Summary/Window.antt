-- ===== src/Summary/Window.antt =====
-- The period of a summary, and how much of the conversation is summarised.
use zapi_pwa.Base.{
  ℕ, ◌+◌, ◌-◌, ◌*◌, ◌%◌, ◌≤◌, ◌<◌, ◌≡◌, zero, suc, refl, ◌∙◌, true, Bool-cases, inl, inr, [], ◌∷◌,
  ◌++◌, ltb, if◌then◌else◌, drop, take, take-append-drop, length, Text, text, text_eq, arith,
}
use zapi_pwa.Summary.{hour, day, resolve_cutoff, max_chars, shorten, is_partial}

-- "Today" starts at the last midnight of Brasília, three hours behind UTC: it is not after now, less
-- than a day ago, and a whole number of days and three hours after 1970.
pub resolve_cutoff_today :
    (now : ℕ)
    → 3 * hour ≤ now
    → (resolve_cutoff (text "hoje") now ≤ now)
      × (now < resolve_cutoff (text "hoje") now + day)
      × (resolve_cutoff (text "hoje") now % day ≡ 3 * hour)
unfolding resolve_cutoff text_eq
resolve_cutoff_today now h = (omega arith, omega arith, omega arith)

length-drop : (n : ℕ) (s : Text) → length (drop n s) ≡ length s - n
length-drop zero s = omega arith
length-drop (suc n) [] = omega arith
length-drop (suc n) (c ∷ s) = length-drop n s ∙ omega arith

kept_length :
    (log : Text)
    → ltb max_chars (length log) ≡ true
    → length (drop (length log - max_chars) log) ≡ max_chars
kept_length log long =
    let d = length-drop (length log - max_chars) log in
    let more : max_chars < length log = ground arith in omega arith

-- The text that is summarised is the end of the conversation: what is left out stands before it,
-- and something is left out exactly where the summary is marked as partial, when 100000 characters
-- are kept.
pub shorten-IsEnd :
    (log : Text)
    → (left_out : Text) × (left_out ++ shorten log ≡ log)
      × (length (shorten log) ≤ max_chars)
      × (length (shorten log) ≡ (if is_partial log then max_chars else length log))
unfolding shorten
shorten-IsEnd log = elim (Bool-cases (ltb max_chars (length log))) [
  | inl long ↦
      let n = kept_length log long in
      (
        take (length log - max_chars) log,
        rw long (take-append-drop (length log - max_chars) log),
        rw long (omega arith),
        rw long n,
      )
  | inr short ↦
      let few : length log ≤ max_chars = ground arith in
      ([], rw short refl, rw short few, rw short refl)
]
