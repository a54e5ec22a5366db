-- ===== src/OpenAi/Words.antt =====
-- Splitting into words, and what `transcribeAudio` lets through.
use zapi_pwa.Base.{
  ℕ, ◌*◌, ◌≤◌, ◌<◌, ◌≡◌, ◌≢◌, ◌↔◌, refl, Bool, true, false, ◌||◌, List, [], ◌∷◌, ◌++◌,
  if◌then◌else◌, ◌==◌, Text, length, all, All, arith, Bool-cases, inl, inr, is_empty, ap,
  append-nil,
}
use zapi_pwa.Strings.{trim, is_space}
use zapi_pwa.Effect.{Outcome, returned, thrown}
use zapi_pwa.OpenAi.{
  is_run, is_newline, pieces, split_words, is_repetitive, is_whisper_hallucination,
  transcribe_audio,
}
use zapi_pwa.OpenAi.Repeats.{occurrences, is_repetitive_iff}

abbrev pub IsWord : Text → Type 0
IsWord w = (w ≢ []) × All (λ c. is_space c ≡ false) w

-- `words.join(" ")`
abbrev pub join_words : Text → List Text → Text
join_words w [] = w
join_words w (v ∷ vs) = w ++ 32 ∷ join_words v vs

pieces_word :
    (spaced : Bool) (w s : Text)
    → All (λ c. is_space c ≡ false) w
    → w ≢ []
    → pieces spaced (w ++ s) ≡ (w ++ (pieces false s).0, (pieces false s).1)
unfolding pieces
pieces_word spaced [] s h given = absurd (given refl)
pieces_word spaced (c ∷ []) s (p, h) given = rw p
pieces_word spaced (c ∷ d ∷ w) s (p, h) given = rw p (rw (pieces_word false (d ∷ w) s h (λ q. cc)))

pieces_join :
    (spaced : Bool) (w : Text) (ws : List Text)
    → IsWord w
    → All IsWord ws
    → pieces spaced (join_words w ws) ≡ (w, ws)
unfolding pieces
pieces_join spaced w [] (given, h) hs = rw append-nil at (pieces_word spaced w [] h given)
pieces_join spaced w (v ∷ vs) (given, h) (k, hs) =
    rw (pieces_word spaced w (32 ∷ join_words v vs) h given)
      (rw append-nil (rw (pieces_join true v vs k hs)))

-- Words joined by single spaces are split into the same words.
pub split_words-join :
    (w : Text) (ws : List Text) → IsWord w → All IsWord ws → split_words (join_words w ws) ≡ w ∷ ws
unfolding split_words
split_words-join w ws h hs = rw (pieces_join false w ws h hs)

abbrev AllSame : ℕ → Text → Type 0
AllSame c = All (λ d. d ≡ c)

-- Ten or more times one unit that is no line break.
pub data IsRun (t : Text) : Type 0 where
  run :
      (c : ℕ) (s : Text)
      → t ≡ c ∷ s
      → is_newline c ≡ false
      → All (λ d. d ≡ c) s
      → 9 ≤ length s
      → IsRun t

all_eq_iff : (c : ℕ) (s : Text) → (all (λ d. d == c) s ≡ true) ↔ All (λ d. d ≡ c) s
all_eq_iff c [] = ground arith
all_eq_iff c (d ∷ s) = ground (arith, all_eq_iff c s)

is_run_sound : (t : Text) → is_run t ≡ true → IsRun t
unfolding is_run
is_run_sound [] h = cc
is_run_sound (c ∷ s) h =
    run c s refl (ground arith) ((all_eq_iff c s).0 (ground arith)) (ground arith)

is_run_complete : (t : Text) → IsRun t → is_run t ≡ true
unfolding is_run
is_run_complete t (run c s e n h k) = rw e (ground (arith, (all_eq_iff c s).1 h))

-- What `transcribeAudio` takes for an invention of the model: nothing but space, a run of one
-- unit, or ten words and more of which one makes up more than 85 per cent.
pub data IsHallucination (answer : Text) : Type 0 where
  blank : trim answer ≡ [] → IsHallucination answer
  same_unit : IsRun (trim answer) → IsHallucination answer
  same_word :
      10 ≤ length (split_words (trim answer))
      → (w : Text)
      → 85 * length (split_words (trim answer)) < 100 * occurrences w (split_words (trim answer))
      → IsHallucination answer

trimmed_sound :
    (answer t : Text)
    → trim answer ≡ t
    → (if is_empty t then true else is_run t || is_repetitive (split_words t)) ≡ true
    → IsHallucination answer
trimmed_sound answer [] e h = blank e
trimmed_sound answer (c ∷ t) e h = elim (Bool-cases (is_run (c ∷ t))) [
  | inl same ↦ same_unit (rw e (is_run_sound (c ∷ t) same))
  | inr other ↦
      let words = split_words (c ∷ t) in
      let (long, w, most) = (is_repetitive_iff words).0 (ground arith) in
      same_word (rw e long) w (rw e most)
]

whisper_sound : (answer : Text) → is_whisper_hallucination answer ≡ true → IsHallucination answer
unfolding is_whisper_hallucination
whisper_sound answer h = trimmed_sound answer (trim answer) refl h

whisper_complete : (answer : Text) → IsHallucination answer → is_whisper_hallucination answer ≡ true
unfolding is_whisper_hallucination
whisper_complete answer (blank e) = rw e
whisper_complete answer (same_unit r) = ground (arith, is_run_complete (trim answer) r)
whisper_complete answer (same_word n w h) =
    ground (arith, (is_repetitive_iff (split_words (trim answer))).1 (n, w, h))

transcribe_sound :
    (o : Outcome Text) (answer : Text)
    → transcribe_audio o ≡ returned answer
    → (o ≡ returned answer) × (¬ IsHallucination answer)
unfolding transcribe_audio
transcribe_sound (thrown e) answer h = cc
transcribe_sound (returned a) answer h = elim (Bool-cases (is_whisper_hallucination a)) [
  | inl invented ↦ absurd (ground arith)
  | inr heard ↦
      let same : a ≡ answer = ground arith in
      (ap returned same, λ bad. cc (whisper_complete answer bad, ap is_whisper_hallucination same))
]

transcribe_complete :
    (answer : Text)
    → ¬ IsHallucination answer
    → transcribe_audio (returned answer) ≡ returned answer
unfolding transcribe_audio
transcribe_complete answer h = elim (Bool-cases (is_whisper_hallucination answer)) [
  | inl invented ↦ absurd (h (whisper_sound answer invented))
  | inr heard ↦ rw heard
]

-- `transcribeAudio` returns a text exactly when the service answered that text and it is no such
-- invention.
pub transcribe_returned_iff :
    (o : Outcome Text) (answer : Text)
    → (transcribe_audio o ≡ returned answer) ↔ ((o ≡ returned answer) × (¬ IsHallucination answer))
transcribe_returned_iff o answer =
    (transcribe_sound o answer, λ h. rw h.0 (transcribe_complete answer h.1))
