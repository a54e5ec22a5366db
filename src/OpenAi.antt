-- ===== src/OpenAi.antt =====
-- packages/pwa/src/lib/openai.ts. The calls of the Groq service are arguments: what it answered.
pub mod Words
pub mod Repeats
use zapi_pwa.Base.{
  ℕ, suc, ◌+◌, ◌*◌, Bool, true, false, not, ◌&&◌, ◌||◌, Option, none, some, List, [], ◌∷◌, ◌++◌,
  if◌then◌else◌, ltb, leb, ◌==◌, Text, text, text_eq, length, all, is_empty,
}
use zapi_pwa.Strings.{trim, is_space}
use zapi_pwa.Effect.{Outcome, returned, thrown}

-- The units that `.` does not match.
abbrev pub is_newline : ℕ → Bool
is_newline c = c == 10 || c == 13 || c == 8232 || c == 8233

-- `/^(.)\1{9,}$/.test(t)`
unfoldable pub is_run : Text → Bool
is_run [] = false
is_run (c ∷ s) = not (is_newline c) && all (λ d. d == c) s && leb 9 (length s)

-- The first piece of `t.split(/\s+/)` and the others; the flag tells that a space came before.
unfoldable pub pieces : Bool → Text → Text × List Text
pieces spaced [] = ([], [])
pieces spaced (c ∷ s) =
    let rest = pieces (is_space c) s in
    if is_space c then (if spaced then rest else ([], rest.0 ∷ rest.1)) else (c ∷ rest.0, rest.1)

-- `t.split(/\s+/)`
unfoldable pub split_words : Text → List Text
unfolding pieces
split_words t = let (w, ws) = pieces false t in w ∷ ws

-- `freq.set(w, (freq.get(w) ?? 0) + 1)`, the map in insertion order
unfoldable pub bump : Text → List (Text × ℕ) → List (Text × ℕ)
bump w [] = (w, 1) ∷ []
bump w ((v, n) ∷ freq) = if text_eq v w then (v, n + 1) ∷ freq else (v, n) ∷ bump w freq

-- `for (const w of words) …`
unfoldable pub count_words : List Text → List (Text × ℕ) → List (Text × ℕ)
unfolding bump
count_words [] freq = freq
count_words (w ∷ ws) freq = count_words ws (bump w freq)

-- `Math.max(...freq.values())`
unfoldable pub max_count : List (Text × ℕ) → ℕ
max_count [] = 0
max_count ((v, n) ∷ freq) = let m = max_count freq in if leb m n then n else m

-- `words.length >= 10` and `maxCount / words.length > 0.85`
unfoldable pub is_repetitive : List Text → Bool
unfolding count_words max_count
is_repetitive ws = leb 10 (length ws) && ltb (85 * length ws) (100 * max_count (count_words ws []))

-- `isWhisperHallucination`
unfoldable pub is_whisper_hallucination : Text → Bool
is_whisper_hallucination s =
    let t = trim s in if is_empty t then true else is_run t || is_repetitive (split_words t)

-- `transcribeAudio`, from the answer of `audio.transcriptions.create`
unfoldable pub transcribe_audio : Outcome Text → Outcome Text
transcribe_audio (thrown e) = thrown e
transcribe_audio (returned answer) =
    if is_whisper_hallucination answer
    then thrown (text "whisper hallucination detected")
    else returned answer

-- The user's message of `summarizeText`.
unfoldable pub summary_message : Text → Text
summary_message t = text "Resuma este áudio transcrito:" ++ 10 ∷ 10 ∷ t

-- `summarizeText`, from `response.choices[0]?.message?.content`
unfoldable pub summarize_text : Outcome (Option Text) → Outcome Text
summarize_text (thrown e) = thrown e
summarize_text (returned none) = returned []
summarize_text (returned (some content)) = returned content
