-- ===== src/Tests/Texts.antt =====
-- Transcriptions, and bytes in base64.
use zapi_pwa.Base.{◌≡◌, refl, ◌↔◌, ◌≤◌, ◌<◌, ◌*◌, true, List, [], ◌∷◌, text, Text, length, arith}
use zapi_pwa.Effect.{returned}
use zapi_pwa.OpenAi.{is_repetitive, split_words, transcribe_audio}
use zapi_pwa.OpenAi.Repeats.{is_repetitive_iff, occurrences}
use zapi_pwa.OpenAi.Words.{split_words-join, IsHallucination, transcribe_returned_iff}
use zapi_pwa.Base64.{to_base64, from_base64, digits_of, bytes_of, value_of}
use zapi_pwa.Base64.RoundTrip.{from_base64-to_base64}

abbrev sample : List Text
sample = text "a" ∷ text "b" ∷ text "a" ∷ []

is_repetitive_iff_example :
    (is_repetitive sample ≡ true)
    ↔ ((10 ≤ length sample) × (w : Text) × (85 * length sample < 100 * occurrences w sample))
is_repetitive_iff_example = is_repetitive_iff sample

transcribe_returned_iff_example :
    (transcribe_audio (returned (text "ola")) ≡ returned (text "ola"))
    ↔ ((returned (text "ola") ≡ returned (text "ola")) × (¬ IsHallucination (text "ola")))
transcribe_returned_iff_example = transcribe_returned_iff (returned (text "ola")) (text "ola")

from_base64-to_base64_example :
    from_base64 (to_base64 (77 ∷ 0 ∷ 255 ∷ 16 ∷ [])) ≡ 77 ∷ 0 ∷ 255 ∷ 16 ∷ []
from_base64-to_base64_example =
    from_base64-to_base64 (77 ∷ 0 ∷ 255 ∷ 16 ∷ [])
      (omega arith, (omega arith, (omega arith, (omega arith, tt))))

from_base64_padded : from_base64 (text "TQ==") ≡ 77 ∷ []
unfolding from_base64 digits_of bytes_of value_of
from_base64_padded = refl

split_words-join_example : split_words (text "a b") ≡ text "a" ∷ text "b" ∷ []
split_words-join_example =
    split_words-join (text "a") (text "b" ∷ []) (λ h. cc, (refl, tt)) ((λ h. cc, (refl, tt)), tt)
