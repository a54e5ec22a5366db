-- ===== src/Tests/Reports.antt =====
-- Transcriptions on request, and reported messages.
use zapi_pwa.Base.{
  none, some, Option, List, [], ◌∷◌, ◌≡◌, refl, text, Text, true, false, if◌then◌else◌,
}
use zapi_pwa.Effect.{returned}
use zapi_pwa.Routes.{answered, need, check}
use zapi_pwa.Strings.{trim}
use zapi_pwa.OpenAi.{transcribe_audio, is_whisper_hallucination, is_run, is_repetitive, split_words}
use zapi_pwa.Redis.Memory.{memory, empty}
use zapi_pwa.Tests.Coding.{coding}
use zapi_pwa.Transcribe.{
  fetched, transcribed, stored, Services, MessageKey, bytes, key_eq, IsTable, Transcript,
  post_transcribe, post_transcribe_raw,
}
use zapi_pwa.Transcribe.Owned.{Ends}
use zapi_pwa.Transcribe.Cached.{post_transcribe_cached}
use zapi_pwa.Webhook.{Payload, Instance, post_webhook}
use zapi_pwa.Webhook.Received
use zapi_pwa.Webhook.Received.{post_webhook-Ends}

abbrev Rows : Type 0
Rows = List (MessageKey × Text)

find_row : MessageKey → Rows → Option Text
find_row k [] = none
find_row k ((j, t) ∷ rows) = if key_eq j k then some t else find_row k rows

abbrev table : Services
table = record {
  State = Rows;
  user_of = λ token s. some (text "u");
  owns = λ user session s. true;
  cached = find_row;
  rows = λ session s. [];
  upsert = λ k t s. (k, t) ∷ s;
  fetch_media = λ k chat s. returned (bytes (1 ∷ []));
  whisper = λ audio s. returned (text "ola");
}

table-IsTable : IsTable table
unfolding find_row
table-IsTable = record {
  cached-upsert = λ k t s j. refl;
  owns-upsert = λ k t s user session. refl;
  user_of-upsert = λ k t s token. refl;
}

abbrev key : MessageKey
key = record { session = text "s"; msg = text "m" }

abbrev caller : Option Text
caller = some (text "k")

abbrev first_world : List zapi_pwa.Transcribe.Call × Rows
first_world = ([], [])

-- The world after the first request.
abbrev second_world : List zapi_pwa.Transcribe.Call × Rows
second_world = (
  fetched key (text "c") ∷ transcribed (1 ∷ []) ∷ stored key (text "ola") ∷ [],
  (key, text "ola") ∷ [],
)

first_request :
    post_transcribe table caller (some (text "s")) (some (text "m")) (some (text "c")) first_world
    ≡ (answered (record { text = text "ola"; cached = false }), second_world)
unfolding post_transcribe need check find_row transcribe_audio is_whisper_hallucination trim is_run
    is_repetitive split_words
first_request = refl

post_transcribe_cached_example :
    post_transcribe table caller (some (text "s")) (some (text "m")) (some (text "c")) second_world
    ≡ (answered (record { text = text "ola"; cached = true }), second_world)
post_transcribe_cached_example =
    post_transcribe_cached table table-IsTable caller (some (text "s")) (some (text "m"))
      (some (text "c")) first_world second_world (text "ola") first_request

abbrev raw_world : List zapi_pwa.Transcribe.Call × Rows
raw_world = (transcribed (1 ∷ []) ∷ stored key (text "ola") ∷ [], (key, text "ola") ∷ [])

raw_request :
    post_transcribe_raw table caller (some (1 ∷ [])) (some (text "s")) (some (text "m")) first_world
    ≡ (answered (text "ola"), raw_world)
unfolding post_transcribe_raw need check find_row transcribe_audio is_whisper_hallucination trim
    is_run is_repetitive split_words
raw_request = refl

abbrev report : Payload
report = record {
  instance_id = text "z";
  message_id = some (text "m1");
  phone = some (text "5511");
  from_me = none;
  sender_name = none;
  chat_name = none;
  momment = none;
  text = none;
  audio = some (some (text "http://a"));
  image = none;
  video = none;
  document = none;
}

abbrev hook : zapi_pwa.Webhook.Services
hook = record {
  State = Unit {0};
  secret = some (text "secret");
  hmac = λ secret b. text "ab";
  from_hex = λ t. t;
  parse = λ b. some report;
  iso_of = λ m. none;
  find_instance =
      λ id s. some (record { id = text "i"; connected_phone = some (text "5599"); my_phones = [] });
  insert_message = λ row s. (returned (text "row"), s);
}

post_webhook-Ends_example :
    Received.Ends hook memory coding
      (text "a")
      (text "b")
      (text "now")
      5
      (text "{}")
      (some (text "ab"))
      (tt, empty)
      (post_webhook hook memory coding
        (text "a")
        (text "b")
        (text "now")
        5
        (text "{}")
        (some (text "ab"))
        (tt, empty))
post_webhook-Ends_example =
    post_webhook-Ends hook memory coding (text "a") (text "b") (text "now") 5 (text "{}")
      (some (text "ab")) (tt, empty)
