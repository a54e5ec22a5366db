-- ===== src/OnAudio.antt =====
-- packages/pwa/src/app/api/internal/on-audio/route.ts and lib/footer.ts: the web application
-- receives an audio event. The database, `fetch` and the Groq service are a parameter; every call
-- that changes something or leaves the process is recorded in a log, newest last.
pub mod Handler
use zapi_pwa.Base.{
  ℕ, ◌*◌, Bool, true, false, not, Option, none, some, List, [], ◌∷◌, ◌++◌, length, drop,
  if◌then◌else◌, leb, ◌==◌, ◌&&◌, Text, text, text_eq, is_empty,
}
use zapi_pwa.Strings.{starts_with, is_digit, trim_end}
use zapi_pwa.Effect.{Outcome, returned, thrown, Action, ◌>>=◌, pure}
use zapi_pwa.Filter.{
  OnAudioEvent, FilterInstance, FilterGroup, FilterDecision, skip, process, filter_message,
}
use zapi_pwa.OpenAi.{transcribe_audio, summarize_text, summary_message}
use zapi_pwa.Worker.{Download}
use zapi_pwa.Daemon.Client.{strip_slash}
use zapi_pwa.Base64.{from_base64}

-- The columns that are selected from `instances`.
pub record InstanceRow : Type 0 where
  pub id : Text
  pub user_id : Text
  pub my_phones : Option (List Text)
  pub my_lids : Option (List Text)
  pub connected_phone : Option Text
  pub connected_lid : Option Text
  pub transcription_enabled : Option Bool

-- The columns of `platform_config` that are read; a temperature is a number of hundredths.
pub record PlatformConfig : Type 0 where
  pub neura_model : Option Text
  pub neura_prompt : Option Text
  pub neura_temperature : Option ℕ

-- A row of `messages`; the column `type` is always "audio".
pub record MessageRow : Type 0 where
  pub instance_id : Text
  pub message_id : Text
  pub chat_jid : Text
  pub sender : Text
  pub body : Option Text
  pub from_me : Bool
  pub media_url : Text
  pub status : Text
  pub timestamp : Text

pub record TranscriptionRow : Type 0 where
  pub message_id : Text
  pub instance_id : Text
  pub body : Text
  pub summary : Option Text
  pub duration_ms : ℕ

pub data Call : Type 0 where
  downloaded : Text → Bool → Call
  transcribed : List ℕ → Call
  summarized : Text → Call
  inserted : MessageRow → Call
  inserted_transcription : TranscriptionRow → Call

-- What lies outside: selects (`none` is `data: null`), inserts (`error` is an error or no row), the
-- download with or without the key, the two
-- calls of the Groq service, and `String(err)` of what was thrown.
pub record Services : Type 1 where
  pub State : Type 0
  pub find_instance : Text → State → Option InstanceRow
  pub message_exists : Text → Text → State → Bool
  pub groups_of : Text → Text → State → Option (List FilterGroup)
  pub platform_config : State → Option PlatformConfig
  pub transcription_footer : Text → State → Option Text
  pub insert_message : MessageRow → State → Outcome Text × State
  pub insert_transcription : TranscriptionRow → State → Outcome (Unit {0}) × State
  pub fetch : Text → Bool → State → Outcome Download × State
  pub create_transcription : Option ℕ → List ℕ → State → Outcome Text × State
  pub show_error : Text → Text
  pub create_completion : Option PlatformConfig → Text → State → Outcome (Option Text) × State

-- `OnAudioResponse` with its HTTP status
pub record Answer : Type 0 where
  pub http : ℕ
  pub status : Text
  pub reason : Option Text
  pub reply_text : Option Text

abbrev pub summarize_threshold_seconds : ℕ
summarize_threshold_seconds = 40

-- `formatReply`
unfoldable pub format_reply : Text → Text → Text
format_reply body footer =
    let trimmed = trim_end body in if is_empty footer then trimmed else trimmed ++ 10 ∷ 10 ∷ footer

-- `s.replace(/^https?:\/\/localhost(:\d+)?/, "")`; `none` where the pattern does not match.
unfoldable pub strip_prefix : Text → Text → Option Text
strip_prefix p s = if starts_with s p then some (drop (length p) s) else none

unfoldable pub drop_digits : Text → Text
drop_digits [] = []
drop_digits (c ∷ s) = if is_digit c then drop_digits s else c ∷ s

unfoldable pub drop_port : Text → Text
unfolding drop_digits
drop_port (colon ∷ c ∷ s) = if colon == 58 && is_digit c then drop_digits s else colon ∷ c ∷ s
drop_port s = s

abbrev or_else : {A : Type 0} → Option A → Option A → Option A
or_else (some a) b = some a
or_else none b = b

unfoldable pub after_localhost : Text → Option Text
unfolding strip_prefix
after_localhost url =
    or_else (strip_prefix (text "http://localhost") url)
      (strip_prefix (text "https://localhost") url)

-- `resolvedAudioUrl`
unfoldable pub resolve_audio_url : Text → Text → Text
resolve_audio_url waclaw_url url = elim (after_localhost url) [
  | none ↦ url
  | some rest ↦ strip_slash waclaw_url ++ drop_port rest
]

-- `replyBody`
unfoldable pub reply_body : Option Text → Text → Text
reply_body none full = full
reply_body (some []) full = full
reply_body (some (c ∷ summary)) full =
    text "📝 *Resumo:*\n" ++ c ∷ summary ++ text "\n\n*Transcrição completa:*\n" ++ full

-- `headers.get(…) !== process.env.INTERNAL_WEBHOOK_SECRET` fails: `null` is not `undefined`.
unfoldable pub is_authorized : Option Text → Option Text → Bool
is_authorized (some header) (some secret) = text_eq header secret
is_authorized _ _ = false

abbrev pub or_default : {A : Type 0} → A → Option A → A
or_default a none = a
or_default a (some b) = b

-- The argument of `filterMessage`.
unfoldable pub filter_instance : InstanceRow → FilterInstance
filter_instance i = record {
  my_phones = or_default [] i.my_phones;
  my_lids = or_default [] i.my_lids;
  connected_phone = i.connected_phone;
  connected_lid = i.connected_lid;
}

abbrev pub first : {A : Type 0} → List A → Option A
first [] = none
first (x ∷ xs) = some x

-- The rows that are inserted into `messages`.
unfoldable pub message_row : InstanceRow → OnAudioEvent → Option Text → Text → MessageRow
message_row i event body status = record {
  instance_id = i.id;
  message_id = event.message_id;
  chat_jid = event.chat_jid;
  sender = or_default event.sender_phone event.sender_name;
  body = body;
  from_me = event.from_me;
  media_url = event.audio_url;
  status = status;
  timestamp = event.timestamp;
}

unfoldable pub transcription_row :
    InstanceRow → OnAudioEvent → Text → Text → Option Text → TranscriptionRow
transcription_row i event id body summary = record {
  message_id = id;
  instance_id = i.id;
  body = body;
  summary = summary;
  duration_ms = event.audio_duration_seconds * 1000;
}

abbrev pub answer : ℕ → Text → Option Text → Option Text → Answer
answer http status reason reply_text = record {
  http = http;
  status = status;
  reason = reason;
  reply_text = reply_text;
}

abbrev pub skipped : Text → Answer
skipped reason = answer 200 (text "skipped") (some reason) none

abbrev pub failed : ℕ → Text → Answer
failed http reason = answer http (text "failed") (some reason) none

-- `reply_text`
unfoldable pub reply_text_of : Bool → Option Text → Text → Text → Option Text
reply_text_of reply summary full footer =
    if reply then some (format_reply (reply_body summary full) footer) else none

abbrev pub default_footer : Text
default_footer = text "Transcrição por IA 😜"

abbrev pub is_bool : Option Bool → Bool → Bool
is_bool none b = false
is_bool (some true) b = b
is_bool (some false) b = not b
