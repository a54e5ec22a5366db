-- ===== src/Webhook.antt =====
-- packages/pwa/src/app/api/webhook/route.ts: a message that the Z-API service reports is stored, and
-- audio is queued for the worker. The hash, the decoding of hexadecimal text and of dates and the
-- database are a parameter; the queue is that of `Queue` on any Redis.
pub mod Received
use zapi_pwa.Base.{
  ℕ, Bool, true, false, not, ◌&&◌, ◌==◌, Option, none, some, List, [], ◌∷◌, ◌++◌, map, filter,
  if◌then◌else◌, drop, take, Text, text, text_eq, is_empty, mem_text,
}
use zapi_pwa.Effect.{Outcome, returned, thrown}
use zapi_pwa.Strings.{before, is_digit, lower, trim}
use zapi_pwa.Redis.{Redis}
use zapi_pwa.Queue.{Codec, TranscriptionJob, enqueue}
use zapi_pwa.Routes.{need, check, truthy_text, or_null, Answer, refused, failed, answered}

-- A time as a number or as a text.
pub data Moment : Type 0 where
  number : ℕ → Moment
  string : Text → Moment

pub record Attachment : Type 0 where
  pub url : Option Text
  pub caption : Option Text

-- The body that the schema gives.
pub record Payload : Type 0 where
  pub instance_id : Text
  pub message_id : Option Text
  pub phone : Option Text
  pub from_me : Option Bool
  pub sender_name : Option Text
  pub chat_name : Option Text
  pub momment : Option Moment
  pub text : Option (Option Text)
  pub audio : Option (Option Text)
  pub image : Option Attachment
  pub video : Option Attachment
  pub document : Option Attachment

pub record Instance : Type 0 where
  pub id : Text
  pub connected_phone : Option Text
  pub my_phones : List Text

-- The type, the text and the URL of a message.
pub record Content : Type 0 where
  pub msg_type : Text
  pub msg_text : Option Text
  pub media_url : Option Text

pub record MessageRow : Type 0 where
  pub instance_id : Text
  pub message_id : Text
  pub chat_jid : Text
  pub sender : Text
  pub content : Content
  pub from_me : Bool
  pub status : Text
  pub timestamp : Text

pub record Services : Type 1 where
  pub State : Type 0
  pub secret : Option Text
  -- The hexadecimal HMAC of a body.
  pub hmac : Text → Text → Text
  pub from_hex : Text → List ℕ
  pub parse : Text → Option Payload
  -- `new Date(m).toISOString()`; `none` is a RangeError.
  pub iso_of : Moment → Option Text
  pub find_instance : Text → State → Option Instance
  pub insert_message : MessageRow → State → Outcome Text × State

-- `headerSig.replace(/^sha256=/i, "").trim()`
unfoldable pub received_signature : Text → Text
unfolding trim
received_signature h = trim (if text_eq (lower (take 7 h)) (text "sha256=") then drop 7 h else h)

abbrev attached : Text → Attachment → Content
attached kind a = record { msg_type = kind; msg_text = a.caption; media_url = a.url }

abbrev plain_text : Option (Option Text) → Content
plain_text none = record { msg_type = text "text"; msg_text = none; media_url = none }
plain_text (some t) = record { msg_type = text "text"; msg_text = t; media_url = none }

abbrev document_or : Option Attachment → Content → Content
document_or none c = c
document_or (some a) c = attached (text "document") a

abbrev video_or : Option Attachment → Content → Content
video_or none c = c
video_or (some a) c = attached (text "video") a

abbrev image_or : Option Attachment → Content → Content
image_or none c = c
image_or (some a) c = attached (text "image") a

abbrev audio_or : Option (Option Text) → Content → Content
audio_or none c = c
audio_or (some url) c = record { msg_type = text "audio"; msg_text = none; media_url = url }

unfoldable pub content_of : Payload → Content
content_of p =
    audio_or p.audio
      (image_or p.image (video_or p.video (document_or p.document (plain_text p.text))))

abbrev pub or_else : Option Text → Option Text → Option Text
or_else none o = o
or_else (some s) o = some s

abbrev pub sender_of : Payload → Text
sender_of p =
    if or_null p.from_me false
    then text "me"
    else or_null (or_else p.sender_name (or_else p.chat_name p.phone)) (text "unknown")

abbrev pub is_audio : Content → Bool
is_audio c = text_eq c.msg_type (text "audio")

unfoldable pub message_row : Text → Instance → Payload → Text → MessageRow
unfolding content_of
message_row uuid i p timestamp = record {
  instance_id = i.id;
  message_id = or_null p.message_id uuid;
  chat_jid = or_null p.phone (text "unknown");
  sender = sender_of p;
  content = content_of p;
  from_me = or_null p.from_me false;
  status = if is_audio (content_of p) then text "pending_transcription" else text "received";
  timestamp = timestamp;
}

-- `norm`
unfoldable pub norm : Text → Text
unfolding before
norm p = filter is_digit (before b'@' p)

abbrev pub connected : Option Text → List Text
connected none = []
connected (some p) = p ∷ []

unfoldable pub own_phones : Instance → List Text
unfolding norm
own_phones i =
    map norm (filter (λ p. not (is_empty p)) (connected i.connected_phone ++ i.my_phones))

unfoldable pub is_self : Instance → Payload → Bool
unfolding norm own_phones
is_self i p =
    let chat_phone = norm (or_null p.phone []) in
    not (is_empty chat_phone) && mem_text chat_phone (own_phones i)

abbrev pub truthy_moment : Option Moment → Option Moment
truthy_moment (some (number ℕ.zero)) = none
truthy_moment (some (string [])) = none
truthy_moment m = m

-- The URL of audio that is to be transcribed.
unfoldable pub audio_to_queue : Instance → Payload → Option Text
audio_to_queue i p =
    if is_audio (content_of p) && not (is_self i p)
    then truthy_text (content_of p).media_url
    else none

module _ (v : Services) (r : Redis) (c : Codec) where
  abbrev pub World : Type 0
  World = v.State × r.State

  -- `verifySignature`
  unfoldable pub verify_signature : Text → Text → Option Text → Bool
  unfolding received_signature
  verify_signature secret raw_body header = elim (truthy_text header) [
    | none ↦ false
    | some h ↦ text_eq (v.from_hex (v.hmac secret raw_body)) (v.from_hex (received_signature h))
  ]

  unfoldable pub is_accepted : Text → Option Text → Bool
  unfolding verify_signature
  is_accepted raw_body header = elim (truthy_text v.secret) [
    | none ↦ true
    | some secret ↦ verify_signature secret raw_body header
  ]

  -- The time of the message, or of the call.
  abbrev pub timestamp_of : Option Moment → Text → Option Text
  timestamp_of none now = some now
  timestamp_of (some m) now = v.iso_of m

  abbrev pub new_job : Instance → Text → Text → TranscriptionJob
  new_job i id url = record {
    id = [];
    instance_id = i.id;
    message_id = id;
    audio_url = url;
    attempts = 0;
    created_at = 0;
  }

  abbrev pub queue_audio : Text → ℕ → Instance → Text → Option Text → r.State → r.State
  queue_audio uuid now i id none q = q
  queue_audio uuid now i id (some url) q = (enqueue r c uuid now (new_job i id url) q).1

  abbrev pub after_insert :
      Text → ℕ → Instance → Payload → r.State → Outcome Text × v.State → Answer (Unit {0}) × World
  after_insert uuid now i p q (thrown e, s) = (refused 500 (text "persist failed"), (s, q))
  after_insert uuid now i p q (returned id, s) =
      (answered tt, (s, queue_audio uuid now i id (audio_to_queue i p) q))

  -- What follows the look-up of the instance; a moment that is no date makes the handler throw.
  unfoldable pub receive :
      Text → Text → Text → ℕ → Instance → Payload → World → Answer (Unit {0}) × World
  unfolding message_row audio_to_queue
  receive message_uuid uuid now_iso now i p (s, q) =
      elim (timestamp_of (truthy_moment p.momment) now_iso) [
        | none ↦ (failed (text "Invalid time value"), (s, q))
        | some t ↦ after_insert uuid now i p q (v.insert_message (message_row message_uuid i p t) s)
      ]

  -- `POST`; the two random identifiers and the time in both forms are given.
  unfoldable pub post_webhook :
      Text → Text → Text → ℕ → Text → Option Text → World → Answer (Unit {0}) × World
  unfolding is_accepted receive
  post_webhook message_uuid uuid now_iso now raw_body header (s, q) =
      check (is_accepted raw_body header) (refused 401 (text "invalid signature"))
        (need (v.parse raw_body) (refused 400 (text "invalid payload")) (λ p.
          need (v.find_instance p.instance_id s) (refused 404 (text "unknown instance"))
            (λ i. receive message_uuid uuid now_iso now i p)))
        (s, q)
