-- ===== src/Messages/Sending.antt =====
-- The sends of packages/pwa/src/app/app/hooks/useMessages.ts, the older messages, and the
-- transcriptions that arrive later. What `fetcher` and the encoding of the file gave is an argument.
pub mod Failures
use zapi_pwa.Base.{
  ℕ, Bool, true, false, not, ◌&&◌, ◌||◌, Option, none, some, List, [], ◌∷◌, ◌++◌, map, filter,
  if◌then◌else◌, Text, text, text_eq, is_text, is_empty, truthy,
}
use zapi_pwa.Strings.{starts_with, trim}
use zapi_pwa.Effect.{Outcome, returned, thrown}
use zapi_pwa.Messages.{Message, is_local}

-- The state that a send touches; `Reply` is the quoted message.
pub record Composer (Contact Reply : Type 0) : Type 0 where
  pub messages : List (Message Contact)
  pub sending : Bool
  pub reply_target : Option Reply

pub record LocalFile : Type 0 where
  pub name : Text
  pub mime : Text

-- The answer of `send-file`.
pub record SendResult : Type 0 where
  pub error : Option Text
  pub ok : Option Bool
  pub id : Option Text

abbrev pub type_of_mime : Text → Text
type_of_mime mime =
    if starts_with mime (text "image/")
    then text "image"
    else if starts_with mime (text "video/")
    then text "video"
    else if starts_with mime (text "audio/")
    then text "audio"
    else text "document"

-- `file.type || "application/octet-stream"`
abbrev mime_or_default : Text → Text
mime_or_default [] = text "application/octet-stream"
mime_or_default (c ∷ mime) = c ∷ mime

-- `caption || null`
abbrev caption_or_null : Option Text → Option Text
caption_or_null (some (c ∷ caption)) = some (c ∷ caption)
caption_or_null _ = none

abbrev caption_or_name : Option Text → Text → Text
caption_or_name (some (c ∷ caption)) name = c ∷ caption
caption_or_name _ name = b'[' ∷ (name ++ b']' ∷ [])

-- `!result || result.error || result.ok === false` throws.
abbrev pub checked : Outcome (Option SendResult) → Outcome (Option Text)
checked (thrown e) = thrown e
checked (returned none) = thrown (text "Send failed")
checked (returned (some r)) = elim r.error [
  | some (c ∷ e) ↦ thrown (c ∷ e)
  | some [] ↦ elim r.ok [ some false ↦ thrown (text "Send failed") | _ ↦ returned r.id ]
  | none ↦ elim r.ok [ some false ↦ thrown (text "Send failed") | _ ↦ returned r.id ]
]

module _ {Contact : Type 0} where
  -- The optimistic message, at a time in milliseconds.
  abbrev pub local_message :
      Text
      → Text
      → ℕ
      → Option Text
      → Text
      → Option Text
      → Option Text
      → Option Text
      → Message Contact
  local_message id chat_jid now body kind caption filename mime = record {
    id = id;
    chat_jid = chat_jid;
    chat_name = none;
    sender_jid = none;
    sender_name = none;
    timestamp = now;
    from_me = true;
    body = body;
    kind = kind;
    media_caption = caption;
    media_url = none;
    filename = filename;
    mime_type = mime;
    transcription = none;
    transcription_status = if text_eq kind (text "audio") then some (text "processing") else none;
    contact = none;
    starred = false;
  }

module _ {Contact Reply : Type 0} where
  abbrev sent :
      Text → Text → ℕ → Text → Outcome (Unit {0}) → Composer Contact Reply → Composer Contact Reply
  sent id jid now body (thrown e) s = record s { sending = true }
  sent id jid now body (returned _) s = record s {
    messages = s.messages ++ local_message id jid now (some body) (text "text") none none none ∷ [];
    sending = false;
    reply_target = none;
  }

  -- `sendMessage`; an exception of `fetcher` leaves the function, an answer that is an error does
  -- not differ from another one.
  unfoldable pub send_message :
      Text
      → Option Text
      → ℕ
      → Text
      → Outcome (Unit {0})
      → Composer Contact Reply
      → Composer Contact Reply
  send_message id (some (c ∷ jid)) now body res s =
      if is_empty (trim body) || s.sending then s else sent id (c ∷ jid) now body res s
  send_message id _ now body res s = s

  abbrev file_sent : Text → Outcome (Option Text) → Composer Contact Reply → Composer Contact Reply
  file_sent id (thrown e) s = record s {
    messages = filter (λ m. not (text_eq m.id id)) s.messages;
    sending = false;
  }
  file_sent id (returned _) s = record s { sending = false; reply_target = none }

  -- `sendFile`; `between` are messages that other updates appended while the request ran.
  unfoldable pub send_file :
      Text
      → Option Text
      → ℕ
      → LocalFile
      → Option Text
      → List (Message Contact)
      → Outcome (Option SendResult)
      → Composer Contact Reply
      → Composer Contact Reply
  send_file id (some (c ∷ jid)) now file caption between res s =
      if s.sending
      then s
      else (let mime = mime_or_default file.mime in
          let m =
            local_message id (c ∷ jid) now (some (caption_or_name caption file.name))
              (type_of_mime mime) (caption_or_null caption) (some file.name) (some mime) in
          file_sent id (checked res)
            (record s { messages = (s.messages ++ m ∷ []) ++ between; sending = true }))
  send_file id _ now file caption between res s = s

module _ {Contact : Type 0} where
  abbrev with_transcription : Text → Option Text → Message Contact → Message Contact
  with_transcription id (some t) m =
      if text_eq m.id id
      then record m { transcription = some t; transcription_status = some (text "completed") }
      else m
  with_transcription id none m =
      if text_eq m.id id then record m { transcription_status = some (text "failed") } else m

  -- The update when a transcription of a message arrives, or fails.
  unfoldable pub finish_transcription :
      Text → Option Text → List (Message Contact) → List (Message Contact)
  finish_transcription id res ms = map (with_transcription id res) ms

  -- The update that marks a message as being transcribed.
  unfoldable pub mark_processing : Text → List (Message Contact) → List (Message Contact)
  mark_processing id ms =
      map
        (λ m.
          if text_eq m.id id
          then record m { transcription_status = some (text "processing") }
          else m)
        ms

  -- The test of `toHydrate`.
  abbrev pub needs_transcription : Message Contact → Bool
  needs_transcription m =
      (text_eq m.kind (text "audio") || text_eq m.kind (text "ptt"))
      && not (truthy m.transcription)
      && not (is_local m)

  unfoldable pub to_hydrate : List (Message Contact) → List (Message Contact)
  to_hydrate ms = filter needs_transcription ms

  abbrev hydrated : Option Text → Message Contact → Message Contact
  hydrated (some (c ∷ t)) m =
      if truthy m.transcription
      then m
      else record m { transcription = some (c ∷ t); transcription_status = some (text "completed") }
  hydrated _ m = m

  -- The bulk update with the transcriptions that the server has.
  unfoldable pub hydrate : (Text → Option Text) → List (Message Contact) → List (Message Contact)
  hydrate known ms = map (λ m. hydrated (known m.id) m) ms

  abbrev older_or_end :
      (Message Contact → Message Contact)
      → Option (List (Message Contact))
      → List (Message Contact)
      → List (Message Contact) × Bool
  older_or_end enrich (some (m ∷ older)) ms = (map enrich (m ∷ older) ++ ms, true)
  older_or_end enrich _ ms = (ms, false)

  abbrev older_of :
      (Message Contact → Message Contact)
      → Option (List (Message Contact))
      → Option (List (Message Contact))
      → List (Message Contact)
      → List (Message Contact) × Bool
  older_of enrich (some (m ∷ older)) retry ms = (map enrich (m ∷ older) ++ ms, true)
  older_of enrich _ retry ms = older_or_end enrich retry ms

  -- `loadOlder`, from the answers before and after the backfill: the messages and `hasOlder`.
  unfoldable pub load_older :
      (Message Contact → Message Contact)
      → Bool
      → Bool
      → Option (List (Message Contact))
      → Option (List (Message Contact))
      → List (Message Contact)
      → List (Message Contact) × Bool
  load_older enrich loading_older has_older local retry [] = ([], has_older)
  load_older enrich loading_older has_older local retry (m ∷ ms) =
      if loading_older || not has_older
      then (m ∷ ms, has_older)
      else older_of enrich local retry (m ∷ ms)
