-- ===== src/Filter.antt =====
-- packages/pwa/src/lib/filter.ts, and the event of packages/shared/src/validators/events.ts that it
-- decides about.
pub mod Decision
use zapi_pwa.Base.{
  ℕ, Bool, true, false, ◌||◌, Option, none, some, List, [], ◌∷◌, if◌then◌else◌, Text, text, text_eq,
  truthy, is_text, mem_text,
}
use zapi_pwa.Strings.{before}

-- `OnAudioEvent`
pub record OnAudioEvent : Type 0 where
  pub waclaw_session_id : Text
  pub message_id : Text
  pub chat_jid : Text
  pub chat_lid : Option Text
  pub chat_name : Text
  pub sender_phone : Text
  pub sender_lid : Option Text
  pub sender_name : Option Text
  pub from_me : Bool
  pub is_group : Bool
  pub audio_url : Text
  pub audio_bytes_base64 : Option Text
  pub audio_duration_seconds : ℕ
  pub timestamp : Text

pub record FilterInstance : Type 0 where
  pub my_phones : List Text
  pub my_lids : List Text
  pub connected_phone : Option Text
  pub connected_lid : Option Text

pub record FilterGroup : Type 0 where
  pub transcribe_all : Bool
  pub send_reply : Bool

pub data FilterDecision : Type 0 where
  skip : Text → FilterDecision
  process : Bool → FilterDecision

-- `sender_lid ? (sender_lid === connected || lids.includes(sender_lid)) : false`
abbrev sender_lid_in : Option Text → Option Text → List Text → Bool
sender_lid_in none connected lids = false
sender_lid_in (some []) connected lids = false
sender_lid_in (some (c ∷ lid)) connected lids =
    is_text connected (c ∷ lid) || mem_text (c ∷ lid) lids

-- `ownLidMatchSender`
unfoldable pub own_lid_sender : OnAudioEvent → FilterInstance → Bool
own_lid_sender event i = sender_lid_in event.sender_lid i.connected_lid i.my_lids

-- `event.chat_lid ? instance.my_lids.includes(event.chat_lid) : false`
abbrev chat_lid_in : Option Text → List Text → Bool
chat_lid_in none lids = false
chat_lid_in (some []) lids = false
chat_lid_in (some (c ∷ lid)) lids = mem_text (c ∷ lid) lids

-- `ownLidMatchChat`
unfoldable pub own_lid_chat : OnAudioEvent → FilterInstance → Bool
own_lid_chat event i = mem_text event.chat_jid i.my_lids || chat_lid_in event.chat_lid i.my_lids

-- `ownPhoneMatchChat`
unfoldable pub own_phone_chat : OnAudioEvent → FilterInstance → Bool
own_phone_chat event i = mem_text (before b'@' event.chat_jid) i.my_phones

-- The condition of the first `return`: the audio is the instance's own.
unfoldable pub is_echo : OnAudioEvent → FilterInstance → Bool
is_echo event i =
    is_text i.connected_phone event.sender_phone
    || mem_text event.sender_phone i.my_phones
    || own_lid_sender event i
    || own_lid_chat event i
    || own_phone_chat event i

-- `group?.send_reply ?? true`
abbrev reply_of : Option FilterGroup → Bool
reply_of none = true
reply_of (some g) = g.send_reply

abbrev others_in : Option FilterGroup → FilterDecision
others_in none = skip (text "group not authorized")
others_in (some g) =
    if g.transcribe_all then process g.send_reply else skip (text "transcribe_all disabled")

-- `filterMessage`
unfoldable pub filter_message : OnAudioEvent → FilterInstance → Option FilterGroup → FilterDecision
filter_message event i group =
    if is_echo event i
    then skip (text "self")
    else if event.is_group
    then (if event.from_me then process (reply_of group) else others_in group)
    else if event.from_me
    then skip (text "from_me DM")
    else process true
