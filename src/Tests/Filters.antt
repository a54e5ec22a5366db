-- ===== src/Tests/Filters.antt =====
-- Events for the filter.
use zapi_pwa.Base.{◌≡◌, ◌↔◌, true, none, [], ◌∷◌, text}
use zapi_pwa.Filter.{OnAudioEvent, FilterInstance, skip, process, filter_message}
use zapi_pwa.Filter.Decision.{IsOwn, IsTranscribed, filter_process_iff, filter_self_iff}

-- An own message in a group.
abbrev pub own_event : OnAudioEvent
own_event = record {
  waclaw_session_id = text "s1";
  message_id = text "m1";
  chat_jid = text "123@g.us";
  chat_lid = none;
  chat_name = text "Group";
  sender_phone = text "5511";
  sender_lid = none;
  sender_name = none;
  from_me = true;
  is_group = true;
  audio_url = text "http://localhost:8080/a.ogg";
  audio_bytes_base64 = none;
  audio_duration_seconds = 50;
  timestamp = text "2026-01-01T00:00:00.000Z";
}

abbrev instance1 : FilterInstance
instance1 = record {
  my_phones = text "5522" ∷ [];
  my_lids = [];
  connected_phone = none;
  connected_lid = none;
}

filter_process_iff_example :
    (filter_message own_event instance1 none ≡ process true)
    ↔ ((¬ IsOwn own_event instance1) × IsTranscribed own_event none true)
filter_process_iff_example = filter_process_iff own_event instance1 none true

filter_self_iff_example :
    (filter_message own_event instance1 none ≡ skip (text "self")) ↔ IsOwn own_event instance1
filter_self_iff_example = filter_self_iff own_event instance1 none
