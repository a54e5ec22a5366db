-- ===== src/Tests/Stream.antt =====
-- Streams of the waclaw service.
use mathlib.Core.List.{flatten}
use zapi_pwa.Base.{ℕ, ◌≡◌, refl, true, false, none, some, [], ◌∷◌, text, text_eq, arith}
use zapi_pwa.Strings.{starts_with, ends_with}
use zapi_pwa.Filter.{OnAudioEvent}
use zapi_pwa.Daemon.Client.{
  Setting, member, replace_first, strip_slash, Json, number, string, object, nil, field, feed,
  read_line, read_lines, lines_of, extract_audio_event,
}
use zapi_pwa.Daemon.Client.Chunks.{feed_chunks}
use zapi_pwa.Daemon.Client.Extract.{
  IsForwardable, read_line-IsForwardable, declared_size, number_of, large_audio_skipped,
}

abbrev message_with : ℕ → Json
message_with size = object (
    field (text "type") (string (text "message")) (
      field (text "session_id") (string (text "s1")) (
        field (text "message")
          (object (
            field (text "id") (string (text "m1")) (
              field (text "chat_jid") (string (text "1@g.us")) (
                field (text "timestamp") (number 5) (
                  field (text "audio")
                    (object (
                      field (text "url") (string (text "http://l/a"))
                        (field (text "size_bytes") (number size) nil)))
                    nil)))))
          nil)))

-- Every line is read as the same message.
abbrev setting : Setting
setting = record {
  parse = λ t. some (message_with 10);
  to_iso = λ t. some (text "T");
  waclaw_url = text "http://l/";
  waclaw_public_url = text "https://p";
}

feed_chunks_example :
    feed setting [] (text "da" ∷ text "ta: x\nda" ∷ [])
    ≡ read_lines setting (lines_of (text "data: x\nda")).0
unfolding flatten
feed_chunks_example = feed_chunks setting (text "da" ∷ text "ta: x\nda" ∷ [])

declared : declared_size (message_with 30000000) ≡ some 30000000
unfolding declared_size number_of member text_eq
declared = refl

large_audio_skipped_example : extract_audio_event setting (message_with 30000000) ≡ none
large_audio_skipped_example =
    large_audio_skipped setting (message_with 30000000) 30000000 declared (omega arith)

abbrev event : OnAudioEvent
event = record {
  waclaw_session_id = text "s1";
  message_id = text "m1";
  chat_jid = text "1@g.us";
  chat_lid = none;
  chat_name = [];
  sender_phone = [];
  sender_lid = none;
  sender_name = none;
  from_me = false;
  is_group = true;
  audio_url = text "https://p/a";
  audio_bytes_base64 = none;
  audio_duration_seconds = 0;
  timestamp = text "T";
}

line_read : read_line setting (text "data: x") ≡ some event
unfolding read_line extract_audio_event member replace_first strip_slash starts_with ends_with
    text_eq
line_read = refl

read_line-IsForwardable_example :
    (starts_with (text "data: x") (text "data: ") ≡ true) × IsForwardable event
read_line-IsForwardable_example = read_line-IsForwardable setting (text "data: x") event line_read
