-- ===== src/Tests/Audio.antt =====
-- The web application's route and the daemon's forwarder, with services in memory.
use zapi_pwa.Base.{
  ◌≡◌, refl, ◌⊎◌, true, Bool, ◌&&◌, none, some, List, [], ◌∷◌, ◌++◌, any, text, Text, text_eq,
  text_eq_refl,
}
use zapi_pwa.OpenAi.{transcribe_audio, is_whisper_hallucination, is_run, is_repetitive, split_words}
use zapi_pwa.Strings.{trim}
use zapi_pwa.Effect.{Outcome, returned, thrown}
use zapi_pwa.Filter.{
  is_echo, own_lid_sender, own_lid_chat, own_phone_chat, OnAudioEvent, process, filter_message,
}
use zapi_pwa.OnAudio.{
  transcription_row, filter_instance, Services, InstanceRow, MessageRow, skipped, message_row,
}
use zapi_pwa.OnAudio.Handler.{
  decide, persist, insert_message, after_insert, conclude, summarize, transcribe, audio_of,
  bytes_or_download, download_audio, check_download, ask_whisper, group_of, World, handle_bound,
  handle_post,
}
use zapi_pwa.OnAudio.Handler.Once.{IsLawful, transcribed_once}
use zapi_pwa.OnAudio.Handler.Guard.{IsAccepted, handle_post-guarded}
use zapi_pwa.Daemon.Forwarder.{on_audio_message, forward_audio_event, fetch_audio_bytes, with_bytes}
use zapi_pwa.Daemon.Forwarder.Trace.{Run, forward-Run}
use zapi_pwa.Daemon.Forwarder.Bounds.{Grows, on_audio_message_bounds}
use zapi_pwa.Tests.Filters.{own_event}

abbrev bound_instance : InstanceRow
bound_instance = record {
  id = text "i";
  user_id = text "u";
  my_phones = none;
  my_lids = none;
  connected_phone = none;
  connected_lid = none;
  transcription_enabled = none;
}

abbrev matches : Text → Text → MessageRow → Bool
matches instance_id message_id row =
    text_eq row.instance_id instance_id && text_eq row.message_id message_id

-- The database is the list of the rows of `messages`; downloads give the outcome `fetched`.
abbrev services : Outcome Text → Services
services whisper = record {
  State = List MessageRow;
  find_instance = λ session s. some bound_instance;
  message_exists = λ i m s. any (matches i m) s;
  groups_of = λ i chat s. none;
  platform_config = λ s. none;
  transcription_footer = λ user s. none;
  insert_message = λ row s. (returned row.message_id, row ∷ s);
  insert_transcription = λ row s. (returned tt, s);
  fetch =
      λ url key s. (returned (record { is_ok = true; status = text "200"; body = returned [] }), s);
  create_transcription = λ temperature audio s. (whisper, s);
  show_error = λ e. text "Error: " ++ e;
  create_completion = λ config full s. (returned none, s);
}

services-IsLawful : (whisper : Outcome Text) → IsLawful (services whisper)
services-IsLawful whisper = record {
  found = λ row s id h. rw (text_eq_refl row.instance_id, text_eq_refl row.message_id) refl;
  kept_by_completion = λ config full i m s h. h;
  kept_by_transcription = λ row i m s h. h;
}

abbrev working : Services
working = services (returned (text "ola"))

abbrev broken : Services
broken = services (thrown (text "timeout"))

transcribed_first :
    (handle_bound working (text "http://w") own_event bound_instance ([], [])).0.status
    ≡ text "transcribed"
unfolding handle_bound decide persist insert_message after_insert conclude summarize transcribe
    audio_of bytes_or_download download_audio check_download ask_whisper group_of filter_message
    is_echo own_lid_sender own_lid_chat own_phone_chat message_row transcription_row
    transcribe_audio is_whisper_hallucination filter_instance trim is_run is_repetitive split_words
transcribed_first = refl

transcribed_once_example :
    let w : World working =
      (handle_bound working (text "http://w") own_event bound_instance ([], [])).1 in
    handle_bound working (text "http://w") own_event bound_instance w
    ≡ (skipped (text "duplicate"), w)
transcribed_once_example =
    transcribed_once working (services-IsLawful _) (text "http://w") own_event bound_instance
      ([], []) transcribed_first

decided :
    filter_message own_event
      (filter_instance bound_instance)
      (group_of broken bound_instance own_event [])
    ≡ process true
unfolding filter_message is_echo own_lid_sender own_lid_chat own_phone_chat filter_instance group_of
decided = refl

not_transcribed :
    (transcribe broken (text "http://w") none own_event ([], [])).0 ≡ thrown (text "timeout")
unfolding transcribe audio_of bytes_or_download download_audio check_download ask_whisper
    transcribe_audio
not_transcribed = refl

row_stored :
    (insert_message broken
      (message_row bound_instance own_event none (text "transcription_failed"))
      (transcribe broken (text "http://w") none own_event ([], [])).1).0
    ≡ returned (text "m1")
unfolding insert_message message_row
row_stored = refl

handle_post-guarded_example :
    ((event : OnAudioEvent) × (i : InstanceRow) × IsAccepted working none none
        (some (some own_event))
        ([], [])
        event
        i
      × (handle_post working none none (text "http://w") (some (some own_event)) ([], []) ≡ (
        some (handle_bound working (text "http://w") event i ([], [])).0,
        (handle_bound working (text "http://w") event i ([], [])).1,
      )))
    ⊎ ((handle_post working none none (text "http://w") (some (some own_event)) ([], [])).1
        ≡ ([], []))
handle_post-guarded_example =
    handle_post-guarded working none none (text "http://w") (some (some own_event)) ([], [])

-- A web application that is down.
abbrev daemon : zapi_pwa.Daemon.Forwarder.Services
daemon = record {
  State = Unit {0};
  fetch = λ url s. (thrown (text "refused"), s);
  post = λ event s. (thrown (text "refused"), s);
  send = λ a b c d s. (returned tt, s);
}

forward-Run_example :
    let out = fetch_audio_bytes daemon own_event.audio_url ([], tt) in
    Run daemon 3 0 none
      (with_bytes out.0 own_event)
      out.1.0
      (forward_audio_event daemon (text "k") own_event ([], tt))
forward-Run_example = forward-Run daemon (text "k") own_event ([], tt) refl

on_audio_message_bounds_example :
    Grows 3 4 7000 1 [] (on_audio_message daemon (text "k") own_event ([], tt)).0
on_audio_message_bounds_example = on_audio_message_bounds daemon (text "k") own_event ([], tt)
