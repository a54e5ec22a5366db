-- ===== src/OnAudio/Handler.antt =====
-- The handler `POST` of packages/pwa/src/app/api/internal/on-audio/route.ts, step by step.
pub mod Log
pub mod Quiet
pub mod Rows
pub mod Once
pub mod Guard
use zapi_pwa.Base.{
  ℕ, Bool, false, not, Option, none, some, List, [], ◌∷◌, ◌++◌, if◌then◌else◌, leb, Text, text,
  text_eq,
}
use zapi_pwa.Effect.{Outcome, returned, thrown, Action, ◌>>=◌, pure}
use zapi_pwa.Filter.{OnAudioEvent, FilterGroup, FilterDecision, skip, process, filter_message}
use zapi_pwa.OpenAi.{transcribe_audio, summarize_text, summary_message}
use zapi_pwa.Worker.{Download}
use zapi_pwa.Base64.{from_base64}
use zapi_pwa.OnAudio.{
  Answer, Call, InstanceRow, MessageRow, PlatformConfig, Services, answer, default_footer, failed,
  filter_instance, first, is_authorized, is_bool, message_row, or_default, reply_text_of,
  resolve_audio_url, skipped, summarize_threshold_seconds, transcription_row, downloaded,
  transcribed, summarized, inserted, inserted_transcription,
}

module _ (v : Services) where
  abbrev pub World : Type 0
  World = List Call × v.State

  abbrev pub call : {A : Type 0} → Call → (v.State → A × v.State) → World → A × World
  call c f (log, s) = let (a, s') = f s in (a, (log ++ c ∷ [], s'))

  -- `event.is_group ? … : { data: [] }`, its `?? []` and `groups[0] ?? null`
  unfoldable pub group_of : InstanceRow → OnAudioEvent → v.State → Option FilterGroup
  group_of i event s =
      if event.is_group then first (or_default [] (v.groups_of i.id event.chat_jid s)) else none

  unfoldable pub check_download : Text → Download → Action World (List ℕ)
  check_download url res w = if res.is_ok then (res.body, w) else (
    thrown (text "audio download failed: " ++ res.status ++ text " (url: " ++ url ++ text ")"),
    w,
  )

  -- The download of the audio where the event has no bytes; the key goes with a rewritten address.
  unfoldable pub download_audio : Text → Text → Action World (List ℕ)
  download_audio waclaw_url url =
      let resolved = resolve_audio_url waclaw_url url in
      let with_key = not (text_eq resolved url) in
      call (downloaded resolved with_key) (v.fetch resolved with_key) >>= check_download resolved

  unfoldable pub bytes_or_download : Text → Text → Option Text → Action World (List ℕ)
  bytes_or_download waclaw_url url (some (c ∷ bytes)) = pure (from_base64 (c ∷ bytes))
  bytes_or_download waclaw_url url (some []) = download_audio waclaw_url url
  bytes_or_download waclaw_url url none = download_audio waclaw_url url

  -- `audioBuffer`
  unfoldable pub audio_of : Text → OnAudioEvent → Action World (List ℕ)
  audio_of waclaw_url event = bytes_or_download waclaw_url event.audio_url event.audio_bytes_base64

  abbrev temperature_of : Option PlatformConfig → Option ℕ
  temperature_of none = none
  temperature_of (some config) = config.neura_temperature

  unfoldable pub ask_whisper : Option PlatformConfig → List ℕ → Action World Text
  ask_whisper config audio = call (transcribed audio) (λ s.
      let (a, s') = v.create_transcription (temperature_of config) audio s in
      (transcribe_audio a, s'))

  -- The body of the `try` of step 7.
  unfoldable pub transcribe : Text → Option PlatformConfig → OnAudioEvent → Action World Text
  transcribe waclaw_url config event = audio_of waclaw_url event >>= ask_whisper config

  abbrev summary_of : Outcome Text → Option Text
  summary_of (returned summary) = some summary
  summary_of (thrown e) = none

  -- Step 9, up to the insert.
  unfoldable pub summarize :
      Option PlatformConfig → OnAudioEvent → Text → World → Option Text × World
  summarize config event full w =
      if leb summarize_threshold_seconds event.audio_duration_seconds
      then call (summarized full)
          (λ s.
            let (a, s') = v.create_completion config (summary_message full) s in
            (summary_of (summarize_text a), s'))
          w
      else (none, w)

  -- The insert of step 9, whose error is logged, and step 10.
  unfoldable pub conclude :
      InstanceRow
      → OnAudioEvent
      → Option PlatformConfig
      → Bool
      → Text
      → Text
      → Text
      → World
      → Answer × World
  conclude i event config reply footer full id w =
      let (summary, w') = summarize config event full w in
      let row = transcription_row i event id full summary in
      let (_, w'') = call (inserted_transcription row) (v.insert_transcription row) w' in
      (answer 200 (text "transcribed") none (reply_text_of reply summary full footer), w'')

  unfoldable pub insert_message : MessageRow → World → Outcome Text × World
  insert_message row w = call (inserted row) (v.insert_message row) w

  -- What follows the insert of step 8.
  unfoldable pub after_insert :
      InstanceRow
      → OnAudioEvent
      → Option PlatformConfig
      → Bool
      → Text
      → Text
      → Outcome Text
      → World
      → Answer × World
  after_insert i event config reply footer full (thrown e) w =
      (failed 500 (text "persist message: " ++ e), w)
  after_insert i event config reply footer full (returned id) w =
      conclude i event config reply footer full id w

  -- Steps 8 to 10, and the `catch` of step 7.
  unfoldable pub persist :
      InstanceRow
      → OnAudioEvent
      → Option PlatformConfig
      → Bool
      → Text
      → Outcome Text
      → World
      → Answer × World
  persist i event config reply footer (thrown err) w =
      let (_, w') = insert_message (message_row i event none (text "transcription_failed")) w in
      (failed 500 (v.show_error err), w')
  persist i event config reply footer (returned full) w =
      let (res, w') = insert_message (message_row i event (some full) (text "received")) w in
      after_insert i event config reply footer full res w'

  -- Step 6 and what follows.
  unfoldable pub decide :
      Text
      → InstanceRow
      → OnAudioEvent
      → Option PlatformConfig
      → Text
      → FilterDecision
      → World
      → Answer × World
  decide waclaw_url i event config footer (skip reason) w =
      let (_, w') = insert_message (message_row i event none (text "received")) w in
      (skipped reason, w')
  decide waclaw_url i event config footer (process reply) w =
      let (res, w') = transcribe waclaw_url config event w in
      persist i event config reply footer res w'

  -- Steps 4 to 10, for the instance that step 3 found.
  unfoldable pub handle_bound : Text → OnAudioEvent → InstanceRow → World → Answer × World
  handle_bound waclaw_url event i (log, s) =
      if is_bool i.transcription_enabled false
      then (skipped (text "transcription disabled"), (log, s))
      else if v.message_exists i.id event.message_id s
      then (skipped (text "duplicate"), (log, s))
      else decide waclaw_url i event (v.platform_config s)
          (or_default default_footer (v.transcription_footer i.user_id s))
          (filter_message event (filter_instance i) (group_of i event s)) (log, s)

  -- `POST` with the header and the two variables of the environment, for a body that `safeParse`
  -- made an event of, or did not; `none` is an exception of `req.json()`.
  unfoldable pub handle_post :
      Option Text
      → Option Text
      → Text
      → Option (Option OnAudioEvent)
      → World
      → Option Answer × World
  handle_post header secret waclaw_url body (log, s) =
      if is_authorized header secret
      then elim body [
        | none ↦ (none, (log, s))
        | some none ↦ (some (failed 400 (text "invalid payload")), (log, s))
        | some (some event) ↦ elim (v.find_instance event.waclaw_session_id s) [
          | none ↦ (some (skipped (text "session not bound")), (log, s))
          | some i ↦ let (a, w) = handle_bound waclaw_url event i (log, s) in (some a, w)
        ]
      ]
      else (some (failed 401 (text "unauthorized")), (log, s))
