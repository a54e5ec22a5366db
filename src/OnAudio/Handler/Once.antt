-- ===== src/OnAudio/Handler/Once.antt =====
-- A message is transcribed at most once, and a failed transcription is not tried again.
use zapi_pwa.Base.{
  ◌≡◌, refl, Bool, true, false, Option, none, some, [], ◌∷◌, ◌++◌, Text, text, Bool-cases, inl, inr,
  leb, arith,
}
use zapi_pwa.Effect.{Outcome, returned, thrown}
use zapi_pwa.Filter.{OnAudioEvent, FilterDecision, skip, process, filter_message}
use zapi_pwa.OnAudio.{
  Services, InstanceRow, PlatformConfig, MessageRow, TranscriptionRow, inserted, message_row,
  skipped, failed, filter_instance, is_bool, or_default, default_footer,
  summarize_threshold_seconds,
}
use zapi_pwa.OnAudio.Handler.{
  World, group_of, transcribe, summarize, conclude, insert_message, after_insert, persist, decide,
  handle_bound,
}

-- What the handler relies on in the database: a row that was inserted is found, and the later calls
-- of a run do not remove it.
pub record IsLawful (v : Services) : Type 0 where
  pub found :
      (row : MessageRow) (s : v.State) (id : Text)
      → (v.insert_message row s).0 ≡ returned id
      → v.message_exists row.instance_id row.message_id (v.insert_message row s).1 ≡ true
  pub kept_by_completion :
      (config : Option PlatformConfig) (full instance_id message_id : Text) (s : v.State)
      → v.message_exists instance_id message_id s ≡ true
      → v.message_exists instance_id message_id (v.create_completion config full s).1 ≡ true
  pub kept_by_transcription :
      (row : TranscriptionRow) (instance_id message_id : Text) (s : v.State)
      → v.message_exists instance_id message_id s ≡ true
      → v.message_exists instance_id message_id (v.insert_transcription row s).1 ≡ true

skipped_transcribed : ¬ (text "skipped" ≡ text "transcribed")
skipped_transcribed h = ground arith

failed_transcribed : ¬ (text "failed" ≡ text "transcribed")
failed_transcribed h = ground arith

module _ (v : Services) (L : IsLawful v) where
  conclude-exists :
      (i : InstanceRow) (event : OnAudioEvent) (config : Option PlatformConfig) (reply : Bool)
      (footer full id : Text) (w : World v)
      → v.message_exists i.id event.message_id w.1 ≡ true
      → v.message_exists i.id event.message_id
          (conclude v i event config reply footer full id w).1.1
        ≡ true
  unfolding conclude summarize
  conclude-exists i event config reply footer full id w h =
      elim (Bool-cases (leb summarize_threshold_seconds event.audio_duration_seconds)) [
        | inl long ↦
            rw long (L.kept_by_transcription _ _ _ _ (L.kept_by_completion config _ _ _ _ h))
        | inr short ↦ rw short (L.kept_by_transcription _ _ _ _ h)
      ]

  after_insert-exists :
      (i : InstanceRow) (event : OnAudioEvent) (config : Option PlatformConfig) (reply : Bool)
      (footer full : Text) (res : Outcome Text) (w : World v)
      → ((id : Text) → res ≡ returned id → v.message_exists i.id event.message_id w.1 ≡ true)
      → (after_insert v i event config reply footer full res w).0.status ≡ text "transcribed"
      → v.message_exists i.id event.message_id
          (after_insert v i event config reply footer full res w).1.1
        ≡ true
  unfolding after_insert
  after_insert-exists i event config reply footer full (thrown e) w k h =
      absurd (failed_transcribed h)
  after_insert-exists i event config reply footer full (returned id) w k h =
      conclude-exists i event config reply footer full id w (k id refl)

  persist-exists :
      (i : InstanceRow) (event : OnAudioEvent) (config : Option PlatformConfig) (reply : Bool)
      (footer : Text) (res : Outcome Text) (w : World v)
      → (persist v i event config reply footer res w).0.status ≡ text "transcribed"
      → v.message_exists i.id event.message_id (persist v i event config reply footer res w).1.1
        ≡ true
  unfolding persist insert_message message_row
  persist-exists i event config reply footer (thrown err) w h = absurd (failed_transcribed h)
  persist-exists i event config reply footer (returned full) w h =
      let row = message_row i event (some full) (text "received") in
      after_insert-exists i event config reply footer full (v.insert_message row w.1).0
        (w.0 ++ inserted row ∷ [], (v.insert_message row w.1).1) (L.found row w.1) h

  decide-exists :
      (waclaw_url : Text) (i : InstanceRow) (event : OnAudioEvent) (config : Option PlatformConfig)
      (footer : Text) (decision : FilterDecision) (w : World v)
      → (decide v waclaw_url i event config footer decision w).0.status ≡ text "transcribed"
      → v.message_exists i.id event.message_id
          (decide v waclaw_url i event config footer decision w).1.1
        ≡ true
  unfolding decide
  decide-exists waclaw_url i event config footer (skip reason) w h = absurd (skipped_transcribed h)
  decide-exists waclaw_url i event config footer (process reply) w h =
      let (res, w') = transcribe v waclaw_url config event w in
      persist-exists i event config reply footer res w' h

  off_disabled :
      (waclaw_url : Text) (event : OnAudioEvent) (i : InstanceRow) (w : World v)
      → is_bool i.transcription_enabled false ≡ true
      → handle_bound v waclaw_url event i w ≡ (skipped (text "transcription disabled"), w)
  unfolding handle_bound
  off_disabled waclaw_url event i (log, s) off = rw off refl

  again_duplicate :
      (waclaw_url : Text) (event : OnAudioEvent) (i : InstanceRow) (w : World v)
      → is_bool i.transcription_enabled false ≡ false
      → v.message_exists i.id event.message_id w.1 ≡ true
      → handle_bound v waclaw_url event i w ≡ (skipped (text "duplicate"), w)
  unfolding handle_bound
  again_duplicate waclaw_url event i (log, s) on known = rw (on, known) refl

  -- The run for a message of an enabled instance that is not stored.
  fresh-decide :
      (waclaw_url : Text) (event : OnAudioEvent) (i : InstanceRow) (w : World v)
      → is_bool i.transcription_enabled false ≡ false
      → v.message_exists i.id event.message_id w.1 ≡ false
      → handle_bound v waclaw_url event i w
        ≡ decide v waclaw_url i event
            (v.platform_config w.1)
            (or_default default_footer (v.transcription_footer i.user_id w.1))
            (filter_message event (filter_instance i) (group_of v i event w.1))
            w
  unfolding handle_bound
  fresh-decide waclaw_url event i (log, s) on new = rw (on, new) refl

  -- With a database that finds the rows it stored: after an event was answered as transcribed, the
  -- same event is skipped as a duplicate, and nothing is changed or called.
  pub transcribed_once :
      (waclaw_url : Text) (event : OnAudioEvent) (i : InstanceRow) (w : World v)
      → (handle_bound v waclaw_url event i w).0.status ≡ text "transcribed"
      → handle_bound v waclaw_url event i (handle_bound v waclaw_url event i w).1
        ≡ (skipped (text "duplicate"), (handle_bound v waclaw_url event i w).1)
  transcribed_once waclaw_url event i w h =
      elim (Bool-cases (is_bool i.transcription_enabled false)) [
        | inl off ↦ absurd (skipped_transcribed (rw (off_disabled waclaw_url event i w off) at h))
        | inr on ↦ elim (Bool-cases (v.message_exists i.id event.message_id w.1)) [
          | inl known ↦
              absurd (skipped_transcribed (rw (again_duplicate waclaw_url event i w on known) at h))
          | inr new ↦
              let eq = fresh-decide waclaw_url event i w on new in
              rw eq (
                again_duplicate waclaw_url event i _ on
                  (decide-exists waclaw_url i event _ _ _ w (rw eq at h)))
        ]
      ]

  -- With a database that finds the rows it stored: when no text was got for a new message that the
  -- filter lets pass, of an enabled instance, and the row that says so was stored, the answer is a
  -- failure with status 500; the same event sent again is skipped as a duplicate and is not
  -- transcribed.
  pub failed_not_retried :
      (waclaw_url : Text) (event : OnAudioEvent) (i : InstanceRow) (w : World v) (reply : Bool)
      (err id : Text)
      → is_bool i.transcription_enabled false ≡ false
      → v.message_exists i.id event.message_id w.1 ≡ false
      → filter_message event (filter_instance i) (group_of v i event w.1) ≡ process reply
      → (transcribe v waclaw_url (v.platform_config w.1) event w).0 ≡ thrown err
      → (insert_message v
          (message_row i event none (text "transcription_failed"))
          (transcribe v waclaw_url (v.platform_config w.1) event w).1).0
        ≡ returned id
      → ((handle_bound v waclaw_url event i w).0 ≡ failed 500 (v.show_error err))
        × (handle_bound v waclaw_url event i (handle_bound v waclaw_url event i w).1
            ≡ (skipped (text "duplicate"), (handle_bound v waclaw_url event i w).1))
  unfolding insert_message decide persist message_row
  failed_not_retried waclaw_url event i w reply err id on new decided h k =
      let eq = fresh-decide waclaw_url event i w on new in
      rw (eq, decided, h) (refl, again_duplicate waclaw_url event i _ on (L.found _ _ id k))
