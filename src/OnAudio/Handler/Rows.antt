-- ===== src/OnAudio/Handler/Rows.antt =====
-- The rows that one event leaves in the database, for each answer of the handler.
use zapi_pwa.Base.{◌≡◌, Bool, true, false, Option, none, some, List, [], ◌∷◌, ◌++◌, Text, text}
use zapi_pwa.Effect.{returned, thrown}
use zapi_pwa.Filter.{OnAudioEvent, FilterDecision, skip, process, filter_message}
use zapi_pwa.OnAudio.{
  Services, InstanceRow, PlatformConfig, MessageRow, TranscriptionRow, Answer, Call, inserted,
  message_row, transcription_row, answer, skipped, failed, reply_text_of, filter_instance,
  or_default, default_footer,
}
use zapi_pwa.OnAudio.Handler.{World, transcribe, group_of, summarize, insert_message}
use zapi_pwa.OnAudio.Handler.Log.{messages_of, transcriptions_of}

module _ (v : Services) where
  -- The rows that are inserted for an event of the instance from a state, when the message was not
  -- stored before, and the answer: by the filter's decision, by what `transcribe` gives or throws,
  -- and by what the database answers to the insert of the message.
  pub data Stored (waclaw_url : Text) (i : InstanceRow) (event : OnAudioEvent)
      (config : Option PlatformConfig) (footer : Text) (w : World v)
      : FilterDecision → Answer → List MessageRow → List TranscriptionRow → Type 0 where
    filtered :
        (reason : Text)
        → Stored waclaw_url i event config footer w
            (skip reason)
            (skipped reason)
            (message_row i event none (text "received") ∷ [])
            []
    not_transcribed :
        (reply : Bool) (err : Text) (w' : World v)
        → transcribe v waclaw_url config event w ≡ (thrown err, w')
        → Stored waclaw_url i event config footer w
            (process reply)
            (failed 500 (v.show_error err))
            (message_row i event none (text "transcription_failed") ∷ [])
            []
    not_stored :
        (reply : Bool) (full e : Text) (w' : World v) (s' : v.State)
        → transcribe v waclaw_url config event w ≡ (returned full, w')
        → v.insert_message (message_row i event (some full) (text "received")) w'.1 ≡ (thrown e, s')
        → Stored waclaw_url i event config footer w
            (process reply)
            (failed 500 (text "persist message: " ++ e))
            (message_row i event (some full) (text "received") ∷ [])
            []
    stored :
        (reply : Bool) (full id : Text) (summary : Option Text) (w' : World v) (s' : v.State)
        → transcribe v waclaw_url config event w ≡ (returned full, w')
        → v.insert_message (message_row i event (some full) (text "received")) w'.1
          ≡ (returned id, s')
        → summary
          ≡ (summarize v config event full
              (w'.0 ++ inserted (message_row i event (some full) (text "received")) ∷ [], s')).0
        → Stored waclaw_url i event config footer w
            (process reply)
            (answer 200 (text "transcribed") none (reply_text_of reply summary full footer))
            (message_row i event (some full) (text "received") ∷ [])
            (transcription_row i event id full summary ∷ [])

  -- The inserts of a run for a message that was not stored.
  pub record Leaves (waclaw_url : Text) (i : InstanceRow) (event : OnAudioEvent)
      (config : Option PlatformConfig) (footer : Text) (decision : FilterDecision) (w : World v)
      (out : Answer × World v) : Type 0 where
    pub messages : List MessageRow
    pub transcriptions : List TranscriptionRow
    pub inserted_messages : messages_of out.1.0 ≡ messages_of w.0 ++ messages
    pub inserted_transcriptions :
        transcriptions_of out.1.0 ≡ transcriptions_of w.0 ++ transcriptions
    pub rows : Stored waclaw_url i event config footer w decision out.0 messages transcriptions

  -- How the event of a known instance ends.
  pub data Handled (waclaw_url : Text) (i : InstanceRow) (event : OnAudioEvent) (log : List Call)
      (s : v.State) (out : Answer × World v) : Type 0 where
    disabled :
        i.transcription_enabled ≡ some false
        → out ≡ (skipped (text "transcription disabled"), (log, s))
        → Handled waclaw_url i event log s out
    duplicate :
        v.message_exists i.id event.message_id s ≡ true
        → out ≡ (skipped (text "duplicate"), (log, s))
        → Handled waclaw_url i event log s out
    fresh :
        v.message_exists i.id event.message_id s ≡ false
        → Leaves waclaw_url i event
            (v.platform_config s)
            (or_default default_footer (v.transcription_footer i.user_id s))
            (filter_message event (filter_instance i) (group_of v i event s))
            (log, s)
            out
        → Handled waclaw_url i event log s out
