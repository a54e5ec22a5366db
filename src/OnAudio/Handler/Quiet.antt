-- ===== src/OnAudio/Handler/Quiet.antt =====
-- The steps of `POST` that insert nothing: the download, the transcription and the summary.
use zapi_pwa.Base.{Option, none, some, List, [], ◌∷◌, Text, Bool-cases, inl, inr, leb}
use zapi_pwa.Effect.{Outcome, Action, returned, thrown, after_outcome, ◌>>=◌}
use zapi_pwa.Worker.{Download}
use zapi_pwa.Filter.{OnAudioEvent}
use zapi_pwa.OnAudio.{
  Services, PlatformConfig, Call, transcribed, summarized, resolve_audio_url,
  summarize_threshold_seconds,
}
use zapi_pwa.OnAudio.Handler.{
  World, check_download, download_audio, audio_of, bytes_or_download, ask_whisper, transcribe,
  summarize,
}
use zapi_pwa.OnAudio.Handler.Log.{Wrote, nothing-Wrote, call-Wrote, then-Wrote}

-- An action that inserts nothing.
abbrev pub IsQuiet : {S A : Type 0} → (List Call × S → Outcome A × (List Call × S)) → Type 0
IsQuiet {S} m = (w : List Call × S) → Wrote w.0 (m w).1.0 [] []

bind-IsQuiet :
    {S A B : Type 0} (m : Action (List Call × S) A) (f : A → Action (List Call × S) B)
    → IsQuiet m
    → ((a : A) → IsQuiet (f a))
    → IsQuiet (m >>= f)
bind-IsQuiet {S} {A} {B} m f hm hf w = after (m w) (hm w)
  where
    after :
        (o : Outcome A × (List Call × S))
        → Wrote w.0 o.1.0 [] []
        → Wrote w.0 (after_outcome f o.0 o.1).1.0 [] []
    after (returned a, w') h = then-Wrote w.0 w'.0 (f a w').1.0 [] [] [] [] h (hf a w')
    after (thrown e, w') h = h

module _ (v : Services) where
  check_download-IsQuiet : (url : Text) (res : Download) → IsQuiet (check_download v url res)
  unfolding check_download
  check_download-IsQuiet url res (log, s) = elim (Bool-cases res.is_ok) [
    | inl ok ↦ rw ok (nothing-Wrote log)
    | inr bad ↦ rw bad (nothing-Wrote log)
  ]

  download_audio-IsQuiet : (waclaw_url url : Text) → IsQuiet (download_audio v waclaw_url url)
  unfolding download_audio
  download_audio-IsQuiet waclaw_url url =
      bind-IsQuiet _ (check_download v (resolve_audio_url waclaw_url url)) (λ w. call-Wrote w.0 _)
        (check_download-IsQuiet _)

  bytes_or_download-IsQuiet :
      (waclaw_url url : Text) (bytes : Option Text)
      → IsQuiet (bytes_or_download v waclaw_url url bytes)
  unfolding bytes_or_download
  bytes_or_download-IsQuiet waclaw_url url (some (c ∷ bytes)) w = nothing-Wrote w.0
  bytes_or_download-IsQuiet waclaw_url url (some []) w = download_audio-IsQuiet waclaw_url url w
  bytes_or_download-IsQuiet waclaw_url url none w = download_audio-IsQuiet waclaw_url url w

  pub transcribe-IsQuiet :
      (waclaw_url : Text) (config : Option PlatformConfig) (event : OnAudioEvent)
      → IsQuiet (transcribe v waclaw_url config event)
  unfolding transcribe ask_whisper audio_of
  transcribe-IsQuiet waclaw_url config event =
      bind-IsQuiet (audio_of v waclaw_url event) (ask_whisper v config)
        (bytes_or_download-IsQuiet waclaw_url event.audio_url event.audio_bytes_base64)
        (λ audio w. call-Wrote w.0 (transcribed audio))

  pub summarize-Wrote :
      (config : Option PlatformConfig) (event : OnAudioEvent) (full : Text) (w : World v)
      → Wrote w.0 (summarize v config event full w).1.0 [] []
  unfolding summarize
  summarize-Wrote config event full w =
      elim (Bool-cases (leb summarize_threshold_seconds event.audio_duration_seconds)) [
        | inl long ↦ rw long (call-Wrote w.0 (summarized full))
        | inr short ↦ rw short (nothing-Wrote w.0)
      ]
