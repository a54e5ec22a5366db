-- ===== src/Transcribe.antt =====
-- packages/pwa/src/app/api/transcribe/route.ts and transcribe-raw/route.ts: transcription on
-- request, with a table of the texts that were got. The database, the gateway and the Groq service
-- are a parameter; their calls that cost or change something are recorded in a log.
pub mod Cached
pub mod Owned
pub mod Raw
use zapi_pwa.Base.{
  ℕ, ◌≡◌, ◌*◌, Bool, true, false, ◌&&◌, Option, none, some, List, [], ◌∷◌, ◌++◌, map, if◌then◌else◌,
  ltb, length, Text, text, text_eq,
}
use zapi_pwa.Effect.{Outcome, returned, thrown}
use zapi_pwa.OpenAi.{transcribe_audio}
use zapi_pwa.Routes.{
  need, check, truthy_text, Answer, refused, failed, answered, unauthorized, user_of_token,
}

-- The response of the gateway: an error with its status, or the bytes of the audio.
pub data Media : Type 0 where
  error_status : Text → Media
  bytes : List ℕ → Media

-- A request or a row names a message by its session and its identifier.
pub record MessageKey : Type 0 where
  pub session : Text
  pub msg : Text

abbrev pub key_eq : MessageKey → MessageKey → Bool
key_eq j k = text_eq j.session k.session && text_eq j.msg k.msg

pub data Call : Type 0 where
  fetched : MessageKey → Text → Call
  transcribed : List ℕ → Call
  stored : MessageKey → Text → Call

pub record Services : Type 1 where
  pub State : Type 0
  pub user_of : Text → State → Option Text
  -- Whether an instance of the user is bound to the session.
  pub owns : Text → Text → State → Bool
  pub cached : MessageKey → State → Option Text
  pub rows : Text → State → List (Text × Text)
  pub upsert : MessageKey → Text → State → State
  pub fetch_media : MessageKey → Text → State → Outcome Media
  -- The answer of `audio.transcriptions.create`.
  pub whisper : List ℕ → State → Outcome Text

-- The text, and whether it comes from the table.
pub record Transcript : Type 0 where
  pub text : Text
  pub cached : Bool

abbrev pub max_bytes : ℕ
max_bytes = 25 * 1024 * 1024

module _ (v : Services) where
  abbrev pub World : Type 0
  World = List Call × v.State

  abbrev pub store_text : MessageKey → Text → World → World
  store_text key t (log, s) = (log ++ stored key t ∷ [], v.upsert key t s)

  abbrev pub after_whisper : MessageKey → Outcome Text → World → Answer Transcript × World
  after_whisper key (thrown e) w = (refused 500 e, w)
  after_whisper key (returned t) w =
      (answered (record { text = t; cached = false }), store_text key t w)

  abbrev pub after_fetch : MessageKey → Outcome Media → World → Answer Transcript × World
  after_fetch key (thrown e) w = (failed e, w)
  after_fetch key (returned (error_status n)) w =
      (refused 502 (text "Failed to fetch audio: HTTP " ++ n), w)
  after_fetch key (returned (bytes [])) w = (refused 502 (text "Empty audio"), w)
  after_fetch key (returned (bytes (b ∷ bs))) (log, s) =
      after_whisper key (transcribe_audio (v.whisper (b ∷ bs) s))
        (log ++ transcribed (b ∷ bs) ∷ [], s)

  -- From the table, or else from the audio.
  unfoldable pub transcript_of : MessageKey → Text → World → Answer Transcript × World
  transcript_of key chat (log, s) = elim (truthy_text (v.cached key s)) [
    | some t ↦ (answered (record { text = t; cached = true }), (log, s))
    | none ↦ after_fetch key (v.fetch_media key chat s) (log ++ fetched key chat ∷ [], s)
  ]

  abbrev missing_field : Text
  missing_field = text "sessionId, msgId, and chatJid required"

  -- `POST` of transcribe
  unfoldable pub post_transcribe :
      Option Text → Option Text → Option Text → Option Text → World → Answer Transcript × World
  unfolding transcript_of
  post_transcribe token session msg chat (log, s) =
      need (user_of_token v.user_of token s) unauthorized
        (λ user. need (truthy_text session) (refused 400 missing_field) (λ session'.
          need (truthy_text msg) (refused 400 missing_field) (λ msg'.
            need (truthy_text chat) (refused 400 missing_field) (λ chat'.
              check (v.owns user session' s) (refused 403 (text "Session not accessible"))
                (transcript_of (record { session = session'; msg = msg' }) chat')))))
        (log, s)

  -- `GET` of transcribe: the rows of a session.
  unfoldable pub get_transcriptions :
      Option Text → Option Text → v.State → Answer (List (Text × Text))
  get_transcriptions token session s =
      (need {W = v.State} (user_of_token v.user_of token s) unauthorized
        (λ user. need (truthy_text session) (refused 400 (text "sessionId required")) (λ session'.
          check (v.owns user session' s) (refused 403 (text "Session not accessible"))
            (λ s'. (answered (v.rows session' s'), s'))))
        s).0

  -- The text is stored if the caller names a message of a session of its own.
  abbrev pub persist : Text → Option Text → Option Text → Text → World → World
  persist user (some session) (some msg) t (log, s) =
      if v.owns user session s
      then store_text (record { session = session; msg = msg }) t (log, s)
      else (log, s)
  persist user _ _ t w = w

  abbrev pub after_raw :
      Text → Option Text → Option Text → Outcome Text → World → Answer Text × World
  after_raw user session msg (thrown e) w = (refused 500 e, w)
  after_raw user session msg (returned t) w =
      (answered t, persist user (truthy_text session) (truthy_text msg) t w)

  unfoldable pub transcribe_bytes :
      Text → Option Text → Option Text → List ℕ → World → Answer Text × World
  transcribe_bytes user session msg [] w = (refused 400 (text "Empty audio"), w)
  transcribe_bytes user session msg (b ∷ bs) (log, s) =
      if ltb max_bytes (length (b ∷ bs))
      then (refused 413 (text "Audio too large (max 25 MB)"), (log, s))
      else after_raw user session msg (transcribe_audio (v.whisper (b ∷ bs) s))
          (log ++ transcribed (b ∷ bs) ∷ [], s)

  -- `POST` of transcribe-raw, with the file of the form.
  unfoldable pub post_transcribe_raw :
      Option Text → Option (List ℕ) → Option Text → Option Text → World → Answer Text × World
  unfolding transcribe_bytes
  post_transcribe_raw token file session msg (log, s) =
      need (user_of_token v.user_of token s) unauthorized
        (λ user.
          need file (refused 400 (text "audio field required")) (transcribe_bytes user session msg))
        (log, s)

-- What the database is known for: a row that is stored is found, and nothing else changes.
pub record IsTable (v : Services) : Type 0 where
  pub cached-upsert :
      (k : MessageKey) (t : Text) (s : v.State) (j : MessageKey)
      → v.cached j (v.upsert k t s) ≡ (if key_eq k j then some t else v.cached j s)
  pub owns-upsert :
      (k : MessageKey) (t : Text) (s : v.State) (user session : Text)
      → v.owns user session (v.upsert k t s) ≡ v.owns user session s
  pub user_of-upsert :
      (k : MessageKey) (t : Text) (s : v.State) (token : Text)
      → v.user_of token (v.upsert k t s) ≡ v.user_of token s
