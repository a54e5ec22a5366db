-- ===== src/Transcribe/Owned.antt =====
-- What a request for a transcription may do, and for whom.
use zapi_pwa.Base.{
  ℕ, ◌≡◌, refl, subst, sym, ◌∙◌, true, false, none, text, Option, Option-cases, inl, inr, some,
  List, [], ◌∷◌, ◌++◌, append_assoc, Text,
}
use zapi_pwa.Effect.{Outcome, returned, thrown}
use zapi_pwa.OpenAi.{transcribe_audio}
use zapi_pwa.Routes.{
  need-both, check-both, absent, truthy_text, Answer, IsError, refused, failed, answered,
  user_of_token,
}
use zapi_pwa.Transcribe.{
  Media, error_status, bytes, MessageKey, Call, fetched, transcribed, stored, Services, Transcript,
  World, after_whisper, after_fetch, transcript_of, post_transcribe,
}

-- The caller of a request and the message it names.
pub record Allowed (v : Services) (token session msg chat : Option Text) (s : v.State)
    (key : MessageKey) (chat_jid : Text) : Type 0 where
  pub user : Text
  pub signed : user_of_token v.user_of token s ≡ some user
  pub session_given : truthy_text session ≡ some key.session
  pub msg_given : truthy_text msg ≡ some key.msg
  pub chat_given : truthy_text chat ≡ some chat_jid
  pub owner : v.owns user key.session s ≡ true

-- The answer where the gateway gives no audio.
pub data NoAudio : Outcome Media → Answer Transcript → Type 0 where
  threw : (e : Text) → NoAudio (thrown e) (failed e)
  bad_status :
      (n : Text)
      → NoAudio (returned (error_status n)) (refused 502 (text "Failed to fetch audio: HTTP " ++ n))
  empty : NoAudio (returned (bytes [])) (refused 502 (text "Empty audio"))

pub NoAudio-IsError : {res : Outcome Media} {a : Answer Transcript} → NoAudio res a → IsError a
NoAudio-IsError (threw e) = tt
NoAudio-IsError (bad_status n) = tt
NoAudio-IsError empty = tt

module _ (v : Services) where
  -- What a look-up leaves behind.
  pub data Looked (key : MessageKey) (chat : Text) (w : World v) (out : Answer Transcript × World v)
      : Type 0 where
    from_table :
        (t : Text)
        → truthy_text (v.cached key w.1) ≡ some t
        → out ≡ (answered (record { text = t; cached = true }), w)
        → Looked key chat w out
    no_audio :
        (e : Answer Transcript)
        → truthy_text (v.cached key w.1) ≡ none
        → NoAudio (v.fetch_media key chat w.1) e
        → out ≡ (e, (w.0 ++ fetched key chat ∷ [], w.1))
        → Looked key chat w out
    not_heard :
        (audio : List ℕ) (e : Text)
        → truthy_text (v.cached key w.1) ≡ none
        → v.fetch_media key chat w.1 ≡ returned (bytes audio)
        → transcribe_audio (v.whisper audio w.1) ≡ thrown e
        → out ≡ (refused 500 e, (w.0 ++ fetched key chat ∷ transcribed audio ∷ [], w.1))
        → Looked key chat w out
    heard :
        (audio : List ℕ) (t : Text)
        → truthy_text (v.cached key w.1) ≡ none
        → v.fetch_media key chat w.1 ≡ returned (bytes audio)
        → transcribe_audio (v.whisper audio w.1) ≡ returned t
        → out ≡ (
          answered (record { text = t; cached = false }),
          (w.0 ++ fetched key chat ∷ transcribed audio ∷ stored key t ∷ [], v.upsert key t w.1),
        )
        → Looked key chat w out

  whisper-Looked :
      (key : MessageKey) (chat : Text) (log : List Call) (s : v.State) (audio : List ℕ)
      (res : Outcome Text)
      → truthy_text (v.cached key s) ≡ none
      → v.fetch_media key chat s ≡ returned (bytes audio)
      → transcribe_audio (v.whisper audio s) ≡ res
      → Looked key chat
          (log, s)
          (after_whisper v key res ((log ++ fetched key chat ∷ []) ++ transcribed audio ∷ [], s))
  whisper-Looked key chat log s audio (thrown e) m f h =
      not_heard audio e m f h
        (rw (append_assoc log (fetched key chat ∷ []) (transcribed audio ∷ [])) refl)
  whisper-Looked key chat log s audio (returned t) m f h = heard audio t m f h (
      rw (append_assoc (log ++ fetched key chat ∷ []) (transcribed audio ∷ []) (stored key t ∷ []))
        (rw (append_assoc log (fetched key chat ∷ []) (transcribed audio ∷ stored key t ∷ []))
          refl))

  fetch-Looked :
      (key : MessageKey) (chat : Text) (log : List Call) (s : v.State) (res : Outcome Media)
      → truthy_text (v.cached key s) ≡ none
      → v.fetch_media key chat s ≡ res
      → Looked key chat (log, s) (after_fetch v key res (log ++ fetched key chat ∷ [], s))
  fetch-Looked key chat log s (thrown e) m f =
      no_audio _ m (subst (λ x. NoAudio x (failed e)) (sym f) (threw e)) refl
  fetch-Looked key chat log s (returned (error_status n)) m f =
      no_audio _ m
        (subst (λ x. NoAudio x (refused 502 (text "Failed to fetch audio: HTTP " ++ n))) (sym f)
          (bad_status n))
        refl
  fetch-Looked key chat log s (returned (bytes [])) m f =
      no_audio _ m (subst (λ x. NoAudio x (refused 502 (text "Empty audio"))) (sym f) empty) refl
  fetch-Looked key chat log s (returned (bytes (b ∷ bs))) m f =
      whisper-Looked key chat log s (b ∷ bs) _ m f refl

  transcript_of-Looked :
      (key : MessageKey) (chat : Text) (w : World v)
      → Looked key chat w (transcript_of v key chat w)
  unfolding transcript_of
  transcript_of-Looked key chat (log, s) = elim (Option-cases (truthy_text (v.cached key s))) [
    | inr (t, hit) ↦ from_table t hit (rw (hit, transcript_of) refl)
    | inl miss ↦ rw (miss, transcript_of) (fetch-Looked key chat log s _ miss refl)
  ]

  stranger :
      (user session' : Text) (token session msg chat : Option Text) (s : v.State)
      → user_of_token v.user_of token s ≡ some user
      → truthy_text session ≡ some session'
      → v.owns user session' s ≡ false
      → (key : MessageKey) (chat_jid : Text) → ¬ (Allowed v token session msg chat s key chat_jid)
  stranger user session' token session msg chat s signed given lack key chat_jid a =
      let e : some user ≡ some a.user = sym signed ∙ a.signed in
      let f : some session' ≡ some key.session = sym given ∙ a.session_given in
      let own : v.owns a.user key.session s ≡ true = a.owner in cc

  -- How a request ends; a refused one names no message that the caller may hear.
  pub data Ends (token session msg chat : Option Text) (w : World v)
      (out : Answer Transcript × World v) : Type 0 where
    nothing :
        (status : ℕ) (reason : Text)
        → ((key : MessageKey) (chat_jid : Text)
            → ¬ (Allowed v token session msg chat w.1 key chat_jid))
        → out ≡ (refused status reason, w)
        → Ends token session msg chat w out
    allowed :
        (key : MessageKey) (chat_jid : Text)
        → Allowed v token session msg chat w.1 key chat_jid
        → Looked key chat_jid w out
        → Ends token session msg chat w out

  pub post_transcribe-Ends :
      (token session msg chat : Option Text) (w : World v)
      → Ends token session msg chat w (post_transcribe v token session msg chat w)
  unfolding post_transcribe
  post_transcribe-Ends token session msg chat (log, s) =
      let P : Answer Transcript × World v → Type 0 = Ends token session msg chat (log, s) in
      need-both P _ _ _ _ (λ lack. nothing _ _ (λ k c a. absent lack a.signed) refl)
        λ user signed.
          need-both P _ _ _ _ (λ lack. nothing _ _ (λ k c a. absent lack a.session_given) refl)
            λ session' a.
              need-both P _ _ _ _ (λ lack. nothing _ _ (λ k c a. absent lack a.msg_given) refl)
                λ msg' b.
                  need-both P _ _ _ _ (λ lack. nothing _ _ (λ k c a. absent lack a.chat_given) refl)
                    λ chat' c.
                      check-both P _ _ _ _
                        (λ lack.
                          nothing _ _
                            (stranger user session' token session msg chat s signed a lack) refl)
                        λ own.
                          allowed (record { session = session'; msg = msg' }) chat'
                            (record {
                              user = user;
                              signed = signed;
                              session_given = a;
                              msg_given = b;
                              chat_given = c;
                              owner = own;
                            })
                            (transcript_of-Looked _ chat' (log, s))
