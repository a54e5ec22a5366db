-- ===== src/Transcribe/Raw.antt =====
-- Audio that the caller sends itself.
use zapi_pwa.Base.{
  ℕ, ◌≡◌, refl, sym, subst, ◌∙◌, ap, true, false, Bool-cases, Option, inl, inr, some, List, [], ◌∷◌,
  ◌++◌, ltb, length, Text, text,
}
use zapi_pwa.Effect.{Outcome, returned, thrown}
use zapi_pwa.OpenAi.{transcribe_audio}
use zapi_pwa.Routes.{need-elim, truthy_text, Answer, refused, answered, user_of_token}
use zapi_pwa.Transcribe.{
  MessageKey, Call, transcribed, stored, Services, World, IsTable, persist, after_raw,
  transcribe_bytes, post_transcribe, post_transcribe_raw, max_bytes,
}
use zapi_pwa.Transcribe.Owned.{Allowed}
use zapi_pwa.Transcribe.Cached.{heard_truthy, stored_hit}

module _ (v : Services) where
  -- How a request with audio ends.
  pub data RawEnds (token : Option Text) (file : Option (List ℕ)) (session msg : Option Text)
      (w : World v) (out : Answer Text × World v) : Type 0 where
    nothing :
        (status : ℕ) (reason : Text)
        → out ≡ (refused status reason, w)
        → RawEnds token file session msg w out
    not_heard :
        (audio : List ℕ) (e : Text)
        → out ≡ (refused 500 e, (w.0 ++ transcribed audio ∷ [], w.1))
        → RawEnds token file session msg w out
    heard :
        (user : Text) (audio : List ℕ) (t : Text)
        → user_of_token v.user_of token w.1 ≡ some user
        → file ≡ some audio
        → ltb max_bytes (length audio) ≡ false
        → transcribe_audio (v.whisper audio w.1) ≡ returned t
        → out ≡ (
          answered t,
          persist v user
              (truthy_text session)
              (truthy_text msg)
              t
              (w.0 ++ transcribed audio ∷ [], w.1),
        )
        → RawEnds token file session msg w out

  raw-RawEnds :
      (token : Option Text) (file : Option (List ℕ)) (session msg : Option Text) (log : List Call)
      (s : v.State) (user : Text) (audio : List ℕ) (res : Outcome Text)
      → user_of_token v.user_of token s ≡ some user
      → file ≡ some audio
      → ltb max_bytes (length audio) ≡ false
      → transcribe_audio (v.whisper audio s) ≡ res
      → RawEnds token file session msg
          (log, s)
          (after_raw v user session msg res (log ++ transcribed audio ∷ [], s))
  raw-RawEnds token file session msg log s user audio (thrown e) a f l h = not_heard audio e refl
  raw-RawEnds token file session msg log s user audio (returned t) a f l h =
      heard user audio t a f l h refl

  bytes-RawEnds :
      (token : Option Text) (file : Option (List ℕ)) (session msg : Option Text) (log : List Call)
      (s : v.State) (user : Text) (audio : List ℕ)
      → user_of_token v.user_of token s ≡ some user
      → file ≡ some audio
      → RawEnds token file session msg (log, s) (transcribe_bytes v user session msg audio (log, s))
  unfolding transcribe_bytes
  bytes-RawEnds token file session msg log s user [] a f = nothing 400 (text "Empty audio") refl
  bytes-RawEnds token file session msg log s user (b ∷ bs) a f =
      elim (Bool-cases (ltb max_bytes (length (b ∷ bs)))) [
        | inl large ↦ rw large (nothing 413 (text "Audio too large (max 25 MB)") refl)
        | inr fits ↦
            rw fits (raw-RawEnds token file session msg log s user (b ∷ bs) _ a f fits refl)
      ]

  post_raw-RawEnds :
      (token : Option Text) (file : Option (List ℕ)) (session msg : Option Text) (w : World v)
      → RawEnds token file session msg w (post_transcribe_raw v token file session msg w)
  unfolding post_transcribe_raw
  post_raw-RawEnds token file session msg (log, s) =
      let P : Answer Text × World v → Type 0 = RawEnds token file session msg (log, s) in
      need-elim P _ _ _ _ (nothing _ _ refl) λ user a.
        need-elim P _ _ _ _ (nothing _ _ refl)
          λ audio f. bytes-RawEnds token file session msg log s user audio a f

  -- When audio was sent for a message of a session of the caller's own, and a text was heard in it,
  -- the route that transcribes messages answers with that text from then on, and fetches and
  -- transcribes nothing.
  pub post_transcribe_raw_cached :
      (table : IsTable v) (token : Option Text) (file : Option (List ℕ))
      (session msg chat : Option Text) (w w' : World v) (key : MessageKey) (chat_jid t : Text)
      → Allowed v token session msg chat w.1 key chat_jid
      → post_transcribe_raw v token file session msg w ≡ (answered t, w')
      → post_transcribe v token session msg chat w'
        ≡ (answered (record { text = t; cached = true }), w')
  post_transcribe_raw_cached table token file session msg chat (log, s) w' key chat_jid t a h =
      looked (post_raw-RawEnds token file session msg (log, s))
    where
      looked :
          RawEnds token file session msg
            (log, s)
            (post_transcribe_raw v token file session msg (log, s))
          → post_transcribe v token session msg chat w'
            ≡ (answered (record { text = t; cached = true }), w')
      looked (nothing status reason e) = cc
      looked (not_heard audio e k) = cc
      looked (heard user audio u b f l g k) =
          let calls = (log ++ transcribed audio ∷ []) ++ stored key u ∷ [] in
          let same_user : user ≡ a.user = cc in
          let owned : v.owns user key.session s ≡ true = rw same_user a.owner in
          let kept : persist v user (truthy_text session) (truthy_text msg) u
                (log ++ transcribed audio ∷ [], s)
              ≡ (calls, v.upsert key u s) =
            rw a.session_given (rw a.msg_given (rw owned refl)) in
          let same_text : u ≡ t = cc in
          let same_world : (calls, v.upsert key u s) ≡ w' = sym kept ∙ ap (λ o. o.1) (sym k ∙ h) in
          let P : World v → Type 0 = λ x.
            post_transcribe v token session msg chat x
            ≡ (answered (record { text = t; cached = true }), x) in
          subst P same_world (
            stored_hit v table token session msg chat log calls s key chat_jid u a
              (heard_truthy _ u g)
            ∙ ap (λ x. (answered (record { text = x; cached = true }), (calls, v.upsert key u s)))
                same_text)
