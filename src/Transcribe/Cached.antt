-- ===== src/Transcribe/Cached.antt =====
-- A text that was got once is read from the table.
use zapi_pwa.Base.{
  ◌≡◌, refl, sym, subst, ◌∙◌, ap, true, false, Bool-cases, Option, inl, inr, none, some, List, [],
  ◌∷◌, ◌++◌, Text, text, text_eq_refl,
}
use zapi_pwa.Effect.{Outcome, returned, thrown}
use zapi_pwa.Strings.{trim}
use zapi_pwa.OpenAi.{transcribe_audio, is_whisper_hallucination}
use zapi_pwa.Routes.{need-some, check-true, truthy_text, refused, failed, answered, user_of_token}
use zapi_pwa.Transcribe.{
  fetched, MessageKey, key_eq, Call, transcribed, stored, Services, World, IsTable, transcript_of,
  post_transcribe,
}
use zapi_pwa.Transcribe.Owned.{
  Allowed, NoAudio-IsError, Looked, from_table, no_audio, not_heard, heard, Ends, nothing, allowed,
  post_transcribe-Ends,
}

-- A text that is heard is not empty.
pub heard_truthy :
    (o : Outcome Text) (t : Text) → transcribe_audio o ≡ returned t → truthy_text (some t) ≡ some t
unfolding transcribe_audio is_whisper_hallucination trim
heard_truthy o (c ∷ t) h = refl
heard_truthy (thrown e) [] h = cc
heard_truthy (returned []) [] h = cc
heard_truthy (returned (c ∷ a)) [] h = elim (Bool-cases (is_whisper_hallucination (c ∷ a))) [
  | inl invented ↦
      let k : thrown (text "whisper hallucination detected") ≡ returned [] =
        rw (invented, transcribe_audio) at h in
      cc
  | inr good ↦ let k : returned (c ∷ a) ≡ returned [] = rw (good, transcribe_audio) at h in cc
]

key_eq_refl : (k : MessageKey) → key_eq k k ≡ true
key_eq_refl k = rw (text_eq_refl k.session) (text_eq_refl k.msg)

module _ (v : Services) where
  token-upsert :
      (table : IsTable v) (k : MessageKey) (t : Text) (s : v.State) (token : Option Text)
      → user_of_token v.user_of token (v.upsert k t s) ≡ user_of_token v.user_of token s
  token-upsert table k t s none = refl
  token-upsert table k t s (some []) = refl
  token-upsert table k t s (some (c ∷ token)) = table.user_of-upsert k t s (c ∷ token)

  -- A request whose text is in the table.
  hit :
      (token session msg chat : Option Text) (w : World v) (key : MessageKey) (chat_jid t : Text)
      → Allowed v token session msg chat w.1 key chat_jid
      → truthy_text (v.cached key w.1) ≡ some t
      → post_transcribe v token session msg chat w
        ≡ (answered (record { text = t; cached = true }), w)
  unfolding post_transcribe transcript_of
  hit token session msg chat (log, s) key chat_jid t a found =
      need-some _ _ _ _ a.signed
      ∙ need-some _ _ _ _ a.session_given
      ∙ need-some _ _ _ _ a.msg_given
      ∙ need-some _ _ _ _ a.chat_given
      ∙ check-true _ _ _ _ a.owner
      ∙ rw (found, transcript_of) refl

  -- A stored text is found by the next request of the same caller.
  pub stored_hit :
      (table : IsTable v) (token session msg chat : Option Text) (log log' : List Call)
      (s : v.State) (key : MessageKey) (chat_jid t : Text)
      → Allowed v token session msg chat s key chat_jid
      → truthy_text (some t) ≡ some t
      → post_transcribe v token session msg chat (log', v.upsert key t s)
        ≡ (answered (record { text = t; cached = true }), (log', v.upsert key t s))
  stored_hit table token session msg chat log log' s key chat_jid t a h =
      hit token session msg chat (log', v.upsert key t s) key chat_jid t
        (record {
          user = a.user;
          signed = token-upsert table key t s token ∙ a.signed;
          session_given = a.session_given;
          msg_given = a.msg_given;
          chat_given = a.chat_given;
          owner = table.owns-upsert key t s a.user key.session ∙ a.owner;
        })
        (rw (table.cached-upsert key t s key) (rw (key_eq_refl key) h))

  -- After a transcription was got and stored, the same request is answered with the same text from
  -- the table, and nothing is fetched, transcribed or stored.
  pub post_transcribe_cached :
      (table : IsTable v) (token session msg chat : Option Text) (w w' : World v) (t : Text)
      → post_transcribe v token session msg chat w
        ≡ (answered (record { text = t; cached = false }), w')
      → post_transcribe v token session msg chat w'
        ≡ (answered (record { text = t; cached = true }), w')
  post_transcribe_cached table token session msg chat (log, s) (log', s') t h =
      again (post_transcribe-Ends v token session msg chat (log, s))
    where
      looked :
          (key : MessageKey) (chat_jid : Text)
          → Allowed v token session msg chat s key chat_jid
          → Looked v key chat_jid (log, s) (post_transcribe v token session msg chat (log, s))
          → post_transcribe v token session msg chat (log', s')
            ≡ (answered (record { text = t; cached = true }), (log', s'))
      looked key chat_jid a (from_table u e k) = cc
      looked key chat_jid a (no_audio (refused status e) m p k) = cc
      looked key chat_jid a (no_audio (failed e) m p k) = cc
      looked key chat_jid a (no_audio (answered u) m p k) = absurd (NoAudio-IsError p)
      looked key chat_jid a (not_heard audio e m f g k) = cc
      looked key chat_jid a (heard audio u m f g k) =
          let calls = log ++ fetched key chat_jid ∷ transcribed audio ∷ stored key u ∷ [] in
          let same_text : u ≡ t = cc in
          let same_world : (calls, v.upsert key u s) ≡ (log', s') = ap (λ o. o.1) (sym k ∙ h) in
          let P : World v → Type 0 = λ x.
            post_transcribe v token session msg chat x
            ≡ (answered (record { text = t; cached = true }), x) in
          subst P same_world (
            stored_hit table token session msg chat log calls s key chat_jid u a
              (heard_truthy _ u g)
            ∙ ap (λ x. (answered (record { text = x; cached = true }), (calls, v.upsert key u s)))
                same_text)

      again :
          Ends v token session msg chat (log, s) (post_transcribe v token session msg chat (log, s))
          → post_transcribe v token session msg chat (log', s')
            ≡ (answered (record { text = t; cached = true }), (log', s'))
      again (nothing status reason lack e) = cc
      again (allowed key chat_jid a l) = looked key chat_jid a l
