-- ===== src/Scheduled/Planned.antt =====
-- When a message is planned.
use zapi_pwa.Base.{
  ℕ, ◌+◌, ◌*◌, ◌≤◌, ◌≡◌, ◌≢◌, refl, true, false, Option, none, some, [], ◌∷◌, ◌++◌, Text, arith,
}
use zapi_pwa.Routes.{need-elim, check-elim, IsError, truthy_text, Answer, answered, user_of_token}
use zapi_pwa.Scheduled.{
  Body, planned, Services, World, text_of, media_of, has_content, row_of, is_ahead, answer_of,
  perform, post_scheduled,
}

-- A body with a text that is not blank or with a file.
abbrev pub IsFilled : Body → Type 0
IsFilled b = text_of b ≡ none → media_of b ≢ none

filled : (b : Body) → has_content b ≡ true → IsFilled b
filled b h no_text no_media = let z : false ≡ true = rw (no_text, no_media) at h in cc

ahead : (now moment : ℕ) → is_ahead now moment ≡ true → now ≤ moment + 60 * 1000
ahead now moment h = ground arith

module _ (v : Services) where
  -- How a request ends.
  pub data Ends (token : Option Text) (b : Body) (w : World v) (out : Answer (Unit {0}) × World v)
      : Type 0 where
    refused_first : (a : Answer (Unit {0})) → out ≡ (a, w) → IsError a → Ends token b w out
    planned_once :
        (user session chat at : Text) (moment : ℕ)
        → user_of_token v.user_of token w.1 ≡ some user
        → truthy_text b.session_id ≡ some session
        → truthy_text b.chat_jid ≡ some chat
        → truthy_text b.scheduled_for ≡ some at
        → v.moment_of at ≡ some moment
        → IsFilled b
        → v.now w.1 ≤ moment + 60 * 1000
        → v.owns user session w.1 ≡ true
        → out ≡ (
          answer_of v (answered tt) (v.run (planned (row_of user session chat moment b)) w.1).0,
          (
            w.0 ++ planned (row_of user session chat moment b) ∷ [],
            (v.run (planned (row_of user session chat moment b)) w.1).1,
          ),
        )
        → Ends token b w out

  -- A message is planned only for the owner of the session, with a text that is not blank or a file,
  -- and at a moment that is at most a minute ago: then exactly one row is inserted, of that user,
  -- session, chat and moment, and its error is answered. Every other request is refused and changes
  -- nothing.
  pub post_scheduled-Ends :
      (token : Option Text) (b : Body) (w : World v) → Ends token b w (post_scheduled v token b w)
  unfolding post_scheduled perform
  post_scheduled-Ends token b (log, s) =
      let P : Answer (Unit {0}) × World v → Type 0 = Ends token b (log, s) in
      need-elim P _ _ _ _ (refused_first _ refl tt) λ user signed.
        need-elim P _ _ _ _ (refused_first _ refl tt) λ session a.
          need-elim P _ _ _ _ (refused_first _ refl tt) λ chat c.
            need-elim P _ _ _ _ (refused_first _ refl tt) λ at d.
              check-elim P _ _ _ _ (refused_first _ refl tt) λ content.
                need-elim P _ _ _ _ (refused_first _ refl tt) λ moment e.
                  check-elim P _ _ _ _ (refused_first _ refl tt) λ soon.
                    check-elim P _ _ _ _ (refused_first _ refl tt) λ own.
                      planned_once user session chat at moment signed a c d e (filled b content)
                        (ahead (v.now s) moment soon) own refl
