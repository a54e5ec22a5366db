-- ===== src/Tasks/Direct/Sent.antt =====
-- When a direct message is sent, and what it says.
use zapi_pwa.Base.{ℕ, ◌≡◌, true, Option, some, [], ◌∷◌, ◌++◌, Text}
use zapi_pwa.Routes.{need-elim, check-elim, Answer, refused, user_of_token}
use zapi_pwa.Tasks.Direct.{Services, World, dm_session, after_send, post_dm}

module _ (v : Services) where
  -- How a request for a direct message ends.
  pub data Ends (token : Option Text) (id : Text) (payload : Option (Text × Text)) (w : World v)
      : Answer (Unit {0}) × World v → Type 0 where
    -- Nothing was sent.
    not_sent : (status : ℕ) (reason : Text) → Ends token id payload w (refused status reason, w)
    -- The message was handed to the gateway, whose answer is passed on.
    handed_over :
        (user session to message : Text)
        → user_of_token v.user_of token w.1 ≡ some user
        → payload ≡ some (to, message)
        → dm_session v user id w.1 ≡ some session
        → v.is_participant id to w.1 ≡ true
        → Ends token id payload w (
            after_send v
              (w.0 ++ record { session = session; to = to; message = message } ∷ [])
              (v.send session to message w.1))

  -- A direct message is sent only for a signed-in user, with a payload, to a contact that is a
  -- participant of the task, once, and through the session of the task or else one of the user's;
  -- the answer tells whether the gateway took it. Any other request is refused, and changes and
  -- sends nothing.
  pub post_dm-Ends :
      (token : Option Text) (id : Text) (payload : Option (Text × Text)) (w : World v)
      → Ends token id payload w (post_dm v token id payload w)
  unfolding post_dm
  post_dm-Ends token id payload (log, s) =
      let P : Answer (Unit {0}) × World v → Type 0 = Ends token id payload (log, s) in
      need-elim P _ _ _ _ (not_sent _ _) λ user signed.
        need-elim P _ _ _ _ (not_sent _ _) λ p given.
          need-elim P _ _ _ _ (not_sent _ _) λ session bound.
            check-elim P _ _ _ _ (not_sent _ _)
              λ member. handed_over user session p.0 p.1 signed given bound member
