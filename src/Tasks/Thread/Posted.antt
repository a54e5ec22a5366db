-- ===== src/Tasks/Thread/Posted.antt =====
-- Where a message about a task goes.
use zapi_pwa.Base.{
  ℕ, ◌≡◌, refl, true, false, Bool-cases, inl, inr, Option, none, some, [], ◌∷◌, ◌++◌, Text,
}
use zapi_pwa.Routes.{need-elim, truthy_text, Answer, refused, user_of_token}
use zapi_pwa.Tasks.Thread.{
  Services, NewMessage, Posting, comment_stored, sent, World, group_of, task_session, after_insert,
  after_send, store_comment, send_if, send_to_group, post_message,
}

module _ (v : Services) where
  -- How a new message ends.
  pub data Posted (token : Option Text) (id : Text) (payload : Option NewMessage) (w : World v)
      : Answer Posting × World v → Type 0 where
    nothing : (status : ℕ) (reason : Text) → Posted token id payload w (refused status reason, w)
    commented :
        (user : Text) (m : NewMessage)
        → user_of_token v.user_of token w.1 ≡ some user
        → payload ≡ some m
        → m.internal ≡ true
        → Posted token id payload w (
            after_insert v
              (w.0 ++ comment_stored id user m.body (v.now w.1) ∷ [])
              (v.insert_comment id user m.body (v.now w.1) w.1))
    sent_to_group :
        (user group session : Text) (m : NewMessage)
        → user_of_token v.user_of token w.1 ≡ some user
        → payload ≡ some m
        → m.internal ≡ false
        → truthy_text (group_of (v.find_task id w.1)) ≡ some group
        → task_session v (v.find_task id w.1) w.1 ≡ some session
        → Posted token id payload w (
            after_send v group
              (w.0 ++ sent session group m.body ∷ [])
              (v.send session group m.body w.1))

  send_if-Posted :
      (token : Option Text) (id : Text) (payload : Option NewMessage) (w : World v) (user : Text)
      (m : NewMessage) (group session : Option Text)
      → user_of_token v.user_of token w.1 ≡ some user
      → payload ≡ some m
      → m.internal ≡ false
      → truthy_text (group_of (v.find_task id w.1)) ≡ group
      → task_session v (v.find_task id w.1) w.1 ≡ session
      → Posted token id payload w (send_if v group session m.body w)
  send_if-Posted token id payload w user m none session signed given shown g b = nothing _ _
  send_if-Posted token id payload w user m (some group) none signed given shown g b = nothing _ _
  send_if-Posted token id payload w user m (some group) (some session) signed given shown g b =
      sent_to_group user group session m signed given shown g b

  -- A message of a signed-in user is stored as an internal comment with its time if it is internal,
  -- and else sent once into the group of the task, through the session of its instance. Every other
  -- request, such as one for a task without a group, is refused, and stores and sends nothing.
  pub post_message-Posted :
      (token : Option Text) (id : Text) (payload : Option NewMessage) (w : World v)
      → Posted token id payload w (post_message v token id payload w)
  unfolding post_message send_to_group store_comment
  post_message-Posted token id payload (log, s) =
      let P : Answer Posting × World v → Type 0 = Posted token id payload (log, s) in
      need-elim P _ _ _ _ (nothing _ _) λ user signed. need-elim P _ _ _ _ (nothing _ _) λ m given.
        elim (Bool-cases m.internal) [
          | inl hidden ↦ rw hidden (commented user m signed given hidden)
          | inr shown ↦
              rw shown
                (send_if-Posted token id payload (log, s) user m _ _ signed given shown refl refl)
        ]
