-- ===== src/Tasks/Direct.antt =====
-- packages/pwa/src/app/api/tasks/[id]/dm/route.ts: a direct message to a participant of a task. The
-- messages that are sent are recorded in a log, newest last.
pub mod Sent
use zapi_pwa.Base.{
  ℕ, Bool, true, false, Option, none, some, List, [], ◌∷◌, ◌++◌, if◌then◌else◌, Text, text,
}
use zapi_pwa.Effect.{Outcome, returned, thrown}
use zapi_pwa.Routes.{
  need, check, truthy_text, or_text, Answer, refused, failed, answered, unauthorized, user_of_token,
}

pub record Services : Type 1 where
  pub State : Type 0
  pub user_of : Text → State → Option Text
  -- The instance of a task, or null.
  pub instance_of_task : Text → State → Option Text
  pub session_of : Text → State → Option Text
  -- The session of the first instance of a user that has one.
  pub first_session : Text → State → Option Text
  pub is_participant : Text → Text → State → Bool
  -- Whether the gateway answered with success.
  pub send : Text → Text → Text → State → Outcome Bool × State

-- A message with its session and its receiver.
pub record Sending : Type 0 where
  pub session : Text
  pub to : Text
  pub message : Text

module _ (v : Services) where
  abbrev pub World : Type 0
  World = List Sending × v.State

  -- The session of the instance of a task.
  unfoldable pub task_session : Text → v.State → Option Text
  task_session id s = elim (truthy_text (v.instance_of_task id s)) [
    | none ↦ none
    | some i ↦ v.session_of i s
  ]

  -- With the session of the user for a task without one.
  unfoldable pub dm_session : Text → Text → v.State → Option Text
  unfolding task_session
  dm_session user id s = truthy_text (or_text (task_session id s) (v.first_session user s))

  abbrev pub after_send : List Sending → Outcome Bool × v.State → Answer (Unit {0}) × World
  after_send log (thrown e, s) = (failed e, (log, s))
  after_send log (returned true, s) = (answered tt, (log, s))
  after_send log (returned false, s) = (refused 502 (text "send failed"), (log, s))

  -- The message to `to`, through `session`.
  unfoldable pub send_direct : Text → Text → Text → World → Answer (Unit {0}) × World
  send_direct session to message (log, s) =
      after_send (log ++ record { session = session; to = to; message = message } ∷ [])
        (v.send session to message s)

  -- `POST`, with the receiver and the message that the schema gives.
  unfoldable pub post_dm :
      Option Text → Text → Option (Text × Text) → World → Answer (Unit {0}) × World
  unfolding dm_session send_direct
  post_dm token id payload (log, s) =
      need (user_of_token v.user_of token s) unauthorized
        (λ user. need payload (refused 400 (text "invalid payload")) (λ p.
          need (dm_session user id s) (refused 400 (text "no connected WhatsApp instance found"))
            (λ session.
              check (v.is_participant id p.0 s)
                (refused 403 (text "contact is not a participant of this task"))
                (send_direct session p.0 p.1))))
        (log, s)
