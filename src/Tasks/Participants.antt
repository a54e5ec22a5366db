-- ===== src/Tasks/Participants.antt =====
-- packages/pwa/src/app/api/tasks/[id]/participants/route.ts: a contact or a user joins a task, and
-- its WhatsApp group with it. The calls that change something are recorded in a log, newest last.
pub mod Joining
use zapi_pwa.Base.{
  ℕ, Bool, true, false, Option, none, some, List, [], ◌∷◌, ◌++◌, if◌then◌else◌, Text, text, take,
}
use zapi_pwa.Effect.{Outcome, returned, thrown}
use zapi_pwa.Routes.{
  need, truthy_text, or_null, Answer, refused, failed, answered, unauthorized, user_of_token,
}

-- The columns of a task that are read.
pub record TaskInfo : Type 0 where
  pub title : Text
  pub description : Option Text
  pub wa_group_jid : Option Text
  pub wa_instance_id : Option Text

-- The body that the schema gives.
pub record NewParticipant : Type 0 where
  pub contact_jid : Option Text
  pub contact_name : Option Text
  pub user_id : Option Text
  pub role : Text

pub record ParticipantRow : Type 0 where
  pub task_id : Text
  pub user_id : Option Text
  pub contact_jid : Option Text
  pub contact_name : Option Text
  pub instance_id : Option Text
  pub role : Text
  pub joined_group_at : Option Text
  pub join_failure : Option Text

-- The response of the gateway: success with what it sends, or an error with its text.
pub data Response : Type 0 where
  ok : Text → Response
  not_ok : Text → Response

pub data Call : Type 0 where
  group_requested : Text → Text → Text → Call
  group_set : Text → Text → Option Text → Call
  invited : Text → Text → Text → Call
  added : Text → Text → Text → Call
  removed : Text → Text → Text → Call
  row_inserted : ParticipantRow → Call
  row_deleted : Text → Text → Call

pub record Services : Type 1 where
  pub State : Type 0
  pub user_of : Text → State → Option Text
  pub find_task : Text → State → Option TaskInfo
  pub session_of : Text → State → Option Text
  -- The first instance of a user that has a session, with the session.
  pub first_instance : Text → State → Option (Text × Text)
  pub contact_of : Text → Text → State → Option Text
  pub now : State → Text
  -- `ok` brings the identifier of the new group.
  pub create_group : Text → Text → Text → State → Outcome Response × State
  pub set_group : Text → Text → Option Text → State → State
  pub send : Text → Text → Text → State → Outcome (Unit {0}) × State
  pub add_member : Text → Text → Text → State → Outcome Response × State
  pub remove_member : Text → Text → Text → State → State
  pub insert_row : ParticipantRow → State → Outcome ParticipantRow × State
  pub delete_row : Text → Text → State → Outcome (Unit {0}) × State

abbrev pub title_of : Option TaskInfo → Text
title_of none = []
title_of (some task) = task.title

abbrev pub description_of : Option TaskInfo → Option Text
description_of none = none
description_of (some task) = task.description

abbrev pub group_of : Option TaskInfo → Option Text
group_of none = none
group_of (some task) = task.wa_group_jid

abbrev pub instance_of : Option TaskInfo → Option Text
instance_of none = none
instance_of (some task) = task.wa_instance_id

unfoldable pub group_name : Option TaskInfo → Text
group_name task = take 25 (text "falabem " ++ title_of task)

unfoldable pub invitation : Option TaskInfo → Text
invitation task =
    let header =
      text "📋 *"
      ++ (title_of task ++ text "*\n\nResponda para participar na resolução da tarefa.") in
    elim (truthy_text (description_of task)) [ none ↦ header | some d ↦ header ++ 10 ∷ 10 ∷ d ]

-- The session to join through, and the instance that goes into the row.
pub record Target : Type 0 where
  pub session : Option Text
  pub instance : Option Text

module _ (v : Services) where
  abbrev pub World : Type 0
  World = List Call × v.State

  abbrev pub own_target : Option Text → v.State → Target
  own_target none s = record { session = none; instance = none }
  own_target (some []) s = record { session = none; instance = some [] }
  own_target (some (c ∷ i)) s = record { session = v.session_of (c ∷ i) s; instance = some (c ∷ i) }

  abbrev pub fallback : Option (Text × Text) → Target → Target
  fallback (some (i, c ∷ session)) t = record { session = some (c ∷ session); instance = some i }
  fallback _ t = t

  -- The session of the task, or for a contact else the first of the user.
  unfoldable pub target_of : Text → Option TaskInfo → Option Text → v.State → Target
  target_of user task contact s =
      let t = own_target (instance_of task) s in
      elim (truthy_text contact) [
        | none ↦ t
        | some c ↦ elim (truthy_text t.session) [
          | none ↦ fallback (v.first_instance user s) t
          | some session ↦ t
        ]
      ]

  abbrev pub after_invitation : List Call → Outcome (Unit {0}) × v.State → Option Text × World
  after_invitation log (thrown e, s) = (some (take 400 e), (log, s))
  after_invitation log (returned _, s) = (none, (log, s))

  -- The new group becomes that of the task, and the invitation is sent into it.
  unfoldable pub bind_group :
      Text → Option TaskInfo → Text → Option Text → Text → World → Option Text × World
  bind_group id task session instance jid (log, s) =
      let message = invitation task in
      after_invitation (log ++ group_set id jid instance ∷ invited session jid message ∷ [])
        (v.send session jid message (v.set_group id jid instance s))

  abbrev pub after_creation :
      Text
      → Option TaskInfo
      → Text
      → Option Text
      → List Call
      → Outcome Response × v.State
      → Option Text × World
  after_creation id task session instance log (thrown e, s) = (some (take 400 e), (log, s))
  after_creation id task session instance log (returned (not_ok e), s) =
      (some (take 400 e), (log, s))
  after_creation id task session instance log (returned (ok jid), s) =
      bind_group id task session instance jid (log, s)

  abbrev pub after_addition : List Call → Outcome Response × v.State → Option Text × World
  after_addition log (thrown e, s) = (some (take 400 e), (log, s))
  after_addition log (returned (not_ok e), s) = (some (take 400 e), (log, s))
  after_addition log (returned (ok _), s) = (none, (log, s))

  -- The contact joins the group, which is made if there is none; the result is `joinFailure`.
  unfoldable pub join_group :
      Text → Option TaskInfo → Text → Text → Option Text → World → Option Text × World
  unfolding group_name invitation bind_group
  join_group id task contact session instance (log, s) = elim (truthy_text (group_of task)) [
    | none ↦
        after_creation id task session instance
          (log ++ group_requested session (group_name task) contact ∷ [])
          (v.create_group session (group_name task) contact s)
    | some jid ↦
        after_addition (log ++ added session jid contact ∷ []) (v.add_member session jid contact s)
  ]

  abbrev pub join_if :
      Text → Option TaskInfo → Option Text → Option Text → Option Text → World → Option Text × World
  join_if id task (some contact) (some session) instance w =
      join_group id task contact session instance w
  join_if id task _ _ instance w = (none, w)

  abbrev pub participant_row :
      Text → NewParticipant → Option Text → Option Text → Text → ParticipantRow
  participant_row id body instance failure now = record {
    task_id = id;
    user_id = body.user_id;
    contact_jid = body.contact_jid;
    contact_name = body.contact_name;
    instance_id = instance;
    role = body.role;
    joined_group_at = elim (truthy_text failure) [ none ↦ some now | some e ↦ none ];
    join_failure = failure;
  }

  abbrev pub after_insert :
      List Call → Outcome ParticipantRow × v.State → Answer ParticipantRow × World
  after_insert log (thrown e, s) = (refused 500 e, (log, s))
  after_insert log (returned row, s) = (answered row, (log, s))

  unfoldable pub insert_participant :
      Text → NewParticipant → Option Text → Option Text × World → Answer ParticipantRow × World
  insert_participant id body instance (failure, (log, s)) =
      let row = participant_row id body instance failure (v.now s) in
      after_insert (log ++ row_inserted row ∷ []) (v.insert_row row s)

  -- What follows the schema, for a user.
  unfoldable pub add_participant :
      Text → Text → NewParticipant → World → Answer ParticipantRow × World
  unfolding target_of join_group insert_participant
  add_participant user id body (log, s) =
      let task = v.find_task id s in
      let t = target_of user task body.contact_jid s in
      insert_participant id body t.instance
        (join_if id task (truthy_text body.contact_jid) (truthy_text t.session) t.instance (log, s))

  -- `POST`
  unfoldable pub post_participant :
      Option Text → Text → Option NewParticipant → World → Answer ParticipantRow × World
  post_participant token id payload (log, s) =
      need (user_of_token v.user_of token s) unauthorized
        (λ user.
          need payload (refused 400 (text "invalid payload"))
            (λ body. add_participant user id body))
        (log, s)

  abbrev pub task_session : Option Text → v.State → Option Text
  task_session none s = none
  task_session (some i) s = truthy_text (v.session_of i s)

  abbrev pub remove_from : Option Text → Option Text → Text → World → World
  remove_from (some group) (some session) contact (log, s) =
      (log ++ removed session group contact ∷ [], v.remove_member session group contact s)
  remove_from _ _ contact w = w

  abbrev pub leave_group : Text → Option Text → World → World
  leave_group id none w = w
  leave_group id (some contact) (log, s) =
      let task = v.find_task id s in
      remove_from (truthy_text (group_of task)) (task_session (truthy_text (instance_of task)) s)
        contact (log, s)

  abbrev pub after_deletion : List Call → Outcome (Unit {0}) × v.State → Answer (Unit {0}) × World
  after_deletion log (thrown e, s) = (refused 500 e, (log, s))
  after_deletion log (returned _, s) = (answered tt, (log, s))

  unfoldable pub delete_participant : Text → Text → World → Answer (Unit {0}) × World
  delete_participant id participant_id (log, s) =
      let (log', s') = leave_group id (truthy_text (v.contact_of participant_id id s)) (log, s) in
      after_deletion (log' ++ row_deleted participant_id id ∷ [])
        (v.delete_row participant_id id s')

  -- `DELETE`
  unfoldable pub remove_participant :
      Option Text → Text → Option Text → World → Answer (Unit {0}) × World
  unfolding delete_participant
  remove_participant token id participant (log, s) =
      need (user_of_token v.user_of token s) unauthorized
        (λ user.
          need (truthy_text participant) (refused 400 (text "participantId required"))
            (λ p. delete_participant id p))
        (log, s)
