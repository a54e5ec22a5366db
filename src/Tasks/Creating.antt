-- ===== src/Tasks/Creating.antt =====
-- `POST` of packages/pwa/src/app/api/tasks/route.ts: a task with its participants and, where it is
-- asked for, its WhatsApp group. The inserts and the calls are recorded in a log, newest last.
pub mod Rows
use zapi_pwa.Base.{
  ℕ, Bool, true, false, Option, none, some, List, [], ◌∷◌, ◌++◌, map, if◌then◌else◌, Text, text,
  take,
}
use zapi_pwa.Effect.{Outcome, returned, thrown}

pub record User : Type 0 where
  pub id : Text
  pub full_name : Option Text
  pub email : Option Text

pub record Seed : Type 0 where
  pub contact_jid : Text
  pub contact_name : Option Text

-- The body that the schema gives.
pub record NewTask : Type 0 where
  pub title : Text
  pub description : Option Text
  pub priority : Option Text
  pub due_date : Option Text
  pub instance_id : Option Text
  pub participants : List Seed

pub record TaskRow : Type 0 where
  pub creator_id : Text
  pub title : Text
  pub description : Option Text
  pub priority : Text
  pub due_date : Option Text
  pub wa_instance_id : Option Text

-- A row of `task_participants`; the user, the contact, its name, the instance, the role, and what
-- went wrong with the group.
pub data ParticipantRow : Type 0 where
  owner : Text → Option Text → ParticipantRow
  participant : Text → Option Text → Text → ParticipantRow
  observer : Text → Text → ParticipantRow

-- The response of the gateway to the creation of a group.
pub data GroupReply : Type 0 where
  created : Text → Text → GroupReply
  rejected : Text → GroupReply

pub data Call : Type 0 where
  task_inserted : TaskRow → Call
  participant_inserted : ParticipantRow → Call
  group_requested : Text → Text → List Text → Call
  group_set : Text → Text → Call
  invited : Text → Text → Text → Call

pub record Services : Type 1 where
  pub State : Type 0
  pub session_of : Text → Text → State → Option Text
  pub insert_task : TaskRow → State → Outcome Text × State
  pub insert_participant : ParticipantRow → State → State
  pub create_group : Text → Text → List Text → State → Outcome GroupReply × State
  pub set_group : Text → Text → State → State
  pub send : Text → Text → Text → State → Outcome (Unit {0}) × State

pub data Answer : Type 0 where
  refused : ℕ → Text → Answer
  made : Text → Option (Text × Text) → Answer

-- `a || b` where the last one may be missing
abbrev or_else : Option Text → Option Text → Option Text
or_else (some (c ∷ s)) b = some (c ∷ s)
or_else _ (some (c ∷ s)) = some (c ∷ s)
or_else _ _ = none

abbrev pub or_text : Option Text → Text → Text
or_text none t = t
or_text (some s) t = s

abbrev pub owner_name : User → Option Text
owner_name user = or_else user.full_name user.email

-- `buildInvitationText`
unfoldable pub invitation_text : Text → Text → Option Text → Text
invitation_text host title description =
    let header =
      text "📋 *"
      ++ (title
          ++ (text "*\n\nResponda para participar, a convite de *"
              ++ (host ++ text "*, na resolução da tarefa."))) in
    elim description [ some (c ∷ s) ↦ header ++ 10 ∷ 10 ∷ c ∷ s | some [] ↦ header | none ↦ header ]

abbrev pub task_row : User → NewTask → Option Text → TaskRow
task_row user body instance_id = record {
  creator_id = user.id;
  title = body.title;
  description = body.description;
  priority = or_text body.priority (text "medium");
  due_date = body.due_date;
  wa_instance_id = instance_id;
}

abbrev pub seed_row : Text → Seed → ParticipantRow
seed_row instance_id p = participant p.contact_jid p.contact_name instance_id

module _ (v : Services) where
  abbrev pub World : Type 0
  World = List Call × v.State

  unfoldable pub insert_row : ParticipantRow → World → World
  insert_row row (log, s) = (log ++ participant_inserted row ∷ [], v.insert_participant row s)

  -- `for (const p of participants)`
  unfoldable pub seed : Text → List Seed → World → World
  seed instance_id [] w = w
  seed instance_id (p ∷ ps) w = seed instance_id ps (insert_row (seed_row instance_id p) w)

  -- The `catch`, for an exception that reads `e`.
  abbrev note_failure : Text → Outcome (Unit {0}) → World → World
  note_failure instance_id (returned _) w = w
  note_failure instance_id (thrown e) w = insert_row (observer instance_id (take 400 e)) w

  abbrev pub invite : Text → Text → Text → World → Outcome (Unit {0}) × World
  invite session jid message (log, s) =
      let (res, s') = v.send session jid message s in
      (res, (log ++ invited session jid message ∷ [], s'))

  -- What follows the answer of the gateway: the group, or none.
  unfoldable pub after_group :
      User
      → NewTask
      → Text
      → Text
      → Text
      → Outcome GroupReply
      → World
      → Option (Text × Text) × World
  after_group user body instance_id session task_id (thrown e) w =
      (none, insert_row (observer instance_id (take 400 e)) w)
  after_group user body instance_id session task_id (returned (rejected reason)) w =
      (none, insert_row (observer instance_id (take 400 reason)) w)
  after_group user body instance_id session task_id (returned (created jid name)) (log, s) =
      let w =
        seed instance_id body.participants
          (log ++ group_set task_id jid ∷ [], v.set_group task_id jid s) in
      let message =
        invitation_text (or_text (owner_name user) (text "equipe")) body.title body.description in
      let (res, w') = invite session jid message w in
      (some (jid, name), note_failure instance_id res w')

  -- The creation of the group of a task, for the instance with its session, if there is one.
  unfoldable pub spin_up :
      User → NewTask → Option (Text × Text) → Text → World → Option (Text × Text) × World
  spin_up user body none task_id w = (none, w)
  spin_up user body (some (instance_id, session)) task_id (log, s) =
      let name = take 25 (text "falabem " ++ body.title) in
      let jids = map (λ p. p.contact_jid) body.participants in
      let (res, s') = v.create_group session name jids s in
      after_group user body instance_id session task_id res
        (log ++ group_requested session name jids ∷ [], s')

  abbrev after_task : User → NewTask → Option (Text × Text) → Outcome Text → World → Answer × World
  after_task user body instance (thrown e) w = (refused 500 e, w)
  after_task user body instance (returned id) w =
      let (group, w') =
        spin_up user body instance id (insert_row (owner user.id (owner_name user)) w) in
      (made id group, w')

  abbrev id_of : Option (Text × Text) → Option Text
  id_of none = none
  id_of (some (id, session)) = some id

  -- The inserts, for the instance that was found.
  unfoldable pub create_with : User → NewTask → Option (Text × Text) → World → Answer × World
  create_with user body instance (log, s) =
      let row = task_row user body (id_of instance) in
      let (res, s') = v.insert_task row s in
      after_task user body instance res (log ++ task_inserted row ∷ [], s')

  abbrev create_found : User → NewTask → Text → Option Text → World → Answer × World
  create_found user body id (some (c ∷ session)) w =
      create_with user body (some (id, c ∷ session)) w
  create_found user body id _ w = (refused 400 (text "instance not found or not connected"), w)

  -- Whether a group is asked for, and its instance.
  abbrev wanted : NewTask → Option Text
  wanted body = elim body.participants [ [] ↦ none | p ∷ ps ↦ or_else body.instance_id none ]

  -- `POST` for a user, behind the schema.
  unfoldable pub create_task : User → NewTask → World → Answer × World
  create_task user body (log, s) = elim (wanted body) [
    | none ↦ create_with user body none (log, s)
    | some id ↦ create_found user body id (v.session_of id user.id s) (log, s)
  ]
