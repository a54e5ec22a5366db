-- ===== src/Tasks/Thread.antt =====
-- packages/pwa/src/app/api/tasks/[id]/thread/route.ts: the conversation about a task, internal
-- comments and the messages of its WhatsApp group. What is stored and sent is recorded in a log.
pub mod Merged
pub mod Posted
use zapi_pwa.Base.{
  ℕ, Bool, true, false, Option, none, some, List, [], ◌∷◌, ◌++◌, map, if◌then◌else◌, Text, text,
  take, is_text, ltb, ◌*◌,
}
use zapi_pwa.Effect.{Outcome, returned, thrown}
use zapi_pwa.Routes.{
  need, truthy_text, or_null, or_text, Answer, refused, failed, answered, unauthorized,
  user_of_token, in_milliseconds,
}
use zapi_pwa.Sorting.{sort_by}

pub record TaskGroup : Type 0 where
  pub wa_group_jid : Option Text
  pub wa_instance_id : Option Text

pub record Comment : Type 0 where
  pub id : Text
  pub body : Option Text
  pub author_user_id : Option Text
  pub ts : ℕ
  pub media_url : Option Text
  pub media_type : Option Text

pub record GroupMessage : Type 0 where
  pub id : Text
  pub sender_name : Option Text
  pub timestamp : ℕ
  pub from_me : Bool
  pub text : Option Text
  pub media_caption : Option Text

pub data Source : Type 0 where
  wa_group : Source
  internal_comment : Source

pub record ThreadItem : Type 0 where
  pub id : Text
  pub source : Source
  pub body : Option Text
  pub sender_name : Option Text
  pub from_me : Bool
  pub timestamp : ℕ
  pub media_url : Option Text
  pub media_type : Option Text

pub data Call : Type 0 where
  comment_stored : Text → Text → Text → ℕ → Call
  sent : Text → Text → Text → Call

-- The payload of a new message, and whether it is internal.
pub record NewMessage : Type 0 where
  pub body : Text
  pub internal : Bool

pub data Posting : Type 0 where
  comment : Comment → Posting
  sent_to : Text → Posting

pub record Services : Type 1 where
  pub State : Type 0
  pub user_of : Text → State → Option Text
  pub find_task : Text → State → Option TaskGroup
  pub session_of : Text → State → Option Text
  -- The internal comments of a task.
  pub comments_of : Text → State → List Comment
  -- The messages of a group, `none` if the gateway answers with an error.
  pub messages_of : Text → Text → State → Outcome (Option (List GroupMessage))
  pub now : State → ℕ
  pub insert_comment : Text → Text → Text → ℕ → State → Outcome Comment × State
  pub send : Text → Text → Text → State → Outcome Bool × State

abbrev pub or_else : Option Text → Option Text → Option Text
or_else none o = o
or_else (some s) o = some s

abbrev short : Option Text → Option Text
short none = none
short (some s) = some (take 8 s)

unfoldable pub comment_item : Text → Comment → ThreadItem
comment_item user c = record {
  id = text "c:" ++ c.id;
  source = internal_comment;
  body = c.body;
  sender_name = short c.author_user_id;
  from_me = is_text c.author_user_id user;
  timestamp = c.ts;
  media_url = c.media_url;
  media_type = c.media_type;
}

unfoldable pub message_item : GroupMessage → ThreadItem
message_item m = record {
  id = text "m:" ++ m.id;
  source = wa_group;
  body = or_else m.text m.media_caption;
  sender_name = m.sender_name;
  from_me = m.from_me;
  timestamp = in_milliseconds m.timestamp;
  media_url = none;
  media_type = none;
}

abbrev pub group_of : Option TaskGroup → Option Text
group_of none = none
group_of (some task) = task.wa_group_jid

abbrev pub instance_of : Option TaskGroup → Option Text
instance_of none = none
instance_of (some task) = task.wa_instance_id

abbrev pub received : Outcome (Option (List GroupMessage)) → List GroupMessage
received (returned (some ms)) = ms
received _ = []

-- The items in the order of their times, and the group.
pub record Conversation : Type 0 where
  pub items : List ThreadItem
  pub group_jid : Option Text

module _ (v : Services) where
  abbrev pub World : Type 0
  World = List Call × v.State

  abbrev pub session_if : Option Text → v.State → Option Text
  session_if none s = none
  session_if (some i) s = v.session_of i s

  unfoldable pub task_session : Option TaskGroup → v.State → Option Text
  task_session task s = truthy_text (session_if (truthy_text (instance_of task)) s)

  abbrev pub messages_if : Option Text → Option Text → v.State → List GroupMessage
  messages_if (some group) (some session) s = received (v.messages_of session group s)
  messages_if _ _ s = []

  -- The messages of the group of a task that has one.
  unfoldable pub group_messages : Option TaskGroup → v.State → List GroupMessage
  unfolding task_session
  group_messages task s = messages_if (truthy_text (group_of task)) (task_session task s) s

  unfoldable pub thread_of : Text → Text → v.State → Conversation
  unfolding comment_item message_item group_messages sort_by
  thread_of user id s =
      let task = v.find_task id s in
      record {
        items =
            sort_by (λ i. i.timestamp)
              (map (comment_item user) (v.comments_of id s)
                ++ map message_item (group_messages task s));
        group_jid = group_of task;
      }

  -- `GET`
  unfoldable pub get_thread : Option Text → Text → v.State → Answer Conversation
  unfolding thread_of
  get_thread token id s = elim (user_of_token v.user_of token s) [
    | none ↦ unauthorized
    | some user ↦ answered (thread_of user id s)
  ]

  abbrev pub after_insert : List Call → Outcome Comment × v.State → Answer Posting × World
  after_insert log (thrown e, s) = (refused 500 e, (log, s))
  after_insert log (returned c, s) = (answered (comment c), (log, s))

  unfoldable pub store_comment : Text → Text → Text → World → Answer Posting × World
  store_comment user id body (log, s) =
      after_insert (log ++ comment_stored id user body (v.now s) ∷ [])
        (v.insert_comment id user body (v.now s) s)

  abbrev pub after_send : Text → List Call → Outcome Bool × v.State → Answer Posting × World
  after_send group log (thrown e, s) = (failed e, (log, s))
  after_send group log (returned true, s) = (answered (sent_to group), (log, s))
  after_send group log (returned false, s) = (refused 502 (text "send failed"), (log, s))

  abbrev pub send_if : Option Text → Option Text → Text → World → Answer Posting × World
  send_if (some group) (some session) body (log, s) =
      after_send group (log ++ sent session group body ∷ []) (v.send session group body s)
  send_if _ _ body w = (refused 400 (text "task has no WhatsApp group; use visibility=internal"), w)

  unfoldable pub send_to_group : Text → Text → World → Answer Posting × World
  unfolding task_session
  send_to_group id body (log, s) =
      let task = v.find_task id s in
      send_if (truthy_text (group_of task)) (task_session task s) body (log, s)

  -- `POST`
  unfoldable pub post_message :
      Option Text → Text → Option NewMessage → World → Answer Posting × World
  unfolding store_comment send_to_group
  post_message token id payload (log, s) =
      need (user_of_token v.user_of token s) unauthorized
        (λ user.
          need payload (refused 400 (text "invalid payload"))
            (λ m. if m.internal then store_comment user id m.body else send_to_group id m.body))
        (log, s)
