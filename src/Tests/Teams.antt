-- ===== src/Tests/Teams.antt =====
-- The participants and the conversation of a task, and the routes of the administrators.
use zapi_pwa.Base.{ℕ, none, some, Option, [], ◌∷◌, ◌≡◌, refl, text, Text, true, false}
use zapi_pwa.Effect.{returned}
use zapi_pwa.Routes.{answered}
use zapi_pwa.Tasks.Direct.{post_dm}
use zapi_pwa.Tasks.Participants.{
  TaskInfo, NewParticipant, not_ok, post_participant, add_participant, after_insert,
  participant_row, row_inserted,
}
use zapi_pwa.Tasks.Participants.Joining.{Adds, post_participant-Adds, user_marked_joined, target}
use zapi_pwa.Tasks.Thread.{
  TaskGroup, Comment, GroupMessage, NewMessage, Conversation, get_thread, post_message,
}
use zapi_pwa.Tasks.Thread.Merged.{IsMerged, get_thread-IsMerged}
use zapi_pwa.Tasks.Thread.Posted.{Posted, post_message-Posted}
use zapi_pwa.Admin.{Numbers, Settings, delete_user, handle_request}
use zapi_pwa.Admin.Guarded
use zapi_pwa.Admin.Guarded.{handle_request-Ends}

abbrev direct : zapi_pwa.Tasks.Direct.Services
direct = record {
  State = Unit {0};
  user_of = λ token s. some (text "u");
  instance_of_task = λ id s. none;
  session_of = λ i s. none;
  first_session = λ user s. some (text "s");
  is_participant = λ id jid s. true;
  send = λ session to message s. (returned true, s);
}

abbrev dm : Option (Text × Text)
dm = some (text "1@c.us", text "hi")

abbrev joining : zapi_pwa.Tasks.Participants.Services
joining = record {
  State = Unit {0};
  user_of = λ token s. some (text "u");
  find_task = λ id s. some (record {
    title = text "T";
    description = none;
    wa_group_jid = some (text "g@g.us");
    wa_instance_id = some (text "i");
  });
  session_of = λ i s. some (text "s");
  first_instance = λ user s. none;
  contact_of = λ p id s. none;
  now = λ s. text "now";
  create_group = λ session name jid s. (returned (not_ok (text "no")), s);
  set_group = λ id jid i s. s;
  send = λ session jid m s. (returned tt, s);
  add_member = λ session jid c s. (returned (not_ok (text "full")), s);
  remove_member = λ session jid c s. s;
  insert_row = λ row s. (returned row, s);
  delete_row = λ p id s. (returned tt, s);
}

abbrev contact : NewParticipant
contact = record {
  contact_jid = some (text "1@c.us");
  contact_name = none;
  user_id = none;
  role = text "participant";
}

abbrev colleague : NewParticipant
colleague = record {
  contact_jid = none;
  contact_name = none;
  user_id = some (text "u2");
  role = text "observer";
}

post_participant-Adds_example :
    Adds joining
      (some (text "k"))
      (text "t")
      (some contact)
      ([], tt)
      (post_participant joining (some (text "k")) (text "t") (some contact) ([], tt))
post_participant-Adds_example =
    post_participant-Adds joining (some (text "k")) (text "t") (some contact) ([], tt)

user_marked_joined_example :
    add_participant joining (text "u") (text "t") colleague ([], tt)
    ≡ after_insert joining
        (row_inserted (
            participant_row joining
              (text "t")
              colleague
              (target joining (text "u") (text "t") colleague tt).instance
              none
              (text "now"))
          ∷ [])
        (joining.insert_row
          (participant_row joining
            (text "t")
            colleague
            (target joining (text "u") (text "t") colleague tt).instance
            none
            (text "now"))
          tt)
user_marked_joined_example =
    user_marked_joined joining (text "u") (text "t") colleague ([], tt) refl

abbrev talk : zapi_pwa.Tasks.Thread.Services
talk = record {
  State = Unit {0};
  user_of = λ token s. some (text "u");
  find_task = λ id s.
      some (record { wa_group_jid = some (text "g@g.us"); wa_instance_id = some (text "i") });
  session_of = λ i s. some (text "s");
  comments_of = λ id s.
      record {
        id = text "1";
        body = some (text "late");
        author_user_id = some (text "u");
        ts = 2000000000000;
        media_url = none;
        media_type = none;
      }
      ∷ [];
  messages_of = λ session g s. returned (
      some (
        record {
          id = text "2";
          sender_name = none;
          timestamp = 1500000000;
          from_me = false;
          text = some (text "early");
          media_caption = none;
        }
        ∷ []));
  now = λ s. 0;
  insert_comment = λ id user body ts s. (
    returned (record {
      id = text "3";
      body = some body;
      author_user_id = some user;
      ts = ts;
      media_url = none;
      media_type = none;
    }),
    s,
  );
  send = λ session to m s. (returned true, s);
}

get_thread-IsMerged_example :
    (c : Conversation) × (get_thread talk (some (text "k")) (text "t") tt ≡ answered c)
    × IsMerged talk (text "u") (text "t") tt c
get_thread-IsMerged_example =
    get_thread-IsMerged talk (some (text "k")) (text "u") (text "t") tt refl

abbrev hello : NewMessage
hello = record { body = text "hello"; internal = false }

post_message-Posted_example :
    Posted talk
      (some (text "k"))
      (text "t")
      (some hello)
      ([], tt)
      (post_message talk (some (text "k")) (text "t") (some hello) ([], tt))
post_message-Posted_example =
    post_message-Posted talk (some (text "k")) (text "t") (some hello) ([], tt)

abbrev numbers : Numbers
numbers = record { Number = ℕ; is_negative = λ x. false; exceeds = λ m x. false }

abbrev platform : zapi_pwa.Admin.Services numbers
platform = record {
  State = Unit {0};
  user_of = λ token s. some (text "root");
  settings_of =
      λ user s. some (record { role = some (text "super_admin"); status = some (text "active") });
  is_configured = true;
  email_of = λ id s. none;
  run = λ c s. (returned tt, s);
}

handle_request-Ends_example :
    Guarded.Ends numbers platform
      (some (text "Bearer k"))
      (delete_user (text "u"))
      ([], tt)
      (handle_request numbers platform (some (text "Bearer k")) (delete_user (text "u")) ([], tt))
handle_request-Ends_example =
    handle_request-Ends numbers platform (some (text "Bearer k")) (delete_user (text "u")) ([], tt)
