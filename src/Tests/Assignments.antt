-- ===== src/Tests/Assignments.antt =====
-- Tasks over services in memory.
use zapi_pwa.Base.{none, some, List, [], ◌∷◌, text, Text}
use zapi_pwa.Effect.{returned}
use zapi_pwa.Tasks.{Task, Updates, Services, Answer, patch_task}
use zapi_pwa.Tasks.Access.{Patched, patch_task-Patched}
use zapi_pwa.Tasks.Creating.{User, Seed, NewTask, create_with, rejected}
use zapi_pwa.Tasks.Creating.Rows.{Leaves, Made, create_with-Leaves}

abbrev task : Task
task = record {
  creator_id = text "u";
  title = text "T";
  status = text "open";
  wa_group_jid = some (text "1@g.us");
  session_id = some (text "s");
  participants = [];
}

abbrev services : Services
services = record {
  State = List Text;
  user_of = λ token s. some (text "u");
  find_task = λ id s. returned task;
  update_task = λ id u s. (returned task, text "update" ∷ s);
  delete_task = λ id user s. (returned tt, text "delete" ∷ s);
  rename_group = λ session group name s. name ∷ s;
  now = λ s. text "now";
}

abbrev close : Updates
close = record {
  title = none;
  description = none;
  priority = none;
  status = some (some (text "closed"));
  assigned_to = none;
  due_date = none;
  resolved_at = none;
  closed_at = none;
}

patch_task-Patched_example :
    Patched services
      (some (text "k"))
      (text "t")
      close
      []
      (patch_task services (some (text "k")) (text "t") close [])
patch_task-Patched_example = patch_task-Patched services (some (text "k")) (text "t") close []

abbrev gateway : zapi_pwa.Tasks.Creating.Services
gateway = record {
  State = Unit {0};
  session_of = λ id user s. some (text "s");
  insert_task = λ row s. (returned (text "t1"), s);
  insert_participant = λ row s. s;
  create_group = λ session name jids s. (returned (rejected (text "too many groups")), s);
  set_group = λ id jid s. s;
  send = λ session jid message s. (returned tt, s);
}

abbrev user : User
user = record { id = text "u"; full_name = none; email = some (text "u@x") }

abbrev body : NewTask
body = record {
  title = text "T";
  description = none;
  priority = none;
  due_date = none;
  instance_id = some (text "i");
  participants = record { contact_jid = text "1@c.us"; contact_name = none } ∷ [];
}

create_with-Leaves_example :
    Leaves gateway
      (Made gateway user body (some (text "i", text "s")) tt)
      (create_with gateway user body (some (text "i", text "s")) ([], tt))
create_with-Leaves_example = create_with-Leaves gateway user body (some (text "i", text "s")) tt
