-- ===== src/Tests/Plans.antt =====
-- Planned messages, the pages of a user and the list of tasks.
use zapi_pwa.Base.{
  All, ◌+◌, ◌≡◌, ◌↔◌, refl, true, false, none, some, List, [], ◌∷◌, length, Text, text, text_eq,
}
use zapi_pwa.Effect.{returned}
use zapi_pwa.Scheduled.{plan, post_scheduled, handle_plan}
use zapi_pwa.Scheduled.Planned.{post_scheduled-Ends}
use zapi_pwa.Scheduled.Planned
use zapi_pwa.Scheduled.Owned.{handle_plan-Ends}
use zapi_pwa.Scheduled.Owned
use zapi_pwa.TaskList.{
  Task, Status, medium, opened, closed, in_progress, resolved, ok, create, delete, update, Request,
  perform_all, shown_tasks, chips, counts,
}
use zapi_pwa.TaskList.Kept.{Holds, table_of, promised_all, perform_all-Holds}
use zapi_pwa.TaskList.Counted.{chips-shown_tasks}
use zapi_pwa.Middleware.{middleware, next}
use zapi_pwa.Middleware.Allowed.{IsAllowed, middleware_iff}

abbrev calendar : zapi_pwa.Scheduled.Services
calendar = record {
  State = Unit {0};
  user_of = λ token s. some (text "u");
  owns = λ user session s. true;
  now = λ s. 1800000000000;
  moment_of = λ t. some 1800000100000;
  run = λ c s. (zapi_pwa.Scheduled.row, s);
}

abbrev reminder : zapi_pwa.Scheduled.Body
reminder = record {
  session_id = some (text "s");
  chat_jid = some (text "1@c.us");
  chat_name = none;
  body = some (text " oi ");
  scheduled_for = some (text "2027-01-15T08:01:40Z");
  media_base64 = none;
  media_filename = none;
  media_mime_type = none;
}

post_scheduled-Ends_example :
    Planned.Ends calendar
      (some (text "k"))
      reminder
      ([], tt)
      (post_scheduled calendar (some (text "k")) reminder ([], tt))
post_scheduled-Ends_example = post_scheduled-Ends calendar (some (text "k")) reminder ([], tt)

handle_plan-Ends_example :
    Owned.Ends calendar
      (some (text "k"))
      ([], tt)
      (handle_plan calendar (some (text "k")) (plan reminder) ([], tt))
handle_plan-Ends_example = handle_plan-Ends calendar (some (text "k")) (plan reminder) ([], tt)

middleware_iff_example :
    (middleware
        (text "/admin/users")
        (some (text "u"))
        (λ user. some (record { role = some (text "super_admin"); status = some (text "active") }))
      ≡ next)
    ↔ IsAllowed
        (text "/admin/users")
        (some (text "u"))
        (λ user. some (record { role = some (text "super_admin"); status = some (text "active") }))
middleware_iff_example =
    middleware_iff (text "/admin/users") (some (text "u"))
      (λ user. some (record { role = some (text "super_admin"); status = some (text "active") }))

abbrev task_of : Text → Status → Task
task_of id status = record {
  id = id;
  creator_id = text "u";
  title = text "T";
  description = none;
  priority = medium;
  status = status;
  assigned_to = none;
  due_date = none;
  resolved_at = none;
  closed_at = none;
  created_at = text "now";
  updated_at = text "now";
  wa_group_jid = none;
  wa_instance_id = none;
  wa_group_created_at = none;
  task_participants = none;
}

abbrev board : List Task
board = task_of (text "a") opened ∷ task_of (text "b") closed ∷ []

chips-shown_tasks_example :
    All (λ chip. length (shown_tasks chip.0 board) ≡ chip.1) (chips board)
    × ((counts board).by_status opened
          + (counts board).by_status in_progress
          + (counts board).by_status resolved
          + (counts board).by_status closed
        ≡ length board)
chips-shown_tasks_example = chips-shown_tasks board

abbrev edits : List Request
edits =
    create (returned (ok (task_of (text "c") opened)))
    ∷ update (text "a") (returned (ok (task_of (text "a") resolved)))
    ∷ delete (text "b") (returned (ok tt))
    ∷ []

perform_all-Holds_example :
    Holds
      (perform_all (some (text "k")) edits (record { tasks = board; loading = false })).tasks
      (promised_all (some (text "k")) edits (table_of board))
unfolding text_eq
perform_all-Holds_example =
    perform_all-Holds (some (text "k")) edits (record { tasks = board; loading = false })
      (table_of board) (tt, (refl, (tt, tt))) (λ j. refl)
