-- ===== src/TaskList.antt =====
-- packages/pwa/src/app/app/hooks/useTasks.ts, the tasks that the page holds and its requests about
-- them, and the numbers and the filter of packages/pwa/src/app/app/components/TaskListPanel.tsx.
-- What `fetch` gives, and the encoding of a query, are arguments.
pub mod Kept
pub mod Counted
use zapi_pwa.Base.{
  ℕ, zero, suc, ◌+◌, ◌≡◌, Bool, true, false, not, ◌&&◌, ◌||◌, Option, none, some, List, [], ◌∷◌,
  ◌++◌, map, filter, length, ◌==◌, if◌then◌else◌, Text, text, text_eq,
}
use zapi_pwa.Effect.{Outcome, returned, thrown}
use zapi_pwa.Routes.{truthy_text, or_null}

pub data Priority : Type 0 where
  low medium high urgent : Priority

pub data Status : Type 0 where
  opened in_progress resolved closed : Status

pub record TaskParticipant : Type 0 where
  pub id : Text
  pub user_id : Option Text
  pub contact_jid : Option Text
  pub contact_name : Option Text
  pub instance_id : Option Text
  pub role : Text
  pub joined_group_at : Option Text
  pub join_failure : Option Text
  pub added_at : Option Text

pub record Task : Type 0 where
  pub id : Text
  pub creator_id : Text
  pub title : Text
  pub description : Option Text
  pub priority : Priority
  pub status : Status
  pub assigned_to : Option Text
  pub due_date : Option Text
  pub resolved_at : Option Text
  pub closed_at : Option Text
  pub created_at : Text
  pub updated_at : Text
  pub wa_group_jid : Option Text
  pub wa_instance_id : Option Text
  pub wa_group_created_at : Option Text
  pub task_participants : Option (List TaskParticipant)

-- The response of `fetch`: not ok, or ok with what it holds.
pub data Response (A : Type 0) : Type 0 where
  not_ok : Response A
  ok : A → Response A

pub record State : Type 0 where
  pub tasks : List Task
  pub loading : Bool

-- What a call of the hook returns, and the state after it; a rejected promise leaves the state.
abbrev pub Result : Type 0 → Type 0
Result A = Outcome A × State

abbrev with_name : Text → Option Text → List (Text × Text)
with_name name none = []
with_name name (some value) = (name, value) ∷ []

-- The parameters of `loadTasks`
unfoldable pub params_of : Option Text → Option Text → List (Text × Text)
params_of status priority =
    with_name (text "status") (truthy_text status)
    ++ with_name (text "priority") (truthy_text priority)

-- The address that `loadTasks` asks, with `URLSearchParams.toString`.
unfoldable pub tasks_url : (List (Text × Text) → Text) → List (Text × Text) → Text
tasks_url encode params = elim (encode params) [
  | [] ↦ text "/api/tasks"
  | c ∷ qs ↦ text "/api/tasks?" ++ (c ∷ qs)
]

abbrev loaded : Outcome (Response (Option (List Task))) → State → Result (Unit {0})
loaded (thrown e) s = (thrown e, s)
loaded (returned not_ok) s = (returned tt, record s { loading = false })
loaded (returned (ok tasks)) s =
    (returned tt, record s { tasks = or_null tasks []; loading = false })

-- `loadTasks`; without a token nothing is asked.
unfoldable pub load_tasks :
    Option Text → Outcome (Response (Option (List Task))) → State → Result (Unit {0})
load_tasks none res s = (returned tt, s)
load_tasks (some token) res s = loaded res (record s { loading = true })

-- `createTask`
unfoldable pub create_task : Option Text → Outcome (Response Task) → State → Result (Option Task)
create_task none res s = (returned none, s)
create_task (some token) (thrown e) s = (thrown e, s)
create_task (some token) (returned not_ok) s = (returned none, s)
create_task (some token) (returned (ok t)) s = (returned (some t), record s { tasks = t ∷ s.tasks })

abbrev pub replace_task : Text → Task → List Task → List Task
replace_task id t = map (λ u. if text_eq u.id id then t else u)

-- `updateTask`
unfoldable pub update_task :
    Option Text → Text → Outcome (Response Task) → State → Result (Option Task)
update_task none id res s = (returned none, s)
update_task (some token) id (thrown e) s = (thrown e, s)
update_task (some token) id (returned not_ok) s = (returned none, s)
update_task (some token) id (returned (ok t)) s =
    (returned (some t), record s { tasks = replace_task id t s.tasks })

abbrev pub drop_task : Text → List Task → List Task
drop_task id = filter (λ u. not (text_eq u.id id))

-- `deleteTask`
unfoldable pub delete_task :
    Option Text → Text → Outcome (Response (Unit {0})) → State → Result Bool
delete_task none id res s = (returned false, s)
delete_task (some token) id (thrown e) s = (thrown e, s)
delete_task (some token) id (returned not_ok) s = (returned false, s)
delete_task (some token) id (returned (ok _)) s =
    (returned true, record s { tasks = drop_task id s.tasks })

-- A request of the hook with what it received.
pub data Request : Type 0 where
  load : Outcome (Response (Option (List Task))) → Request
  create : Outcome (Response Task) → Request
  update : Text → Outcome (Response Task) → Request
  delete : Text → Outcome (Response (Unit {0})) → Request

abbrev pub perform : Option Text → Request → State → State
perform token (load res) s = (load_tasks token res s).1
perform token (create res) s = (create_task token res s).1
perform token (update id res) s = (update_task token id res s).1
perform token (delete id res) s = (delete_task token id res s).1

abbrev pub perform_all : Option Text → List Request → State → State
perform_all token [] s = s
perform_all token (q ∷ qs) s = perform_all token qs (perform token q s)

abbrev pub status_eq : Status → Status → Bool
status_eq opened opened = true
status_eq in_progress in_progress = true
status_eq resolved resolved = true
status_eq closed closed = true
status_eq _ _ = false

pub record Counts : Type 0 where
  pub total : ℕ
  pub by_status : Status → ℕ

-- `c[t.status] = (c[t.status] ?? 0) + 1`
abbrev pub count_up : Counts → Task → Counts
count_up c t = record c {
  by_status = λ s. if status_eq t.status s then c.by_status s + 1 else c.by_status s;
}

abbrev pub count_from : Counts → List Task → Counts
count_from c [] = c
count_from c (t ∷ ts) = count_from (count_up c t) ts

-- `counts`
unfoldable pub counts : List Task → Counts
counts tasks = count_from (record { total = length tasks; by_status = λ s. 0 }) tasks

-- `filtered`; none is "all".
unfoldable pub shown_tasks : Option Status → List Task → List Task
shown_tasks none tasks = tasks
shown_tasks (some s) tasks = filter (λ t. status_eq t.status s) tasks

abbrev pub all_statuses : List Status
all_statuses = opened ∷ in_progress ∷ resolved ∷ closed ∷ []

-- The chips that are there, with their numbers; none is "all".
unfoldable pub chips : List Task → List (Option Status × ℕ)
unfolding counts
chips tasks =
    let c = counts tasks in
    (none, c.total)
    ∷ map (λ s. (some s, c.by_status s)) (filter (λ s. not (c.by_status s == 0)) all_statuses)
