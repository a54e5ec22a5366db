-- ===== src/TaskList/Kept.antt =====
-- The tasks of the page as a table from identifiers to tasks, and what the requests make of it.
use zapi_pwa.Base.{
  ◌≡◌, refl, sym, ap, ◌∙◌, true, Bool-cases, inl, inr, Option, none, some, List, [], ◌∷◌,
  if◌then◌else◌, Text, text_eq, text_eq_iff,
}
use zapi_pwa.Effect.{Outcome, returned, thrown}
use zapi_pwa.TaskList.{
  Task, Response, not_ok, ok, State, load_tasks, create_task, update_task, delete_task,
  replace_task, drop_task, Request, load, create, update, delete, perform, perform_all,
}

abbrev pub Table : Type 0
Table = Text → Option Task

-- The first task of a list with an identifier.
abbrev pub table_of : List Task → Table
table_of [] j = none
table_of (t ∷ ts) j = if text_eq t.id j then some t else table_of ts j

abbrev pub put : Text → Option Task → Table → Table
put id o table j = if text_eq id j then o else table j

abbrev pub loaded_table : Option (List Task) → Table
loaded_table none j = none
loaded_table (some ts) j = table_of ts j

abbrev if_held : Option Task → Task → Option Task
if_held none t = none
if_held (some u) t = some t

-- What a request with a token makes of the table: a failed one leaves it; a loaded list replaces it,
-- a new task is put into it, an updated one is put in the place of the one that it holds, and a
-- deleted one is taken out.
abbrev pub answered : Request → Table → Table
answered (load (returned (ok ts))) table = loaded_table ts
answered (create (returned (ok t))) table = put t.id (some t) table
answered (update id (returned (ok t))) table = put id (if_held (table id) t) table
answered (delete id (returned (ok _))) table = put id none table
answered _ table = table

abbrev pub promised : Option Text → Request → Table → Table
promised none q table = table
promised (some token) q table = answered q table

abbrev pub promised_all : Option Text → List Request → Table → Table
promised_all token [] table = table
promised_all token (q ∷ qs) table = promised_all token qs (promised token q table)

-- The server answers an update with the task that was asked for.
abbrev pub IsAsked : Request → Type 0
IsAsked (update id (returned (ok t))) = t.id ≡ id
IsAsked _ = Unit

abbrev pub AreAsked : List Request → Type 0
AreAsked [] = Unit
AreAsked (q ∷ qs) = IsAsked q × AreAsked qs

-- The list holds the tasks of the table.
abbrev pub Holds : List Task → Table → Type 0
Holds ts table = (j : Text) → table_of ts j ≡ table j

same_id : (a b : Text) → text_eq a b ≡ true → a ≡ b
same_id a b h = (text_eq_iff a b).0 h

table_of-replace_task :
    (id : Text) (t : Task) (ts : List Task)
    → t.id ≡ id
    → (j : Text)
    → table_of (replace_task id t ts) j ≡ put id (if_held (table_of ts id) t) (table_of ts) j
table_of-replace_task id t [] e j = elim (Bool-cases (text_eq id j)) [
  | inl hit ↦ rw hit refl
  | inr other ↦ rw other refl
]
table_of-replace_task id t (u ∷ ts) e j =
    let rest = table_of-replace_task id t ts e j in
    elim (Bool-cases (text_eq u.id id)) [
      | inl hit ↦ elim (Bool-cases (text_eq id j)) [
        | inl here ↦ rw (hit, e, here) refl
        | inr other ↦
            let uj = ap (λ x. text_eq x j) (same_id u.id id hit) ∙ other in
            let tj = ap (λ x. text_eq x j) e ∙ other in rw (hit, tj, uj, other) (rw other at rest)
      ]
      | inr apart ↦ elim (Bool-cases (text_eq id j)) [
        | inl here ↦
            let uj = ap (text_eq u.id) (sym (same_id id j here)) ∙ apart in
            rw (apart, uj, here) (rw here at rest)
        | inr other ↦ elim (Bool-cases (text_eq u.id j)) [
          | inl hers ↦ rw (apart, hers, other) refl
          | inr nay ↦ rw (apart, nay, other) (rw other at rest)
        ]
      ]
    ]

table_of-drop_task :
    (id : Text) (ts : List Task) (j : Text)
    → table_of (drop_task id ts) j ≡ put id none (table_of ts) j
table_of-drop_task id [] j = elim (Bool-cases (text_eq id j)) [
  | inl hit ↦ rw hit refl
  | inr other ↦ rw other refl
]
table_of-drop_task id (u ∷ ts) j =
    let rest = table_of-drop_task id ts j in
    elim (Bool-cases (text_eq u.id id)) [
      | inl hit ↦ elim (Bool-cases (text_eq id j)) [
        | inl here ↦ rw (hit, here) (rw here at rest)
        | inr other ↦
            let uj = ap (λ x. text_eq x j) (same_id u.id id hit) ∙ other in
            rw (hit, other, uj) (rw other at rest)
      ]
      | inr apart ↦ elim (Bool-cases (text_eq id j)) [
        | inl here ↦
            let uj = ap (text_eq u.id) (sym (same_id id j here)) ∙ apart in
            rw (apart, uj, here) (rw here at rest)
        | inr other ↦ elim (Bool-cases (text_eq u.id j)) [
          | inl hers ↦ rw (apart, hers, other) refl
          | inr nay ↦ rw (apart, nay, other) (rw other at rest)
        ]
      ]
    ]

load-Holds :
    (token : Option Text) (res : Outcome (Response (Option (List Task)))) (s : State)
    (table : Table)
    → Holds s.tasks table
    → Holds (load_tasks token res s).1.tasks (promised token (load res) table)
unfolding load_tasks
load-Holds none res s table h = h
load-Holds (some token) (thrown e) s table h = h
load-Holds (some token) (returned not_ok) s table h = h
load-Holds (some token) (returned (ok none)) s table h = λ j. refl
load-Holds (some token) (returned (ok (some tasks))) s table h = λ j. refl

create-Holds :
    (token : Option Text) (res : Outcome (Response Task)) (s : State) (table : Table)
    → Holds s.tasks table
    → Holds (create_task token res s).1.tasks (promised token (create res) table)
unfolding create_task
create-Holds none res s table h = h
create-Holds (some token) (thrown e) s table h = h
create-Holds (some token) (returned not_ok) s table h = h
create-Holds (some token) (returned (ok t)) s table h = λ j. rw (h j) refl

update-Holds :
    (token : Option Text) (id : Text) (res : Outcome (Response Task)) (s : State) (table : Table)
    → IsAsked (update id res)
    → Holds s.tasks table
    → Holds (update_task token id res s).1.tasks (promised token (update id res) table)
unfolding update_task
update-Holds none id res s table e h = h
update-Holds (some token) id (thrown e) s table a h = h
update-Holds (some token) id (returned not_ok) s table a h = h
update-Holds (some token) id (returned (ok t)) s table a h =
    λ j. table_of-replace_task id t s.tasks a j ∙ rw (h id, h j) refl

delete-Holds :
    (token : Option Text) (id : Text) (res : Outcome (Response (Unit {0}))) (s : State)
    (table : Table)
    → Holds s.tasks table
    → Holds (delete_task token id res s).1.tasks (promised token (delete id res) table)
unfolding delete_task
delete-Holds none id res s table h = h
delete-Holds (some token) id (thrown e) s table h = h
delete-Holds (some token) id (returned not_ok) s table h = h
delete-Holds (some token) id (returned (ok _)) s table h =
    λ j. table_of-drop_task id s.tasks j ∙ rw (h j) refl

perform-Holds :
    (token : Option Text) (q : Request) (s : State) (table : Table)
    → IsAsked q
    → Holds s.tasks table
    → Holds (perform token q s).tasks (promised token q table)
perform-Holds token (load res) s table a h = load-Holds token res s table h
perform-Holds token (create res) s table a h = create-Holds token res s table h
perform-Holds token (update id res) s table a h = update-Holds token id res s table a h
perform-Holds token (delete id res) s table a h = delete-Holds token id res s table h

-- The list of the page implements a table from identifiers to tasks, through any requests and
-- answers: a created task is held from then on, an updated one stands in the place of the one that
-- was held and of no other, a deleted one is not held, also if it stood twice in the list, and all
-- others are held as before; a load that is answered replaces the table; a request that fails, or
-- that has no token, changes nothing. The server must answer an update with the task that was asked
-- for.
pub perform_all-Holds :
    (token : Option Text) (qs : List Request) (s : State) (table : Table)
    → AreAsked qs
    → Holds s.tasks table
    → Holds (perform_all token qs s).tasks (promised_all token qs table)
perform_all-Holds token [] s table a h = h
perform_all-Holds token (q ∷ qs) s table (a, as_asked) h =
    perform_all-Holds token qs (perform token q s) (promised token q table) as_asked
      (perform-Holds token q s table a h)
