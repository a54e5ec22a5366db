-- ===== src/Tasks.antt =====
-- packages/pwa/src/app/api/tasks/[id]/route.ts: one task. The token's user, the database, the
-- gateway and the clock are a parameter.
pub mod Access
pub mod Creating
pub mod Direct
pub mod Participants
pub mod Thread
use zapi_pwa.Base.{
  ℕ, Bool, true, false, not, ◌&&◌, ◌||◌, Option, none, some, List, [], ◌∷◌, ◌++◌, any,
  if◌then◌else◌, Text, text, text_eq, is_text, take,
}
use zapi_pwa.Effect.{Outcome, returned, thrown}

-- The columns of a task that the handlers read, with its session and its participants' users.
pub record Task : Type 0 where
  pub creator_id : Text
  pub title : Text
  pub status : Text
  pub wa_group_jid : Option Text
  pub session_id : Option Text
  pub participants : List (Option Text)

-- A field of the body: `none` is absent, `some none` is null.
abbrev pub Field : Type 0
Field = Option (Option Text)

-- The allowed fields, and the two times that go with a status.
pub record Updates : Type 0 where
  pub title : Field
  pub description : Field
  pub priority : Field
  pub status : Field
  pub assigned_to : Field
  pub due_date : Field
  pub resolved_at : Option Text
  pub closed_at : Option Text

pub record Services : Type 1 where
  pub State : Type 0
  pub user_of : Text → State → Option Text
  pub find_task : Text → State → Outcome Task
  pub update_task : Text → Updates → State → Outcome Task × State
  pub delete_task : Text → Text → State → Outcome (Unit {0}) × State
  pub rename_group : Text → Text → Text → State → State
  pub now : State → Text

-- An HTTP status with its body.
pub data Answer : Type 0 where
  refused : ℕ → Text → Answer
  shown : Task → Answer
  deleted : Answer

abbrev pub is_field : Field → Text → Bool
is_field (some (some v)) t = text_eq v t
is_field _ t = false

-- The times that are set with the status.
unfoldable pub with_times : Text → Updates → Updates
with_times now u = record u {
  resolved_at = if is_field u.status (text "resolved") then some now else none;
  closed_at = if is_field u.status (text "closed") then some now else none;
}

abbrev is_absent : Field → Bool
is_absent none = true
is_absent (some v) = false

-- `Object.keys(updates).length === 0`
unfoldable pub is_empty_update : Updates → Bool
is_empty_update u =
    is_absent u.title
    && is_absent u.description
    && is_absent u.priority
    && is_absent u.status
    && is_absent u.assigned_to
    && is_absent u.due_date

-- The new name of the group.
unfoldable pub archived_name : Text → Text
archived_name title = take 25 (text "[ARQUIVADO] " ++ title)

-- The group and the session of a rename, where there is one.
unfoldable pub rename_of : Updates → Task → Option (Text × Text)
rename_of u task =
    if is_field u.status (text "closed") && not (text_eq task.status (text "closed"))
    then both task.wa_group_jid task.session_id
    else none
  where
    both : Option Text → Option Text → Option (Text × Text)
    both (some (g ∷ group)) (some (s ∷ session)) = some (g ∷ group, s ∷ session)
    both _ _ = none

abbrev is_user : Text → Option Text → Bool
is_user user none = false
is_user user (some p) = text_eq p user

module _ (v : Services) where
  -- The user of the `Authorization` header without its `Bearer `.
  unfoldable pub authenticate : Option Text → v.State → Option Text
  authenticate (some (c ∷ token)) s = v.user_of (c ∷ token) s
  authenticate _ s = none

  abbrev shown_to : Text → Outcome Task → Answer
  shown_to user (thrown e) = refused 404 e
  shown_to user (returned task) =
      if text_eq task.creator_id user || any (is_user user) task.participants
      then shown task
      else refused 403 (text "Forbidden")

  -- `GET`
  unfoldable pub get_task : Option Text → Text → v.State → Answer
  get_task token id s = elim (authenticate token s) [
    | none ↦ refused 401 (text "Unauthorized")
    | some user ↦ shown_to user (v.find_task id s)
  ]

  abbrev renamed : Text → Option (Text × Text) → v.State → v.State
  renamed title none s = s
  renamed title (some (group, session)) s = v.rename_group session group (archived_name title) s

  abbrev pub after_update : Updates → Task → Outcome Task × v.State → Answer × v.State
  after_update u task (thrown e, s) = (refused 500 e, s)
  after_update u task (returned new, s) = (shown new, renamed task.title (rename_of u task) s)

  -- The handler behind the look-up, for its user.
  unfoldable pub patch_found : Text → Text → Updates → Task → v.State → Answer × v.State
  patch_found user id body task s =
      if text_eq task.creator_id user
      then (if is_empty_update body
          then (refused 400 (text "No valid fields to update"), s)
          else after_update body task (v.update_task id (with_times (v.now s) body) s))
      else (refused 403 (text "Forbidden"), s)

  abbrev pub patch_as : Text → Text → Updates → Outcome Task → v.State → Answer × v.State
  patch_as user id body (thrown e) s = (refused 404 (text "Not found"), s)
  patch_as user id body (returned task) s = patch_found user id body task s

  abbrev pub patch_by : Option Text → Text → Updates → v.State → Answer × v.State
  patch_by none id body s = (refused 401 (text "Unauthorized"), s)
  patch_by (some user) id body s = patch_as user id body (v.find_task id s) s

  -- `PATCH`
  unfoldable pub patch_task : Option Text → Text → Updates → v.State → Answer × v.State
  patch_task token id body s = patch_by (authenticate token s) id body s

  abbrev after_delete : Outcome (Unit {0}) × v.State → Answer × v.State
  after_delete (thrown e, s) = (refused 500 e, s)
  after_delete (returned _, s) = (deleted, s)

  -- `DELETE`
  unfoldable pub delete_task : Option Text → Text → v.State → Answer × v.State
  delete_task token id s = elim (authenticate token s) [
    | none ↦ (refused 401 (text "Unauthorized"), s)
    | some user ↦ after_delete (v.delete_task id user s)
  ]
