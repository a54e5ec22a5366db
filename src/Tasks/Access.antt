-- ===== src/Tasks/Access.antt =====
-- Who may change a task, and when its group is renamed.
use zapi_pwa.Base.{
  ℕ, ◌≡◌, refl, sym, ◌∙◌, ap, false, Option, none, some, Text, text, text_eq, text_eq_iff,
  Bool-cases, inl, inr,
}
use zapi_pwa.Effect.{Outcome, returned, thrown}
use zapi_pwa.Tasks.{
  Task, Updates, Services, Answer, refused, shown, with_times, is_empty_update, rename_of,
  authenticate, renamed, after_update, patch_found, patch_as, patch_by, patch_task,
}

module _ (v : Services) where
  -- How a change of a task ends.
  pub data Patched (token : Option Text) (id : Text) (body : Updates) (s : v.State)
      (out : Answer × v.State) : Type 0 where
    -- Nothing was changed.
    not_done :
        (status : ℕ) (reason : Text)
        → out ≡ (refused status reason, s)
        → Patched token id body s out
    -- The creator's update failed in the database.
    not_updated :
        (task : Task) (e : Text)
        → authenticate v token s ≡ some task.creator_id
        → v.find_task id s ≡ returned task
        → out ≡ (refused 500 e, (v.update_task id (with_times (v.now s) body) s).1)
        → Patched token id body s out
    -- The creator's update was made, and the group of a task that is closed now was renamed.
    updated :
        (task new : Task)
        → authenticate v token s ≡ some task.creator_id
        → v.find_task id s ≡ returned task
        → is_empty_update body ≡ false
        → (v.update_task id (with_times (v.now s) body) s).0 ≡ returned new
        → out ≡ (
          shown new,
          renamed v task.title
              (rename_of body task)
              (v.update_task id (with_times (v.now s) body) s).1,
        )
        → Patched token id body s out

  after_update-Patched :
      (token : Option Text) (id : Text) (body : Updates) (s s' : v.State) (task : Task)
      (res : Outcome Task)
      → authenticate v token s ≡ some task.creator_id
      → v.find_task id s ≡ returned task
      → is_empty_update body ≡ false
      → v.update_task id (with_times (v.now s) body) s ≡ (res, s')
      → Patched token id body s (after_update v body task (res, s'))
  after_update-Patched token id body s s' task (thrown e) a f g h =
      not_updated task e a f (ap (λ p. (refused 500 e, p.1)) (sym h))
  after_update-Patched token id body s s' task (returned new) a f g h =
      updated task new a f g (ap (λ p. p.0) h)
        (ap (λ p. (shown new, renamed v task.title (rename_of body task) p.1)) (sym h))

  found-Patched :
      (token : Option Text) (user id : Text) (body : Updates) (s : v.State) (task : Task)
      → authenticate v token s ≡ some user
      → v.find_task id s ≡ returned task
      → Patched token id body s (patch_found v user id body task s)
  unfolding patch_found
  found-Patched token user id body s task a f = elim (Bool-cases (text_eq task.creator_id user)) [
    | inr other ↦ rw other (not_done 403 (text "Forbidden") refl)
    | inl own ↦ elim (Bool-cases (is_empty_update body)) [
      | inl blank ↦ rw (own, blank) (not_done 400 (text "No valid fields to update") refl)
      | inr filled ↦
          rw (own, filled)
            (after_update-Patched token id body s _ task _
              (a ∙ ap some (sym ((text_eq_iff task.creator_id user).0 own))) f filled refl)
    ]
  ]

  as-Patched :
      (token : Option Text) (user id : Text) (body : Updates) (s : v.State) (res : Outcome Task)
      → authenticate v token s ≡ some user
      → v.find_task id s ≡ res
      → Patched token id body s (patch_as v user id body res s)
  as-Patched token user id body s (thrown e) a f = not_done 404 (text "Not found") refl
  as-Patched token user id body s (returned task) a f = found-Patched token user id body s task a f

  by-Patched :
      (token : Option Text) (user : Option Text) (id : Text) (body : Updates) (s : v.State)
      → authenticate v token s ≡ user
      → Patched token id body s (patch_by v user id body s)
  by-Patched token none id body s a = not_done 401 (text "Unauthorized") refl
  by-Patched token (some user) id body s a =
      as-Patched token user id body s (v.find_task id s) a refl

  -- A task is changed only for its creator and with at least one allowed field; the group is
  -- renamed only after an update that was made, as `rename_of` says. Every other request is refused
  -- and leaves everything as it was.
  pub patch_task-Patched :
      (token : Option Text) (id : Text) (body : Updates) (s : v.State)
      → Patched token id body s (patch_task v token id body s)
  unfolding patch_task
  patch_task-Patched token id body s = by-Patched token (authenticate v token s) id body s refl
