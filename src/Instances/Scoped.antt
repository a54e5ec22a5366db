-- ===== src/Instances/Scoped.antt =====
-- Whose instances a request touches.
use zapi_pwa.Base.{
  ℕ, ◌+◌, ◌≡◌, refl, sym, ◌∙◌, Bool-cases, inl, inr, Option, Option-cases, none, some, List, [],
  ◌∷◌, ◌++◌, append_assoc, append-nil, All, Text, text,
}
use zapi_pwa.Effect.{Outcome, returned, thrown}
use zapi_pwa.Routes.{
  need-elim, check-elim, IsError, truthy_text, or_null, Answer, refused, failed, answered,
}
use zapi_pwa.Instances.{
  Info, GroupBody, Session, ZapiStatus, Reply, bad, good, Call, order_set, session_created,
  instance_inserted, session_deleted, instance_deleted, renamed, status_updated, marked_connecting,
  zapi_connected, session_cached, group_upserted, group_updated, group_deleted, Request, reorder,
  create, rename, remove, poll_status, start_qr, poll_qr, upsert_group, update_group, delete_group,
  Services, status_update, connected_phone, session_to_delete, World, Handler, done, after_call,
  perform_call, try_call, last_call, after_last_call, reorder_from, after_session, create_instance,
  delete_instance, rename_instance, store_phone, after_status, get_status, after_qr, post_qr,
  after_zapi_status, get_qr, own_groups, post_group, patch_group, remove_group, handle_as, no_user,
  handle_request,
}

module _ (v : Services) where
  -- An instance of the user.
  pub record IsOwn (user : Text) (s : v.State) (id : Text) : Type 0 where
    pub info : Info
    pub found : v.find_own user id s ≡ some info

  -- A session or a Z-API identifier of an instance of the user.
  pub record IsOwnSession (user : Text) (s : v.State) (session : Text) : Type 0 where
    pub id : Text
    pub info : Info
    pub found : v.find_own user id s ≡ some info
    pub bound : session_to_delete info ≡ some session

  pub record IsOwnZapi (user : Text) (s : v.State) (zapi_id : Text) : Type 0 where
    pub id : Text
    pub info : Info
    pub found : v.find_own user id s ≡ some info
    pub bound : info.zapi_instance_id ≡ zapi_id

  -- A call that touches nothing of another user: its rows are selected by the user, or belong to an
  -- instance that was found to be the user's.
  abbrev pub IsScoped : Text → v.State → Call → Type 0
  IsScoped user s (order_set u id n) = u ≡ user
  IsScoped user s (session_created name) = Unit
  IsScoped user s (instance_inserted u name session) = u ≡ user
  IsScoped user s (session_deleted session) = IsOwnSession user s session
  IsScoped user s (instance_deleted u id) = u ≡ user
  IsScoped user s (renamed u id name) = u ≡ user
  IsScoped user s (status_updated id u) = IsOwn user s id
  IsScoped user s (marked_connecting id) = IsOwn user s id
  IsScoped user s (zapi_connected id phone token) = IsOwn user s id
  IsScoped user s (session_cached zapi_id token) = IsOwnZapi user s zapi_id
  IsScoped user s (group_upserted id row) = IsOwn user s id
  IsScoped user s (group_updated id group b) = IsOwn user s id
  IsScoped user s (group_deleted id group) = IsOwn user s id

  -- The log goes on with such calls.
  pub record Runs (user : Text) (s : v.State) (log : List Call) (out : Answer (Unit {0}) × World v)
      : Type 0 where
    pub calls : List Call
    pub logged : out.1.0 ≡ log ++ calls
    pub scoped : All (IsScoped user s) calls

  stop : (user : Text) (s : v.State) (a : Answer (Unit {0})) (w : World v) → Runs user s w.0 (a, w)
  stop user s a w = record { calls = []; logged = sym (append-nil w.0); scoped = tt }

  -- A call in front of a run.
  before :
      (user : Text) (s : v.State) (log : List Call) (c : Call) (out : Answer (Unit {0}) × World v)
      → IsScoped user s c
      → Runs user s (log ++ c ∷ []) out
      → Runs user s log out
  before user s log c out h r = record {
    calls = c ∷ r.calls;
    logged = r.logged ∙ append_assoc log (c ∷ []) r.calls;
    scoped = (h, r.scoped);
  }

  perform-Runs :
      (user : Text) (s : v.State) (c : Call) (k : Handler v) (w : World v)
      → IsScoped user s c
      → ((w' : World v) → Runs user s w'.0 (k w'))
      → Runs user s w.0 (perform_call v c k w)
  unfolding perform_call
  perform-Runs user s c k (log, s₁) h r = before user s log c _ h (go (v.run c s₁))
    where
      go :
          (res : Outcome (Unit {0}) × v.State)
          → Runs user s (log ++ c ∷ []) (after_call v k (log ++ c ∷ []) res)
      go (thrown e, s') = stop user s (refused 500 e) (log ++ c ∷ [], s')
      go (returned _, s') = r (log ++ c ∷ [], s')

  try-Runs :
      (user : Text) (s : v.State) (c : Call) (k : Handler v) (w : World v)
      → IsScoped user s c
      → ((w' : World v) → Runs user s w'.0 (k w'))
      → Runs user s w.0 (try_call v c k w)
  unfolding try_call
  try-Runs user s c k (log, s₁) h r = before user s log c _ h (r (log ++ c ∷ [], (v.run c s₁).1))

  finished : (user : Text) (s : v.State) (w : World v) → Runs user s w.0 (done v w)
  finished user s w = stop user s (answered tt) w

  last-Runs :
      (user : Text) (s : v.State) (c : Call) (w : World v)
      → IsScoped user s c
      → Runs user s w.0 (last_call v c w)
  unfolding last_call
  last-Runs user s c (log, s₁) h = before user s log c _ h (go (v.run c s₁))
    where
      go :
          (res : Outcome (Unit {0}) × v.State)
          → Runs user s (log ++ c ∷ []) (after_last_call v (log ++ c ∷ []) res)
      go (thrown e, s') = stop user s (failed e) (log ++ c ∷ [], s')
      go (returned _, s') = finished user s (log ++ c ∷ [], s')

  reorder-Runs :
      (user : Text) (s : v.State) (n : ℕ) (ids : List Text) (w : World v)
      → Runs user s w.0 (reorder_from v user n ids w)
  unfolding reorder_from
  reorder-Runs user s n [] w = finished user s w
  reorder-Runs user s n (id ∷ ids) w =
      perform-Runs user s (order_set user id n) (reorder_from v user (n + 1) ids) w refl
        (λ w'. reorder-Runs user s (n + 1) ids w')

  session-Runs :
      (user : Text) (s : v.State) (name : Text) (log : List Call)
      (res : Outcome (Reply Text) × v.State)
      → Runs user s log (after_session v user name log res)
  session-Runs user s name log (thrown e, s') = stop user s _ (log, s')
  session-Runs user s name log (returned (bad n e), s') = stop user s _ (log, s')
  session-Runs user s name log (returned (good session), s') =
      perform-Runs user s (instance_inserted user name session) (done v) (log, s') refl
        (finished user s)

  create-Runs :
      (user : Text) (name : Option Text) (log : List Call) (s : v.State)
      → Runs user s log (create_instance v user name (log, s))
  unfolding create_instance
  create-Runs user name log s =
      let n = or_null name (text "Minha Instância") in
      before user s log (session_created n) _ tt
        (session-Runs user s n (log ++ session_created n ∷ []) (v.create_session n s))

  delete-Runs :
      (user id : Text) (log : List Call) (s : v.State)
      → Runs user s log (delete_instance v user id (log, s))
  unfolding delete_instance
  delete-Runs user id log s =
      need-elim (Runs user s log) _ _ _ _ (stop user s _ (log, s)) λ i found.
        elim (Option-cases (session_to_delete i)) [
          | inl no_session ↦ rw no_session (
              perform-Runs user s (instance_deleted user id) (done v) (log, s) refl
                (finished user s))
          | inr (session, bound) ↦ rw bound (
              try-Runs user s (session_deleted session)
                (perform_call v (instance_deleted user id) (done v)) (log, s)
                (record { id = id; info = i; found = found; bound = bound })
                (λ w.
                  perform-Runs user s (instance_deleted user id) (done v) w refl (finished user s)))
        ]

  rename-Runs :
      (user id : Text) (name : Option Text) (s : v.State) (w : World v)
      → Runs user s w.0 (rename_instance v user id name w)
  unfolding rename_instance
  rename-Runs user id name s w =
      need-elim (Runs user s w.0) _ _ _ _ (stop user s _ w)
        λ n given. perform-Runs user s (renamed user id n) (done v) w refl (finished user s)

  store_phone-Runs :
      (user id : Text) (s : v.State) (phone : Option Text) (w : World v)
      → IsOwn user s id
      → Runs user s w.0 (store_phone v id phone w)
  store_phone-Runs user id s none w own = finished user s w
  store_phone-Runs user id s (some phone) w own =
      try-Runs user s (status_updated id (status_update phone)) (done v) w own (finished user s)

  after_status-Runs :
      (user id : Text) (s : v.State) (res : Outcome Session) (w : World v)
      → IsOwn user s id
      → Runs user s w.0 (after_status v id res w)
  after_status-Runs user id s (thrown e) w own = stop user s _ w
  after_status-Runs user id s (returned session) w own =
      store_phone-Runs user id s (connected_phone session) w own

  status-Runs :
      (user id : Text) (log : List Call) (s : v.State)
      → Runs user s log (get_status v user id (log, s))
  unfolding get_status
  status-Runs user id log s =
      need-elim (Runs user s log) _ _ _ _ (stop user s _ (log, s)) λ i found.
        need-elim (Runs user s log) _ _ _ _ (stop user s _ (log, s)) λ session bound.
          after_status-Runs user id s (v.status_of session s) (log, s)
            (record { info = i; found = found })

  after_qr-Runs :
      (user id : Text) (s : v.State) (res : Outcome (Reply (Unit {0}))) (w : World v)
      → IsOwn user s id
      → Runs user s w.0 (after_qr v id res w)
  after_qr-Runs user id s (thrown e) w own = stop user s _ w
  after_qr-Runs user id s (returned (bad n e)) w own = stop user s _ w
  after_qr-Runs user id s (returned (good _)) w own =
      try-Runs user s (marked_connecting id) (done v) w own (finished user s)

  post_qr-Runs :
      (user : Text) (instance : Option Text) (log : List Call) (s : v.State)
      → Runs user s log (post_qr v user instance (log, s))
  unfolding post_qr
  post_qr-Runs user instance log s =
      need-elim (Runs user s log) _ _ _ _ (stop user s _ (log, s)) λ id given.
        need-elim (Runs user s log) _ _ _ _ (stop user s _ (log, s)) λ i found.
          after_qr-Runs user id s (v.zapi_qr id s) (log, s) (record { info = i; found = found })

  zapi-Runs :
      (user id : Text) (i : Info) (s : v.State) (res : Outcome (Reply ZapiStatus)) (w : World v)
      → v.find_own user id s ≡ some i
      → Runs user s w.0 (after_zapi_status v id i res w)
  zapi-Runs user id i s (thrown e) w found = stop user s _ w
  zapi-Runs user id i s (returned (bad n e)) w found = stop user s _ w
  zapi-Runs user id i s (returned (good z)) w found = elim (Bool-cases z.connected) [
    | inr off ↦ rw off (finished user s w)
    | inl on ↦ rw on (
        try-Runs user s _ _ w (record { info = i; found = found })
          (λ w'. last-Runs user s _ w' (record { id = id; info = i; found = found; bound = refl })))
  ]

  get_qr-Runs :
      (user : Text) (instance : Option Text) (log : List Call) (s : v.State)
      → Runs user s log (get_qr v user instance (log, s))
  unfolding get_qr
  get_qr-Runs user instance log s =
      need-elim (Runs user s log) _ _ _ _ (stop user s _ (log, s)) λ id given.
        need-elim (Runs user s log) _ _ _ _ (stop user s _ (log, s))
          λ i found. zapi-Runs user id i s (v.zapi_status id s) (log, s) found

  own_groups-Runs :
      (user id : Text) (k : Handler v) (log : List Call) (s : v.State)
      → (IsOwn user s id → Runs user s log (k (log, s)))
      → Runs user s log (own_groups v user id k (log, s))
  unfolding own_groups
  own_groups-Runs user id k log s r =
      need-elim (Runs user s log) _ _ _ _ (stop user s _ (log, s))
        λ i found. r (record { info = i; found = found })

  group-Runs :
      (user : Text) (c : Call) (log : List Call) (s : v.State)
      → IsScoped user s c
      → Runs user s log (perform_call v c (done v) (log, s))
  group-Runs user c log s h = perform-Runs user s c (done v) (log, s) h (finished user s)

  post_group-Runs :
      (user id : Text) (b : GroupBody) (log : List Call) (s : v.State)
      → Runs user s log (post_group v user id b (log, s))
  unfolding post_group
  post_group-Runs user id b log s = own_groups-Runs user id _ log s λ own.
      need-elim (Runs user s log) _ _ _ _ (stop user s _ (log, s))
        λ row given. group-Runs user (group_upserted id row) log s own

  patch_group-Runs :
      (user id group : Text) (b : GroupBody) (log : List Call) (s : v.State)
      → Runs user s log (patch_group v user id group b (log, s))
  unfolding patch_group
  patch_group-Runs user id group b log s = own_groups-Runs user id _ log s λ own.
      check-elim (Runs user s log) _ _ _ _ (stop user s _ (log, s))
        λ given. group-Runs user (group_updated id group b) log s own

  remove_group-Runs :
      (user id group : Text) (log : List Call) (s : v.State)
      → Runs user s log (remove_group v user id group (log, s))
  unfolding remove_group
  remove_group-Runs user id group log s =
      own_groups-Runs user id _ log s λ own. group-Runs user (group_deleted id group) log s own

  handle_as-Runs :
      (request : Request) (user : Text) (log : List Call) (s : v.State)
      → Runs user s log (handle_as v request user (log, s))
  unfolding handle_as
  handle_as-Runs (reorder none) user log s = stop user s _ (log, s)
  handle_as-Runs (reorder (some order)) user log s = reorder-Runs user s 0 order (log, s)
  handle_as-Runs (create none) user log s = stop user s _ (log, s)
  handle_as-Runs (create (some name)) user log s = create-Runs user name log s
  handle_as-Runs (rename id name) user log s = rename-Runs user id name s (log, s)
  handle_as-Runs (remove id) user log s = delete-Runs user id log s
  handle_as-Runs (poll_status id) user log s = status-Runs user id log s
  handle_as-Runs (start_qr instance) user log s = post_qr-Runs user instance log s
  handle_as-Runs (poll_qr instance) user log s = get_qr-Runs user instance log s
  handle_as-Runs (upsert_group id b) user log s = post_group-Runs user id b log s
  handle_as-Runs (update_group id group b) user log s = patch_group-Runs user id group b log s
  handle_as-Runs (delete_group id group) user log s = remove_group-Runs user id group log s

  -- How a request ends.
  pub data Ends (token : Option Text) (w : World v) (out : Answer (Unit {0}) × World v)
      : Type 0 where
    closed : (a : Answer (Unit {0})) → out ≡ (a, w) → IsError a → Ends token w out
    opened :
        (t user : Text)
        → truthy_text token ≡ some t
        → v.user_of t w.1 ≡ some user
        → Runs user w.1 w.0 out
        → Ends token w out

  no_user-IsError : (request : Request) → IsError (no_user v request)
  no_user-IsError (reorder order) = tt
  no_user-IsError (create name) = tt
  no_user-IsError (rename id name) = tt
  no_user-IsError (remove id) = tt
  no_user-IsError (poll_status id) = tt
  no_user-IsError (start_qr instance) = tt
  no_user-IsError (poll_qr instance) = tt
  no_user-IsError (upsert_group id b) = tt
  no_user-IsError (update_group id group b) = tt
  no_user-IsError (delete_group id group) = tt

  -- A request about instances changes something only for a signed-in user, and then every call
  -- that it makes touches nothing of another user: rows are selected by the user, or belong to an
  -- instance that was found to be the user's, as do the sessions that are removed or cached.
  pub request-IsScoped :
      (token : Option Text) (request : Request) (w : World v)
      → Ends token w (handle_request v token request w)
  unfolding handle_request
  request-IsScoped token request (log, s) =
      let P : Answer (Unit {0}) × World v → Type 0 = Ends token (log, s) in
      need-elim P _ _ _ _ (closed _ refl (no_user-IsError request)) λ t given.
        need-elim P _ _ _ _ (closed _ refl (no_user-IsError request))
          λ user signed. opened t user given signed (handle_as-Runs request user log s)
