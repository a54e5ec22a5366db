-- ===== src/Tasks/Participants/Joining.antt =====
-- What a new participant leaves in the group and in the table.
use zapi_pwa.Base.{
  ◌⊎◌, ℕ, ◌≡◌, refl, sym, ap, ◌∙◌, Option, none, some, List, [], ◌∷◌, ◌++◌, append_assoc,
  append-nil, Text, take, Option-cases, inl, inr,
}
use zapi_pwa.Effect.{Outcome, returned, thrown}
use zapi_pwa.Routes.{need-both, truthy_text, Answer, refused, user_of_token}
use zapi_pwa.Tasks.Participants.{
  TaskInfo, NewParticipant, ParticipantRow, Response, ok, not_ok, Call, group_requested, group_set,
  invited, added, row_inserted, Services, group_of, group_name, invitation, Target, World,
  target_of, after_invitation, bind_group, after_creation, after_addition, join_group, join_if,
  participant_row, after_insert, insert_participant, add_participant, post_participant,
}

-- The gateway did not do it, for the reason `e`.
abbrev pub FailedWith : Outcome Response → Text → Type 0
FailedWith (thrown reason) e = reason ≡ e
FailedWith (returned (not_ok reason)) e = reason ≡ e
FailedWith (returned (ok x)) e = ⊥

module _ (v : Services) where
  -- The calls of an attempt to bring a contact into the group from a state, why it failed, by what
  -- the gateway answered, and the state that it leaves.
  pub data Attempt (id : Text) (task : Option TaskInfo) (contact session : Text)
      (instance : Option Text) (s : v.State) : List Call → Option Text → v.State → Type 0 where
    no_group_made :
        (e : Text) (res : Outcome Response) (s' : v.State)
        → truthy_text (group_of task) ≡ none
        → v.create_group session (group_name task) contact s ≡ (res, s')
        → FailedWith res e
        → Attempt id task contact session instance s
            (group_requested session (group_name task) contact ∷ [])
            (some (take 400 e))
            s'
    group_made :
        (jid : Text) (s' s'' : v.State)
        → truthy_text (group_of task) ≡ none
        → v.create_group session (group_name task) contact s ≡ (returned (ok jid), s')
        → v.send session jid (invitation task) (v.set_group id jid instance s') ≡ (returned tt, s'')
        → Attempt id task contact session instance s
            (group_requested session (group_name task) contact
              ∷ group_set id jid instance
              ∷ invited session jid (invitation task)
              ∷ [])
            none
            s''
    group_made_uninvited :
        (jid e : Text) (s' s'' : v.State)
        → truthy_text (group_of task) ≡ none
        → v.create_group session (group_name task) contact s ≡ (returned (ok jid), s')
        → v.send session jid (invitation task) (v.set_group id jid instance s') ≡ (thrown e, s'')
        → Attempt id task contact session instance s
            (group_requested session (group_name task) contact
              ∷ group_set id jid instance
              ∷ invited session jid (invitation task)
              ∷ [])
            (some (take 400 e))
            s''
    joined :
        (jid x : Text) (s' : v.State)
        → truthy_text (group_of task) ≡ some jid
        → v.add_member session jid contact s ≡ (returned (ok x), s')
        → Attempt id task contact session instance s (added session jid contact ∷ []) none s'
    not_joined :
        (jid e : Text) (res : Outcome Response) (s' : v.State)
        → truthy_text (group_of task) ≡ some jid
        → v.add_member session jid contact s ≡ (res, s')
        → FailedWith res e
        → Attempt id task contact session instance s
            (added session jid contact ∷ [])
            (some (take 400 e))
            s'

  -- The attempt is made for a contact with a session to go through.
  pub data AttemptIf (id : Text) (task : Option TaskInfo) (instance : Option Text) (s : v.State)
      : Option Text → Option Text → List Call → Option Text → v.State → Type 0 where
    no_contact : (session : Option Text) → AttemptIf id task instance s none session [] none s
    no_session : (contact : Text) → AttemptIf id task instance s (some contact) none [] none s
    attempt :
        {contact session : Text} {calls : List Call} {failure : Option Text} {s' : v.State}
        → Attempt id task contact session instance s calls failure s'
        → AttemptIf id task instance s (some contact) (some session) calls failure s'

  -- A result whose log goes on with the calls of an attempt.
  pub record Goes (P : List Call → Option Text → v.State → Type 0) (log : List Call)
      (out : Option Text × World v) : Type 0 where
    pub calls : List Call
    pub logged : out.1.0 ≡ log ++ calls
    pub fits : P calls out.0 out.1.1

  bind_group-Goes :
      (id : Text) (task : Option TaskInfo) (contact session : Text) (instance : Option Text)
      (jid : Text) (log : List Call) (s s' : v.State) (res : Outcome (Unit {0}) × v.State)
      → truthy_text (group_of task) ≡ none
      → v.create_group session (group_name task) contact s ≡ (returned (ok jid), s')
      → v.send session jid (invitation task) (v.set_group id jid instance s') ≡ res
      → Goes (Attempt id task contact session instance s) log (
          after_invitation v
            ((log ++ group_requested session (group_name task) contact ∷ [])
              ++ group_set id jid instance ∷ invited session jid (invitation task) ∷ [])
            res)
  bind_group-Goes id task contact session instance jid log s s' (thrown e, s'') h g k = record {
    calls = _;
    logged = append_assoc log (group_requested session (group_name task) contact ∷ []) _;
    fits = group_made_uninvited jid e s' s'' h g k;
  }
  bind_group-Goes id task contact session instance jid log s s' (returned _, s'') h g k = record {
    calls = _;
    logged = append_assoc log (group_requested session (group_name task) contact ∷ []) _;
    fits = group_made jid s' s'' h g k;
  }

  creation-Goes :
      (id : Text) (task : Option TaskInfo) (contact session : Text) (instance : Option Text)
      (log : List Call) (s : v.State) (res : Outcome Response × v.State)
      → truthy_text (group_of task) ≡ none
      → v.create_group session (group_name task) contact s ≡ res
      → Goes (Attempt id task contact session instance s) log (
          after_creation v id task session instance
            (log ++ group_requested session (group_name task) contact ∷ [])
            res)
  unfolding bind_group
  creation-Goes id task contact session instance log s (thrown e, s') h g = record {
    calls = _;
    logged = refl;
    fits = no_group_made e (thrown e) s' h g refl;
  }
  creation-Goes id task contact session instance log s (returned (not_ok e), s') h g = record {
    calls = _;
    logged = refl;
    fits = no_group_made e (returned (not_ok e)) s' h g refl;
  }
  creation-Goes id task contact session instance log s (returned (ok jid), s') h g =
      bind_group-Goes id task contact session instance jid log s s'
        (v.send session jid (invitation task) (v.set_group id jid instance s')) h g refl

  addition-Goes :
      (id : Text) (task : Option TaskInfo) (contact session : Text) (instance : Option Text)
      (jid : Text) (log : List Call) (s : v.State) (res : Outcome Response × v.State)
      → truthy_text (group_of task) ≡ some jid
      → v.add_member session jid contact s ≡ res
      → Goes
          (Attempt id task contact session instance s)
          log
          (after_addition v (log ++ added session jid contact ∷ []) res)
  addition-Goes id task contact session instance jid log s (thrown e, s') h g = record {
    calls = _;
    logged = refl;
    fits = not_joined jid e (thrown e) s' h g refl;
  }
  addition-Goes id task contact session instance jid log s (returned (not_ok e), s') h g = record {
    calls = _;
    logged = refl;
    fits = not_joined jid e (returned (not_ok e)) s' h g refl;
  }
  addition-Goes id task contact session instance jid log s (returned (ok x), s') h g = record {
    calls = _;
    logged = refl;
    fits = joined jid x s' h g;
  }

  join_group-Goes :
      (id : Text) (task : Option TaskInfo) (contact session : Text) (instance : Option Text)
      (w : World v)
      → Goes
          (Attempt id task contact session instance w.1)
          w.0
          (join_group v id task contact session instance w)
  unfolding join_group
  join_group-Goes id task contact session instance (log, s) =
      elim (Option-cases (truthy_text (group_of task))) [
        | inl missing ↦
            rw (missing, join_group)
              (creation-Goes id task contact session instance log s _ missing refl)
        | inr (jid, found) ↦
            rw (found, join_group)
              (addition-Goes id task contact session instance jid log s _ found refl)
      ]

  join_if-Goes :
      (id : Text) (task : Option TaskInfo) (contact session instance : Option Text) (w : World v)
      → Goes
          (AttemptIf id task instance w.1 contact session)
          w.0
          (join_if v id task contact session instance w)
  join_if-Goes id task none session instance w = record {
    calls = [];
    logged = sym (append-nil w.0);
    fits = no_contact session;
  }
  join_if-Goes id task (some contact) none instance w = record {
    calls = [];
    logged = sym (append-nil w.0);
    fits = no_session contact;
  }
  join_if-Goes id task (some contact) (some session) instance w =
      let g = join_group-Goes id task contact session instance w in
      record { calls = g.calls; logged = g.logged; fits = attempt g.fits }

  insert_participant_lem :
      (id : Text) (body : NewParticipant) (instance : Option Text) (p : Option Text × World v)
      → insert_participant v id body instance p
        ≡ after_insert v
            (p.1.0 ++ row_inserted (participant_row v id body instance p.0 (v.now p.1.1)) ∷ [])
            (v.insert_row (participant_row v id body instance p.0 (v.now p.1.1)) p.1.1)
  unfolding insert_participant
  insert_participant_lem id body instance (failure, (log, s)) = refl

  abbrev pub contact_of : NewParticipant → Option Text
  contact_of body = truthy_text body.contact_jid

  abbrev pub target : Text → Text → NewParticipant → v.State → Target
  target user id body s = target_of v user (v.find_task id s) body.contact_jid s

  -- How a request for a new participant ends.
  pub data Adds (token : Option Text) (id : Text) (payload : Option NewParticipant) (w : World v)
      (out : Answer ParticipantRow × World v) : Type 0 where
    nothing :
        (status : ℕ) (reason : Text)
        → (user_of_token v.user_of token w.1 ≡ none) ⊎ (payload ≡ none)
        → out ≡ (refused status reason, w)
        → Adds token id payload w out
    stored :
        (user : Text) (body : NewParticipant) (calls : List Call) (failure : Option Text)
        (row : ParticipantRow) (s' : v.State)
        → user_of_token v.user_of token w.1 ≡ some user
        → payload ≡ some body
        → AttemptIf id
            (v.find_task id w.1)
            (target user id body w.1).instance
            w.1
            (contact_of body)
            (truthy_text (target user id body w.1).session)
            calls
            failure
            s'
        → row ≡ participant_row v id body (target user id body w.1).instance failure (v.now s')
        → out ≡ after_insert v (w.0 ++ (calls ++ row_inserted row ∷ [])) (v.insert_row row s')
        → Adds token id payload w out

  -- One row of a participant is inserted for a signed-in user with a valid body, and the error of
  -- that insert is answered. Before it the contact is brought into the group of the task, through
  -- the session of the task or else of the user: it is added to the group that there is, or a group
  -- is made with it, bound to the task and sent an invitation; without a contact or a session no
  -- such call is made. The row keeps the reason exactly if the group or the membership was refused,
  -- or one of these calls threw, and has a time of joining unless that reason is a text that is not
  -- empty. Any other request changes and calls nothing.
  pub post_participant-Adds :
      (token : Option Text) (id : Text) (payload : Option NewParticipant) (w : World v)
      → Adds token id payload w (post_participant v token id payload w)
  unfolding post_participant add_participant
  post_participant-Adds token id payload (log, s) =
      let P : Answer ParticipantRow × World v → Type 0 = Adds token id payload (log, s) in
      need-both P _ _ _ _ (λ lack. nothing _ _ (inl lack) refl)
        λ user signed.
          need-both P _ _ _ _ (λ lack. nothing _ _ (inr lack) refl)
            λ body given.
              let t = target user id body s in
              let p =
                join_if v id (v.find_task id s) (contact_of body) (truthy_text t.session) t.instance
                  (log, s) in
              let g =
                join_if-Goes id (v.find_task id s) (contact_of body) (truthy_text t.session)
                  t.instance (log, s) in
              let row = participant_row v id body t.instance p.0 (v.now p.1.1) in
              stored user body g.calls p.0 row p.1.1 signed given g.fits refl (
                insert_participant_lem id body t.instance p
                ∙ ap (λ l. after_insert v l (v.insert_row row p.1.1))
                    (ap (λ l. l ++ row_inserted row ∷ []) g.logged
                      ∙ append_assoc log g.calls (row_inserted row ∷ [])))

  -- A user who is added without a contact gets the time of joining the group, though no group call
  -- was made and the task may have no group.
  pub user_marked_joined :
      (user id : Text) (body : NewParticipant) (w : World v)
      → truthy_text body.contact_jid ≡ none
      → add_participant v user id body w
        ≡ after_insert v
            (w.0
              ++ row_inserted
                  (participant_row v id body (target user id body w.1).instance none (v.now w.1))
                ∷ [])
            (v.insert_row
              (participant_row v id body (target user id body w.1).instance none (v.now w.1))
              w.1)
  unfolding add_participant
  user_marked_joined user id body (log, s) h =
      let t = target user id body s in
      let e : join_if v id (v.find_task id s) (contact_of body) (truthy_text t.session) t.instance
            (log, s)
          ≡ (none, (log, s)) =
        rw h refl in
      ap (insert_participant v id body t.instance) e
      ∙ insert_participant_lem id body t.instance (none, (log, s))
