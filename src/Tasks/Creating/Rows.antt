-- ===== src/Tasks/Creating/Rows.antt =====
-- Which rows of participants the creation of a task leaves.
use zapi_pwa.Base.{
  subst, text, ◌≡◌, refl, ap, sym, ◌∙◌, Option, none, some, List, [], ◌∷◌, ◌++◌, append_assoc,
  append-nil, map, Text, take,
}
use zapi_pwa.Effect.{Outcome, returned, thrown}
use zapi_pwa.Tasks.Creating.{
  invitation_text, or_text, invite, User, Seed, NewTask, ParticipantRow, owner, observer,
  GroupReply, created, rejected, Call, task_inserted, participant_inserted, group_requested,
  group_set, invited, Services, World, Answer, refused, made, owner_name, task_row, seed_row,
  insert_row, seed, note_failure, after_group, spin_up, after_task, create_with, id_of,
}

-- The inserted participants of a log.
abbrev pub participants_of : List Call → List ParticipantRow
participants_of [] = []
participants_of (participant_inserted row ∷ log) = row ∷ participants_of log
participants_of (task_inserted row ∷ log) = participants_of log
participants_of (group_requested session name jids ∷ log) = participants_of log
participants_of (group_set id jid ∷ log) = participants_of log
participants_of (invited session jid message ∷ log) = participants_of log

participants_of-append :
    (l m : List Call) → participants_of (l ++ m) ≡ participants_of l ++ participants_of m
participants_of-append [] m = refl
participants_of-append (participant_inserted row ∷ l) m = ap (◌∷◌ row) (participants_of-append l m)
participants_of-append (task_inserted row ∷ l) m = participants_of-append l m
participants_of-append (group_requested session name jids ∷ l) m = participants_of-append l m
participants_of-append (group_set id jid ∷ l) m = participants_of-append l m
participants_of-append (invited session jid message ∷ l) m = participants_of-append l m

-- The gateway made no group, for the reason `e`.
pub data NoGroup : Outcome GroupReply → Text → Type 0 where
  threw : (e : Text) → NoGroup (thrown e) e
  refused_it : (e : Text) → NoGroup (returned (rejected e)) e

abbrev pub group_name : NewTask → Text
group_name body = take 25 (text "falabem " ++ body.title)

abbrev pub jids_of : NewTask → List Text
jids_of body = map (λ p. p.contact_jid) body.participants

abbrev pub message_of : User → NewTask → Text
message_of user body =
    invitation_text (or_text (owner_name user) (text "equipe")) body.title body.description

module _ (v : Services) where
  -- The inserts of some rows.
  abbrev pub insert_all : List ParticipantRow → v.State → v.State
  insert_all [] s = s
  insert_all (row ∷ rows) s = insert_all rows (v.insert_participant row s)

  -- The rows for each answer, in the order of the inserts, by what the gateway answers from a state
  -- in which the task and its owner are stored.
  pub data Grouped (user : User) (body : NewTask) (id : Text) (s : v.State)
      : Option (Text × Text) → Answer → List ParticipantRow → Type 0 where
    alone : Grouped user body id s none (made id none) (owner user.id (owner_name user) ∷ [])
    grouped :
        (instance_id session jid name : Text) (s' s'' : v.State)
        → v.create_group session (group_name body) (jids_of body) s
          ≡ (returned (created jid name), s')
        → v.send session jid
            (message_of user body)
            (insert_all (map (seed_row instance_id) body.participants) (v.set_group id jid s'))
          ≡ (returned tt, s'')
        → Grouped user body id s
            (some (instance_id, session))
            (made id (some (jid, name)))
            (owner user.id (owner_name user) ∷ map (seed_row instance_id) body.participants)
    uninvited :
        (instance_id session jid name e : Text) (s' s'' : v.State)
        → v.create_group session (group_name body) (jids_of body) s
          ≡ (returned (created jid name), s')
        → v.send session jid
            (message_of user body)
            (insert_all (map (seed_row instance_id) body.participants) (v.set_group id jid s'))
          ≡ (thrown e, s'')
        → Grouped user body id s (some (instance_id, session)) (made id (some (jid, name))) (
            owner user.id (owner_name user)
            ∷ (map (seed_row instance_id) body.participants
                ++ observer instance_id (take 400 e) ∷ []))
    ungrouped :
        (instance_id session e : Text)
        → NoGroup (v.create_group session (group_name body) (jids_of body) s).0 e
        → Grouped user body id s
            (some (instance_id, session))
            (made id none)
            (owner user.id (owner_name user) ∷ observer instance_id (take 400 e) ∷ [])

  -- The same by what the database answers to the insert of the task.
  pub data Made (user : User) (body : NewTask) (instance : Option (Text × Text)) (s : v.State)
      : Answer → List ParticipantRow → Type 0 where
    not_made :
        (e : Text)
        → (v.insert_task (task_row user body (id_of v instance)) s).0 ≡ thrown e
        → Made user body instance s (refused 500 e) []
    task_made :
        (id : Text) (s' : v.State) {a : Answer} {rows : List ParticipantRow}
        → v.insert_task (task_row user body (id_of v instance)) s ≡ (returned id, s')
        → Grouped user body id
            (v.insert_participant (owner user.id (owner_name user)) s')
            instance
            a
            rows
        → Made user body instance s a rows

  insert_rows :
      (row : ParticipantRow) (w : World v)
      → participants_of (insert_row v row w).0 ≡ participants_of w.0 ++ row ∷ []
  unfolding insert_row
  insert_rows row (log, s) = participants_of-append log (participant_inserted row ∷ [])

  seed_rows :
      (instance_id : Text) (ps : List Seed) (w : World v)
      → participants_of (seed v instance_id ps w).0
        ≡ participants_of w.0 ++ map (seed_row instance_id) ps
  unfolding seed
  seed_rows instance_id [] w = sym (append-nil (participants_of w.0))
  seed_rows instance_id (p ∷ ps) w =
      seed_rows instance_id ps (insert_row v (seed_row instance_id p) w)
      ∙ ap (λ l. l ++ map (seed_row instance_id) ps) (insert_rows (seed_row instance_id p) w)
      ∙ append_assoc (participants_of w.0) (seed_row instance_id p ∷ [])
          (map (seed_row instance_id) ps)

  seed_state :
      (instance_id : Text) (ps : List Seed) (w : World v)
      → (seed v instance_id ps w).1 ≡ insert_all (map (seed_row instance_id) ps) w.1
  unfolding seed insert_row
  seed_state instance_id [] w = refl
  seed_state instance_id (p ∷ ps) (log, s) =
      seed_state instance_id ps (insert_row v (seed_row instance_id p) (log, s))

  -- A run that inserts rows of which `P` holds with its answer.
  pub record Leaves (P : Answer → List ParticipantRow → Type 0) (out : Answer × World v)
      : Type 0 where
    pub rows : List ParticipantRow
    pub inserted : participants_of out.1.0 ≡ rows
    pub fitting : P out.0 rows

  noted-Leaves :
      (user : User) (body : NewTask) (instance_id session id jid name : Text)
      (res : Outcome (Unit {0})) (w : World v) (s s' s'' : v.State)
      → participants_of w.0
        ≡ owner user.id (owner_name user) ∷ map (seed_row instance_id) body.participants
      → v.create_group session (group_name body) (jids_of body) s
        ≡ (returned (created jid name), s')
      → v.send session jid
          (message_of user body)
          (insert_all (map (seed_row instance_id) body.participants) (v.set_group id jid s'))
        ≡ (res, s'')
      → Leaves
          (Grouped user body id s (some (instance_id, session)))
          (made id (some (jid, name)), note_failure v instance_id res w)
  noted-Leaves user body instance_id session id jid name (returned _) w s s' s'' h g k = record {
    rows = _;
    inserted = h;
    fitting = grouped instance_id session jid name s' s'' g k;
  }
  noted-Leaves user body instance_id session id jid name (thrown e) w s s' s'' h g k = record {
    rows = _;
    inserted = insert_rows _ w ∙ ap (λ l. l ++ observer instance_id (take 400 e) ∷ []) h;
    fitting = uninvited instance_id session jid name e s' s'' g k;
  }

  ungrouped-Leaves :
      (user : User) (body : NewTask) (instance_id session id e : Text) (w : World v) (s : v.State)
      → participants_of w.0 ≡ owner user.id (owner_name user) ∷ []
      → NoGroup (v.create_group session (group_name body) (jids_of body) s).0 e
      → Leaves
          (Grouped user body id s (some (instance_id, session)))
          (made id none, insert_row v (observer instance_id (take 400 e)) w)
  ungrouped-Leaves user body instance_id session id e w s h g = record {
    rows = _;
    inserted = insert_rows _ w ∙ ap (λ l. l ++ observer instance_id (take 400 e) ∷ []) h;
    fitting = ungrouped instance_id session e g;
  }

  group-Leaves :
      (user : User) (body : NewTask) (instance_id session id : Text) (s s' : v.State)
      (res : Outcome GroupReply) (log : List Call)
      → participants_of log ≡ owner user.id (owner_name user) ∷ []
      → v.create_group session (group_name body) (jids_of body) s ≡ (res, s')
      → let out = after_group v user body instance_id session id res (log, s') in
        Leaves (Grouped user body id s (some (instance_id, session))) (made id out.0, out.1)
  unfolding after_group
  group-Leaves user body instance_id session id s s' (thrown e) log h g =
      ungrouped-Leaves user body instance_id session id e (log, s') s h
        (subst (λ x. NoGroup x e) (sym (ap (λ o. o.0) g)) (threw e))
  group-Leaves user body instance_id session id s s' (returned (rejected e)) log h g =
      ungrouped-Leaves user body instance_id session id e (log, s') s h
        (subst (λ x. NoGroup x e) (sym (ap (λ o. o.0) g)) (refused_it e))
  group-Leaves user body instance_id session id s s' (returned (created jid name)) log h g =
      let w₀ : World v = (log ++ group_set id jid ∷ [], v.set_group id jid s') in
      let w : World v = seed v instance_id body.participants w₀ in
      let set : participants_of w₀.0 ≡ owner user.id (owner_name user) ∷ [] =
        participants_of-append log (group_set id jid ∷ []) ∙ append-nil (participants_of log) ∙ h in
      let seeded : participants_of w.0
          ≡ owner user.id (owner_name user) ∷ map (seed_row instance_id) body.participants =
        seed_rows instance_id body.participants w₀
        ∙ ap (λ l. l ++ map (seed_row instance_id) body.participants) set in
      let sent = invite v session jid (message_of user body) w in
      noted-Leaves user body instance_id session id jid name sent.0 sent.1 s s' sent.1.1
        (participants_of-append w.0 (invited session jid (message_of user body) ∷ [])
          ∙ append-nil (participants_of w.0)
          ∙ seeded)
        g
        (ap (v.send session jid (message_of user body))
          (sym (seed_state instance_id body.participants w₀)))

  spin-Leaves :
      (user : User) (body : NewTask) (instance : Option (Text × Text)) (id : Text) (w : World v)
      → participants_of w.0 ≡ owner user.id (owner_name user) ∷ []
      → let out = spin_up v user body instance id w in
        Leaves (Grouped user body id w.1 instance) (made id out.0, out.1)
  unfolding spin_up
  spin-Leaves user body none id w h = record { rows = _; inserted = h; fitting = alone }
  spin-Leaves user body (some (instance_id, session)) id (log, s) h =
      let (res, s') = v.create_group session (group_name body) (jids_of body) s in
      group-Leaves user body instance_id session id s s' res
        (log ++ group_requested session (group_name body) (jids_of body) ∷ [])
        (participants_of-append log (group_requested session (group_name body) (jids_of body) ∷ [])
          ∙ append-nil (participants_of log)
          ∙ h)
        refl

  after_task-Leaves :
      (user : User) (body : NewTask) (instance : Option (Text × Text)) (s s' : v.State)
      (res : Outcome Text) (log : List Call)
      → participants_of log ≡ []
      → v.insert_task (task_row user body (id_of v instance)) s ≡ (res, s')
      → Leaves (Made user body instance s) (after_task v user body instance res (log, s'))
  unfolding insert_row
  after_task-Leaves user body instance s s' (thrown e) log h k = record {
    rows = [];
    inserted = h;
    fitting = not_made e (ap (λ o. o.0) k);
  }
  after_task-Leaves user body instance s s' (returned id) log h k =
      let l =
        spin-Leaves user body instance id (insert_row v (owner user.id (owner_name user)) (log, s'))
          (insert_rows (owner user.id (owner_name user)) (log, s')
            ∙ ap (λ l. l ++ owner user.id (owner_name user) ∷ []) h) in
      record { rows = l.rows; inserted = l.inserted; fitting = task_made id s' k l.fitting }

  -- If the database refuses the task, its error is answered and no participant is inserted. Else the
  -- creator is the first participant. Without an instance there is no other. With one, a group is
  -- asked for: if the gateway makes it, every given contact is inserted, in the given order, and the
  -- answer names the group; a note with the reason follows exactly if the invitation throws. If it
  -- makes none, the answer names no group and a note says why.
  pub create_with-Leaves :
      (user : User) (body : NewTask) (instance : Option (Text × Text)) (s : v.State)
      → Leaves (Made user body instance s) (create_with v user body instance ([], s))
  unfolding create_with
  create_with-Leaves user body instance s =
      let row = task_row user body (id_of v instance) in
      let (res, s') = v.insert_task row s in
      after_task-Leaves user body instance s s' res (task_inserted row ∷ []) refl refl
