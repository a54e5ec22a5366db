-- ===== src/Admin/Guarded.antt =====
-- Who may change something through the routes of the administrators, and what they change.
use zapi_pwa.Base.{
  ◌≡◌, ◌≢◌, refl, sym, Bool, true, not, Option, none, some, List, [], ◌∷◌, ◌++◌, append_assoc,
  append-nil, Text, text, text_eq, text_eq_iff, mem_text,
}
use zapi_pwa.Effect.{Outcome, returned, thrown}
use zapi_pwa.Strings.{has}
use zapi_pwa.Routes.{need, need-elim, check-elim, IsError, Answer}
use zapi_pwa.Admin.{
  Settings, Numbers, Config, Request, set_role, set_disabled, delete_user, invite, resend,
  configure, Call, role_set, status_set, ban_set, user_deleted, invited, link_generated,
  config_updated, Services, token_of, is_super_admin, role_error, status_error, World, after_call,
  perform_call, done, unexpected, require_super_admin, patch_role, new_status, ban_duration,
  patch_disable, delete_as, invite_user, resend_invite, is_within, put_config, handle_as,
  handle_request,
}

-- The calls that a request of a user may lead to.
pub data Made (n : Numbers) (user : Text) : Request n → List (Call n) → Type 0 where
  no_call : (request : Request n) → Made n user request []
  role_made :
      (id r : Text)
      → mem_text r (text "user" ∷ text "super_admin" ∷ []) ≡ true
      → Made n user (set_role id (some r)) (role_set id r ∷ [])
  status_made :
      (id : Text) (d : Bool)
      → Made n user (set_disabled id (some d)) (status_set id (new_status d) ∷ [])
  ban_made :
      (id : Text) (d : Bool)
      → Made n user
          (set_disabled id (some d))
          (status_set id (new_status d) ∷ ban_set id (ban_duration d) ∷ [])
  other_deleted : (id : Text) → id ≢ user → Made n user (delete_user id) (user_deleted id ∷ [])
  user_invited : (e : Text) → has b'@' e ≡ true → Made n user (invite (some e)) (invited e ∷ [])
  link_made : (id e : Text) → Made n user (resend id) (link_generated e ∷ [])
  config_made :
      (c : Config n)
      → is_within n 2 c.neura_temperature ≡ true
      → is_within n 1 c.neura_top_p ≡ true
      → Made n user (configure c) (config_updated user c ∷ [])

module _ (n : Numbers) (v : Services n) where
  -- The caller is signed in, and an active super-admin.
  pub record IsSuperAdmin (header : Option Text) (s : v.State) (user : Text) : Type 0 where
    pub token : Text
    pub settings : Settings
    pub given : token_of header ≡ some token
    pub signed : v.user_of token s ≡ some user
    pub known : v.settings_of user s ≡ some settings
    pub super : is_super_admin settings ≡ true

  -- The log of a run goes on with the calls of its request.
  pub record Runs (request : Request n) (user : Text) (log : List (Call n))
      (out : Answer (Unit {0}) × World n v) : Type 0 where
    pub calls : List (Call n)
    pub logged : out.1.0 ≡ log ++ calls
    pub made : Made n user request calls

  perform-elim {κ} :
      (P : Answer (Unit {0}) × World n v → Type κ) (c : Call n) (error : Text → Answer (Unit {0}))
      (k : World n v → Answer (Unit {0}) × World n v) (w : World n v)
      → ((e : Text) (s' : v.State) → P (error e, (w.0 ++ c ∷ [], s')))
      → ((s' : v.State) → P (k (w.0 ++ c ∷ [], s')))
      → P (perform_call n v c error k w)
  unfolding perform_call
  perform-elim P c error k (log, s) f g = go (v.run c s)
    where
      go : (res : Outcome (Unit {0}) × v.State) → P (after_call n v error k (log ++ c ∷ []) res)
      go (thrown e, s') = f e s'
      go (returned _, s') = g s'

  -- One call, and no other.
  once :
      (request : Request n) (user : Text) (c : Call n) (error : Text → Answer (Unit {0}))
      (w : World n v)
      → Made n user request (c ∷ [])
      → Runs request user w.0 (perform_call n v c error (done n v) w)
  once request user c error w m =
      perform-elim (Runs request user w.0) c error (done n v) w
        (λ e s'. record { calls = c ∷ []; logged = refl; made = m })
        (λ s'. record { calls = c ∷ []; logged = refl; made = m })

  stop :
      (request : Request n) (user : Text) (e : Answer (Unit {0})) (w : World n v)
      → Runs request user w.0 (e, w)
  stop request user e w = record {
    calls = [];
    logged = sym (append-nil w.0);
    made = no_call request;
  }

  role-Runs :
      (user id : Text) (role : Option Text) (w : World n v)
      → Runs (set_role id role) user w.0 (patch_role n v id role w)
  unfolding patch_role
  role-Runs user id none w = unfold need in stop _ user _ w
  role-Runs user id (some r) w =
      unfold need in
      check-elim (Runs (set_role id (some r)) user w.0) _ _ _ _ (stop _ user _ w)
        λ valid. once _ user (role_set id r) role_error w (role_made id r valid)

  disable-Runs :
      (user id : Text) (disabled : Option Bool) (w : World n v)
      → Runs (set_disabled id disabled) user w.0 (patch_disable n v id disabled w)
  unfolding patch_disable
  disable-Runs user id none w = unfold need in stop _ user _ w
  disable-Runs user id (some d) w =
      unfold need in
      let first = status_set id (new_status d) in
      let second = ban_set id (ban_duration d) in
      let P = Runs (set_disabled id (some d)) user w.0 in
      perform-elim P first status_error _ w
        (λ e s'. record { calls = first ∷ []; logged = refl; made = status_made id d })
        (λ s'.
          perform-elim P second (unexpected n v) (done n v) (w.0 ++ first ∷ [], s')
            (λ e s''. record {
              calls = first ∷ second ∷ [];
              logged = append_assoc w.0 (first ∷ []) (second ∷ []);
              made = ban_made id d;
            })
            (λ s''. record {
              calls = first ∷ second ∷ [];
              logged = append_assoc w.0 (first ∷ []) (second ∷ []);
              made = ban_made id d;
            }))

  other_text : (s t : Text) → not (text_eq s t) ≡ true → s ≢ t
  other_text s t h e = let k = (text_eq_iff s t).1 e in cc

  delete-Runs :
      (user id : Text) (w : World n v) → Runs (delete_user id) user w.0 (delete_as n v user id w)
  unfolding delete_as
  delete-Runs user id w =
      check-elim (Runs (delete_user id) user w.0) _ _ _ _ (stop _ user _ w) λ other.
        once _ user (user_deleted id) (unexpected n v) w
          (other_deleted id (other_text id user other))

  invite-Runs :
      (user : Text) (email : Option Text) (w : World n v)
      → Runs (invite email) user w.0 (invite_user n v email w)
  unfolding invite_user
  invite-Runs user none w = unfold need in stop _ user _ w
  invite-Runs user (some e) w =
      unfold need in
      check-elim (Runs (invite (some e)) user w.0) _ _ _ _ (stop _ user _ w)
        λ valid. once _ user (invited e) (unexpected n v) w (user_invited e valid)

  resend-Runs :
      (user id : Text) (w : World n v) → Runs (resend id) user w.0 (resend_invite n v id w)
  unfolding resend_invite
  resend-Runs user id (log, s) =
      need-elim (Runs (resend id) user log) _ _ _ _ (stop _ user _ (log, s))
        λ e found. once _ user (link_generated e) (unexpected n v) (log, s) (link_made id e)

  config-Runs :
      (user : Text) (c : Config n) (w : World n v)
      → Runs (configure c) user w.0 (put_config n v user c w)
  unfolding put_config
  config-Runs user c w =
      let P = Runs (configure c) user w.0 in
      check-elim P _ _ _ _ (stop _ user _ w) λ model. check-elim P _ _ _ _ (stop _ user _ w) λ warm.
        check-elim P _ _ _ _ (stop _ user _ w) λ top.
          check-elim P _ _ _ _ (stop _ user _ w) λ some_field.
            once _ user (config_updated user c) (unexpected n v) w (config_made c warm top)

  handle_as-Runs :
      (request : Request n) (user : Text) (w : World n v)
      → Runs request user w.0 (handle_as n v request user w)
  unfolding handle_as
  handle_as-Runs (set_role id role) user w = role-Runs user id role w
  handle_as-Runs (set_disabled id disabled) user w = disable-Runs user id disabled w
  handle_as-Runs (delete_user id) user w = delete-Runs user id w
  handle_as-Runs (invite email) user w = invite-Runs user email w
  handle_as-Runs (resend id) user w = resend-Runs user id w
  handle_as-Runs (configure c) user w = config-Runs user c w

  -- How a request ends.
  pub data Ends (header : Option Text) (request : Request n) (w : World n v)
      (out : Answer (Unit {0}) × World n v) : Type 0 where
    closed : (e : Answer (Unit {0})) → IsError e → out ≡ (e, w) → Ends header request w out
    opened :
        (user : Text)
        → IsSuperAdmin header w.1 user
        → Runs request user w.0 out
        → Ends header request w out

  -- The routes of the administrators call nothing and change nothing unless the caller is signed in
  -- and an active super-admin. For such a caller a request leads to the calls that are its own and
  -- to no other: a role is one of the two, a status is set before the ban that goes with it, nobody
  -- deletes the own account, an invitation goes to an address with an `@`, and the settings of the
  -- model lie in their bounds.
  pub handle_request-Ends :
      (header : Option Text) (request : Request n) (w : World n v)
      → Ends header request w (handle_request n v header request w)
  unfolding handle_request require_super_admin
  handle_request-Ends header request (log, s) =
      let P : Answer (Unit {0}) × World n v → Type 0 = Ends header request (log, s) in
      need-elim P _ _ _ _ (closed _ tt refl) λ token given.
        need-elim P _ _ _ _ (closed _ tt refl) λ user signed.
          need-elim P _ _ _ _ (closed _ tt refl) λ settings known.
            check-elim P _ _ _ _ (closed _ tt refl) λ super.
              check-elim P _ _ _ _ (closed _ tt refl) λ configured.
                opened user
                  (record {
                    token = token;
                    settings = settings;
                    given = given;
                    signed = signed;
                    known = known;
                    super = super;
                  })
                  (handle_as-Runs request user (log, s))
