-- ===== src/Scheduled/Owned.antt =====
-- Whose rows a request changes.
use zapi_pwa.Base.{
  ◌≡◌, refl, Bool, true, false, if◌then◌else◌, Option, some, [], ◌∷◌, ◌++◌, Text, text,
}
use zapi_pwa.Routes.{need-elim, check-elim, IsError, Answer, refused, answered, user_of_token}
use zapi_pwa.Scheduled.{
  Body, Star, Call, planned, canceled, star_set, star_removed, settings_updated, Request, plan,
  cancel, star, set, Services, World, answer_of, perform, delete_scheduled, post_starred,
  patch_settings, handle_plan,
}
use zapi_pwa.Scheduled.Planned
use zapi_pwa.Scheduled.Planned.{post_scheduled-Ends, refused_first, planned_once}

-- The user whose row a call inserts or selects.
abbrev pub user_of_call : Call → Text
user_of_call (planned r) = r.user_id
user_of_call (canceled user id) = user
user_of_call (star_set user m) = user
user_of_call (star_removed user m) = user
user_of_call (settings_updated user b) = user

module _ (v : Services) where
  -- How a request ends.
  pub data Ends (token : Option Text) (w : World v) (out : Answer (Unit {0}) × World v)
      : Type 0 where
    unchanged : (a : Answer (Unit {0})) → out ≡ (a, w) → IsError a → Ends token w out
    changed :
        (user : Text) (c : Call) (absent : Answer (Unit {0}))
        → user_of_token v.user_of token w.1 ≡ some user
        → user_of_call c ≡ user
        → out ≡ (answer_of v absent (v.run c w.1).0, (w.0 ++ c ∷ [], (v.run c w.1).1))
        → Ends token w out

  planned-Ends :
      (token : Option Text) (b : Body) (w : World v) (out : Answer (Unit {0}) × World v)
      → Planned.Ends v token b w out
      → Ends token w out
  planned-Ends token b w out (refused_first a e h) = unchanged a e h
  planned-Ends token b w out (planned_once user session chat at moment signed _ _ _ _ _ _ _ e) =
      changed user _ (answered tt) signed refl e

  star-Ends :
      (token : Option Text) (user : Text) (mark : Star) (starred : Bool) (w : World v)
      → user_of_token v.user_of token w.1 ≡ some user
      → Ends token w (
          perform v
            (answered tt)
            (if starred then star_set user mark else star_removed user mark)
            w)
  unfolding perform
  star-Ends token user mark true (log, s) signed =
      changed user (star_set user mark) (answered tt) signed refl refl
  star-Ends token user mark false (log, s) signed =
      changed user (star_removed user mark) (answered tt) signed refl refl

  -- A request to plan or cancel a message, to star one or to change the settings is refused and
  -- changes nothing, or it makes exactly one call, on a row of the signed-in user, and answers what
  -- the database answered to that call.
  pub handle_plan-Ends :
      (token : Option Text) (request : Request) (w : World v)
      → Ends token w (handle_plan v token request w)
  unfolding delete_scheduled post_starred patch_settings perform
  handle_plan-Ends token (plan b) w = planned-Ends token b w _ (post_scheduled-Ends v token b w)
  handle_plan-Ends token (cancel id) (log, s) =
      need-elim (Ends token (log, s)) _ _ _ _ (unchanged _ refl tt) λ user signed.
        changed user (canceled user id) (refused 404 (text "Not found or already processed")) signed
          refl refl
  handle_plan-Ends token (star b) (log, s) =
      let P : Answer (Unit {0}) × World v → Type 0 = Ends token (log, s) in
      need-elim P _ _ _ _ (unchanged _ refl tt) λ user signed.
        need-elim P _ _ _ _ (unchanged _ refl tt) λ session a.
          need-elim P _ _ _ _ (unchanged _ refl tt) λ message c.
            need-elim P _ _ _ _ (unchanged _ refl tt) λ chat d.
              need-elim P _ _ _ _ (unchanged _ refl tt) λ starred e.
                star-Ends token user
                  (record { session_id = session; message_id = message; chat_jid = chat }) starred
                  (log, s) signed
  handle_plan-Ends token (set b) (log, s) =
      let P : Answer (Unit {0}) × World v → Type 0 = Ends token (log, s) in
      need-elim P _ _ _ _ (unchanged _ refl tt) λ user signed.
        check-elim P _ _ _ _ (unchanged _ refl tt)
          λ given. changed user (settings_updated user b) (answered tt) signed refl refl
