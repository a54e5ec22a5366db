-- ===== src/Scheduled.antt =====
-- packages/pwa/src/app/api/scheduled, starred/route.ts and user-settings/route.ts: what a user plans,
-- stars and sets. The authentication service, the database, the clock and the parsing of dates are a
-- parameter; the calls that change something are recorded in a log, newest last.
pub mod Planned
pub mod Owned
use zapi_pwa.Base.{
  ℕ, ◌+◌, ◌*◌, ◌≡◌, Bool, true, false, not, ◌&&◌, ◌||◌, Option, none, some, List, [], ◌∷◌, ◌++◌,
  ltb, if◌then◌else◌, Text, text, is_empty, truthy,
}
use zapi_pwa.Effect.{Outcome, returned, thrown}
use zapi_pwa.Strings.{trim}
use zapi_pwa.Routes.{
  need, check, truthy_text, or_null, Answer, refused, answered, unauthorized, user_of_token,
}

-- The fields of the body that are texts.
pub record Body : Type 0 where
  pub session_id : Option Text
  pub chat_jid : Option Text
  pub chat_name : Option Text
  pub body : Option Text
  pub scheduled_for : Option Text
  pub media_base64 : Option Text
  pub media_filename : Option Text
  pub media_mime_type : Option Text

pub record Media : Type 0 where
  pub base64 : Text
  pub filename : Text
  pub mime_type : Text

pub record Row : Type 0 where
  pub user_id : Text
  pub session_id : Text
  pub chat_jid : Text
  pub chat_name : Option Text
  pub body : Option Text
  pub scheduled_for : ℕ
  pub media : Option Media

pub record Star : Type 0 where
  pub session_id : Text
  pub message_id : Text
  pub chat_jid : Text

pub record StarBody : Type 0 where
  pub session_id : Option Text
  pub message_id : Option Text
  pub chat_jid : Option Text
  pub starred : Option Bool

pub record SettingsBody : Type 0 where
  pub display_name : Option Text
  pub transcription_footer : Option Text

pub data Call : Type 0 where
  planned : Row → Call
  canceled : Text → Text → Call
  star_set star_removed : Text → Star → Call
  settings_updated : Text → SettingsBody → Call

pub data Request : Type 0 where
  plan : Body → Request
  cancel : Text → Request
  star : StarBody → Request
  set : SettingsBody → Request

-- What the database answers to an update: an error, no row, or a row.
pub data Reply : Type 0 where
  bad : Text → Reply
  no_row : Reply
  row : Reply

pub record Services : Type 1 where
  pub State : Type 0
  pub user_of : Text → State → Option Text
  pub owns : Text → Text → State → Bool
  pub now : State → ℕ
  -- The time of a text, none where it is no date; a time before 1970 is 0.
  pub moment_of : Text → Option ℕ
  pub run : Call → State → Reply × State

-- `hasText ? text.trim() : null`
abbrev pub filled : Text → Option Text
filled [] = none
filled (c ∷ s) = some (c ∷ s)

unfoldable pub text_of : Body → Option Text
unfolding trim
text_of b = filled (trim (or_null b.body []))

unfoldable pub media_of : Body → Option Media
media_of b = with_base64 (truthy_text b.media_base64)
  where
    with_base64 : Option Text → Option Media
    with_base64 none = none
    with_base64 (some base64) = some (record {
      base64 = base64;
      filename = or_null (truthy_text b.media_filename) (text "arquivo");
      mime_type = or_null (truthy_text b.media_mime_type) (text "application/octet-stream");
    })

abbrev is_given {ℓ} : {A : Type ℓ} → Option A → Bool
is_given none = false
is_given (some a) = true

-- There is a text or a file.
abbrev pub has_content : Body → Bool
has_content b = is_given (text_of b) || is_given (media_of b)

abbrev pub has_update : SettingsBody → Bool
has_update b = is_given b.display_name || is_given b.transcription_footer

abbrev pub row_of : Text → Text → Text → ℕ → Body → Row
row_of user session chat moment b = record {
  user_id = user;
  session_id = session;
  chat_jid = chat;
  chat_name = truthy_text b.chat_name;
  body = text_of b;
  scheduled_for = moment;
  media = media_of b;
}

-- A moment that is not more than a minute ago.
abbrev pub is_ahead : ℕ → ℕ → Bool
is_ahead now moment = not (ltb (moment + 60 * 1000) now)

abbrev pub missing : Text
missing = text "sessionId, chatJid, scheduledFor required"

abbrev star_missing : Text
star_missing = text "sessionId, msgId, chatJid, starred required"

module _ (v : Services) where
  abbrev pub World : Type 0
  World = List Call × v.State

  abbrev pub Handler : Type 0
  Handler = World → Answer (Unit {0}) × World

  -- The answer where no row is an answer `absent`.
  abbrev pub answer_of : Answer (Unit {0}) → Reply → Answer (Unit {0})
  answer_of absent (bad e) = refused 500 e
  answer_of absent no_row = absent
  answer_of absent row = answered tt

  -- One call, whose error ends the request.
  unfoldable pub perform : Answer (Unit {0}) → Call → Handler
  perform absent c (log, s) =
      let (reply, s') = v.run c s in (answer_of absent reply, (log ++ c ∷ [], s'))

  -- `POST` of scheduled
  unfoldable pub post_scheduled : Option Text → Body → Handler
  unfolding perform
  post_scheduled token b (log, s) =
      need (user_of_token v.user_of token s) unauthorized
        (λ user. need (truthy_text b.session_id) (refused 400 missing) (λ session.
          need (truthy_text b.chat_jid) (refused 400 missing) (λ chat.
            need (truthy_text b.scheduled_for) (refused 400 missing) (λ at.
              check (has_content b) (refused 400 (text "text or media attachment required")) (
                need (v.moment_of at) (refused 400 (text "invalid scheduledFor")) (λ moment.
                  check (is_ahead (v.now s) moment)
                    (refused 400 (text "scheduledFor must be in the future"))
                    (check (v.owns user session s) (refused 403 (text "Session not accessible"))
                      (perform (answered tt) (planned (row_of user session chat moment b))))))))))
        (log, s)

  -- `DELETE` of scheduled/[id]
  unfoldable pub delete_scheduled : Option Text → Text → Handler
  unfolding perform
  delete_scheduled token id (log, s) =
      need (user_of_token v.user_of token s) unauthorized
        (λ user. perform (refused 404 (text "Not found or already processed")) (canceled user id))
        (log, s)

  -- `POST` of starred
  unfoldable pub post_starred : Option Text → StarBody → Handler
  unfolding perform
  post_starred token b (log, s) =
      need (user_of_token v.user_of token s) unauthorized
        (λ user. need (truthy_text b.session_id) (refused 400 star_missing) (λ session.
          need (truthy_text b.message_id) (refused 400 star_missing) (λ message.
            need (truthy_text b.chat_jid) (refused 400 star_missing) (λ chat.
              need b.starred (refused 400 star_missing) (λ starred.
                let mark : Star = record {
                  session_id = session;
                  message_id = message;
                  chat_jid = chat;
                } in
                perform (answered tt)
                  (if starred then star_set user mark else star_removed user mark))))))
        (log, s)

  -- `PATCH` of user-settings
  unfoldable pub patch_settings : Option Text → SettingsBody → Handler
  unfolding perform
  patch_settings token b (log, s) =
      need (user_of_token v.user_of token s) (refused 401 (text "unauthorized"))
        (λ user.
          check (has_update b) (refused 400 (text "no valid fields"))
            (perform (answered tt) (settings_updated user b)))
        (log, s)

  -- A request with its token.
  abbrev pub handle_plan : Option Text → Request → Handler
  handle_plan token (plan b) w = post_scheduled token b w
  handle_plan token (cancel id) w = delete_scheduled token id w
  handle_plan token (star b) w = post_starred token b w
  handle_plan token (set b) w = patch_settings token b w
