-- ===== src/Admin.antt =====
-- packages/pwa/src/lib/admin-auth.ts and the routes of packages/pwa/src/app/api/admin that change
-- something. The authentication service, the database and the environment are a parameter; the calls
-- that change something are recorded in a log, newest last.
pub mod Guarded
use zapi_pwa.Base.{
  ℕ, Bool, true, false, not, ◌&&◌, ◌||◌, Option, none, some, List, [], ◌∷◌, ◌++◌, if◌then◌else◌,
  drop, Text, text, text_eq, is_text, mem_text,
}
use zapi_pwa.Effect.{Outcome, returned, thrown}
use zapi_pwa.Strings.{includes, is_space, starts_with, trim_start, has}
use zapi_pwa.Routes.{need, check, truthy_text, Answer, refused, failed, answered}

pub record Settings : Type 0 where
  pub role : Option Text
  pub status : Option Text

-- A field of a body that is a number: where it lies is all that is asked of it.
pub record Numbers : Type 1 where
  pub Number : Type 0
  pub is_negative : Number → Bool
  pub exceeds : ℕ → Number → Bool

module _ (n : Numbers) where
  pub record Config : Type 0 where
    pub neura_prompt : Option Text
    pub neura_model : Option Text
    pub neura_temperature : Option n.Number
    pub neura_top_p : Option n.Number

  -- The requests that change something, with their parameters; a field of another type than the
  -- handler expects is `none`.
  pub data Request : Type 0 where
    set_role : Text → Option Text → Request
    set_disabled : Text → Option Bool → Request
    delete_user : Text → Request
    invite : Option Text → Request
    resend : Text → Request
    configure : Config → Request

  pub data Call : Type 0 where
    role_set : Text → Text → Call
    status_set : Text → Text → Call
    ban_set : Text → Text → Call
    user_deleted : Text → Call
    invited : Text → Call
    link_generated : Text → Call
    config_updated : Text → Config → Call

  pub record Services : Type 1 where
    pub State : Type 0
    pub user_of : Text → State → Option Text
    pub settings_of : Text → State → Option Settings
    -- Whether the URL and the key of the database are set.
    pub is_configured : Bool
    pub email_of : Text → State → Option Text
    -- The remote procedures and updates, which answer or tell what went wrong.
    pub run : Call → State → Outcome (Unit {0}) × State

-- The text behind `/^[Bb]earer\s+/`.
abbrev starts_space : Text → Bool
starts_space [] = false
starts_space (c ∷ s) = is_space c

unfoldable pub bearer_token : Text → Text
unfolding starts_with trim_start
bearer_token h =
    if (starts_with h (text "Bearer") || starts_with h (text "bearer")) && starts_space (drop 6 h)
    then trim_start (drop 6 h)
    else h

abbrev pub token_of : Option Text → Option Text
token_of none = none
token_of (some h) = truthy_text (some (bearer_token h))

abbrev pub is_super_admin : Settings → Bool
is_super_admin s = is_text s.role (text "super_admin") && is_text s.status (text "active")

abbrev allowed_models : List Text
allowed_models =
    text "llama-3.3-70b-versatile" ∷ text "llama-3.1-8b-instant" ∷ text "openai/gpt-oss-120b" ∷ []

abbrev pub new_status : Bool → Text
new_status true = text "disabled"
new_status false = text "active"

abbrev pub ban_duration : Bool → Text
ban_duration true = text "876000h"
ban_duration false = text "none"

abbrev pub is_within : (n : Numbers) → ℕ → Option n.Number → Bool
is_within n max none = true
is_within n max (some x) = not (n.is_negative x || n.exceeds max x)

abbrev pub internal : Answer (Unit {0})
internal = refused 500 (text "internal")

-- The answer to an error of `admin_update_user_role`.
unfoldable pub role_error : Text → Answer (Unit {0})
unfolding includes
role_error e =
    if includes e (text "cannot demote self")
    then refused 400 (text "cannot demote self")
    else if includes e (text "caller is not super_admin")
        || includes e (text "no authenticated caller")
    then refused 403 (text "forbidden")
    else if includes e (text "invalid role")
    then refused 400 (text "invalid role")
    else internal

-- The answer to an error of `admin_update_user_status`.
unfoldable pub status_error : Text → Answer (Unit {0})
unfolding includes
status_error e =
    if includes e (text "cannot disable self")
    then refused 400 (text "cannot disable self")
    else if includes e (text "caller is not super_admin")
        || includes e (text "no authenticated caller")
    then refused 403 (text "forbidden")
    else internal

module _ (n : Numbers) (v : Services n) where
  abbrev pub World : Type 0
  World = List (Call n) × v.State

  abbrev pub after_call :
      (Text → Answer (Unit {0}))
      → (World → Answer (Unit {0}) × World)
      → List (Call n)
      → Outcome (Unit {0}) × v.State
      → Answer (Unit {0}) × World
  after_call error k log (thrown e, s) = (error e, (log, s))
  after_call error k log (returned _, s) = k (log, s)

  -- A call; what goes wrong is answered by `error`, or else the handler goes on.
  pub perform_call :
      Call n
      → (Text → Answer (Unit {0}))
      → (World → Answer (Unit {0}) × World)
      → World
      → Answer (Unit {0}) × World
  perform_call c error k (log, s) = after_call error k (log ++ c ∷ []) (v.run c s)

  abbrev pub done : World → Answer (Unit {0}) × World
  done w = (answered tt, w)

  abbrev pub unexpected : Text → Answer (Unit {0})
  unexpected e = internal

  -- `requireSuperAdmin`, with what follows it.
  unfoldable pub require_super_admin :
      Option Text → (Text → World → Answer (Unit {0}) × World) → World → Answer (Unit {0}) × World
  require_super_admin header k (log, s) =
      need (token_of header) (refused 401 (text "unauthorized"))
        (λ token. need (v.user_of token s) (refused 401 (text "unauthorized")) (λ user.
          need (v.settings_of user s) (refused 403 (text "forbidden")) (λ settings.
            check (is_super_admin settings) (refused 403 (text "forbidden"))
              (check v.is_configured internal (k user)))))
        (log, s)

  -- `PATCH` of [id]/role
  unfoldable pub patch_role : Text → Option Text → World → Answer (Unit {0}) × World
  patch_role id role w =
      need role (refused 400 (text "invalid role"))
        (λ r.
          check (mem_text r (text "user" ∷ text "super_admin" ∷ []))
            (refused 400 (text "invalid role")) (perform_call (role_set id r) role_error done))
        w

  -- `PATCH` of [id]/disable
  unfoldable pub patch_disable : Text → Option Bool → World → Answer (Unit {0}) × World
  patch_disable id disabled w =
      need disabled (refused 400 (text "disabled must be boolean"))
        (λ d.
          perform_call (status_set id (new_status d)) status_error
            (perform_call (ban_set id (ban_duration d)) unexpected done))
        w

  -- `DELETE` of [id]
  unfoldable pub delete_as : Text → Text → World → Answer (Unit {0}) × World
  delete_as user id w =
      check (not (text_eq id user)) (refused 400 (text "cannot delete self"))
        (perform_call (user_deleted id) unexpected done) w

  -- `POST` of users
  unfoldable pub invite_user : Option Text → World → Answer (Unit {0}) × World
  unfolding has
  invite_user email w =
      need email (refused 400 (text "invalid email"))
        (λ e.
          check (has b'@' e) (refused 400 (text "invalid email"))
            (perform_call (invited e) unexpected done))
        w

  -- `POST` of [id]/resend
  unfoldable pub resend_invite : Text → World → Answer (Unit {0}) × World
  resend_invite id (log, s) =
      need (truthy_text (v.email_of id s)) internal
        (λ e. perform_call (link_generated e) unexpected done) (log, s)

  abbrev is_allowed : Option Text → Bool
  is_allowed none = true
  is_allowed (some m) = mem_text m allowed_models

  abbrev is_given {ℓ} : {A : Type ℓ} → Option A → Bool
  is_given none = false
  is_given (some a) = true

  abbrev has_field : Config n → Bool
  has_field c =
      is_given c.neura_prompt
      || is_given c.neura_model
      || is_given c.neura_temperature
      || is_given c.neura_top_p

  -- `PUT` of platform-config
  unfoldable pub put_config : Text → Config n → World → Answer (Unit {0}) × World
  put_config user c w =
      check (is_allowed c.neura_model) (refused 400 (text "invalid model"))
        (check (is_within n 2 c.neura_temperature) (refused 400 (text "temperature must be [0,2]"))
          (check (is_within n 1 c.neura_top_p) (refused 400 (text "top_p must be [0,1]")) (
            check (has_field c) (refused 400 (text "no valid fields"))
              (perform_call (config_updated user c) unexpected done))))
        w

  unfoldable pub handle_as : Request n → Text → World → Answer (Unit {0}) × World
  unfolding patch_role patch_disable delete_as invite_user resend_invite put_config
  handle_as (set_role id role) user = patch_role id role
  handle_as (set_disabled id disabled) user = patch_disable id disabled
  handle_as (delete_user id) user = delete_as user id
  handle_as (invite email) user = invite_user email
  handle_as (resend id) user = resend_invite id
  handle_as (configure c) user = put_config user c

  -- A request to one of the routes, with its `Authorization` header.
  unfoldable pub handle_request : Option Text → Request n → World → Answer (Unit {0}) × World
  unfolding require_super_admin handle_as
  handle_request header request w = require_super_admin header (handle_as request) w
