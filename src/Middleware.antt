-- ===== src/Middleware.antt =====
-- packages/pwa/src/middleware.ts: who may see which page. The signed-in user of the cookies and the
-- row of user_settings are arguments.
pub mod Allowed
use zapi_pwa.Base.{
  Bool, true, false, not, ◌&&◌, ◌||◌, Option, none, some, if◌then◌else◌, Text, text, text_eq,
}
use zapi_pwa.Strings.{starts_with}

-- A row of user_settings, with the columns that may be null.
pub record Settings : Type 0 where
  pub role : Option Text
  pub status : Option Text

pub data Decision : Type 0 where
  next : Decision
  redirect : Text → Decision

abbrev equals : Option Text → Text → Bool
equals none t = false
equals (some s) t = text_eq s t

-- `settings?.role === t` and `settings?.status === t`
abbrev pub has_role : Option Settings → Text → Bool
has_role none t = false
has_role (some settings) t = equals settings.role t

abbrev pub has_status : Option Settings → Text → Bool
has_status none t = false
has_status (some settings) t = equals settings.status t

unfoldable pub is_public : Text → Bool
unfolding starts_with
is_public path =
    text_eq path (text "/login")
    || starts_with path (text "/auth/")
    || starts_with path (text "/api/webhook")
    || starts_with path (text "/api/internal/")

unfoldable pub is_app : Text → Bool
unfolding starts_with
is_app path = starts_with path (text "/app")

unfoldable pub is_admin : Text → Bool
unfolding starts_with
is_admin path = starts_with path (text "/admin")

-- The user is signed in.
unfoldable pub admit : Text → Option Settings → Decision
unfolding is_admin
admit path settings =
    if has_status settings (text "disabled")
    then redirect (text "/login?disabled=1")
    else if is_admin path
    then if not (has_role settings (text "super_admin"))
        || not (has_status settings (text "active"))
      then redirect (text "/app")
      else next
    else next

abbrev pub guard_page : Text → Option Text → (Text → Option Settings) → Decision
guard_page path none settings_of = redirect (text "/login")
guard_page path (some user) settings_of = admit path (settings_of user)

-- `middleware`
unfoldable pub middleware : Text → Option Text → (Text → Option Settings) → Decision
unfolding is_public is_app is_admin
middleware path user settings_of =
    if is_public path
    then next
    else if not (is_app path) && not (is_admin path)
    then next
    else guard_page path user settings_of
