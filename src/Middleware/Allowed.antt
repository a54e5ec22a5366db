-- ===== src/Middleware/Allowed.antt =====
-- The pages that are let through.
use zapi_pwa.Base.{
  ◌≡◌, ◌↔◌, refl, sym, ◌∙◌, Bool, true, false, not, ◌&&◌, ◌||◌, Option, none, some, if◌then◌else◌,
  Text, text,
}
use zapi_pwa.Middleware.{
  Settings, Decision, next, redirect, has_role, has_status, is_public, is_app, is_admin, admit,
  guard_page, middleware,
}

-- The settings of a user who may see a page.
pub record IsAdmitted (path : Text) (settings : Option Settings) : Type 0 where
  pub enabled : has_status settings (text "disabled") ≡ false
  pub admin :
      is_admin path ≡ true
      → (has_role settings (text "super_admin") ≡ true)
        × (has_status settings (text "active") ≡ true)

-- A page that is let through.
pub data IsAllowed (path : Text) (user : Option Text) (settings_of : Text → Option Settings)
    : Type 0 where
  public : is_public path ≡ true → IsAllowed path user settings_of
  unguarded : is_app path ≡ false → is_admin path ≡ false → IsAllowed path user settings_of
  signed_in :
      (u : Text) → user ≡ some u → IsAdmitted path (settings_of u) → IsAllowed path user settings_of

abbrev choose : Bool → Bool → Bool → Bool → Decision
choose disabled admin super active =
    if disabled
    then redirect (text "/login?disabled=1")
    else if admin
    then if not super || not active then redirect (text "/app") else next
    else next

chosen :
    (disabled admin super active : Bool)
    → (choose disabled admin super active ≡ next)
      ↔ ((disabled ≡ false) × (admin ≡ true → (super ≡ true) × (active ≡ true)))
chosen true admin super active = (λ h. cc, λ h. absurd (let z : true ≡ false = h.0 in cc))
chosen false false super active =
    (λ h. (refl, λ e. absurd (let z : false ≡ true = e in cc)), λ h. refl)
chosen false true true true = (λ h. (refl, λ e. (refl, refl)), λ h. refl)
chosen false true true false = (λ h. cc, λ h. absurd (let z : false ≡ true = (h.1 refl).1 in cc))
chosen false true false active = (λ h. cc, λ h. absurd (let z : false ≡ true = (h.1 refl).0 in cc))

admit_iff :
    (path : Text) (settings : Option Settings)
    → (admit path settings ≡ next) ↔ IsAdmitted path settings
unfolding admit
admit_iff path settings =
    let c =
      chosen (has_status settings (text "disabled")) (is_admin path)
        (has_role settings (text "super_admin")) (has_status settings (text "active")) in
    (λ h. record { enabled = (c.0 h).0; admin = (c.0 h).1 }, λ a. c.1 (a.enabled, a.admin))

module _ (path : Text) (user : Option Text) (settings_of : Text → Option Settings) where
  guard_sound :
      (u : Option Text)
      → user ≡ u
      → guard_page path u settings_of ≡ next
      → IsAllowed path user settings_of
  guard_sound none e h = absurd (let z : redirect (text "/login") ≡ next = h in cc)
  guard_sound (some u) e h = signed_in u e ((admit_iff path (settings_of u)).0 h)

  guard_complete :
      (u : Text)
      → user ≡ some u
      → IsAdmitted path (settings_of u)
      → guard_page path user settings_of ≡ next
  guard_complete u e a = rw e ((admit_iff path (settings_of u)).1 a)

  sound :
      (open_page app admin : Bool)
      → is_public path ≡ open_page
      → is_app path ≡ app
      → is_admin path ≡ admin
      → (if open_page
          then next
          else if not app && not admin
          then next
          else guard_page path user settings_of)
        ≡ next
      → IsAllowed path user settings_of
  sound true app admin p a d h = public p
  sound false false false p a d h = unguarded a d
  sound false false true p a d h = guard_sound user refl h
  sound false true admin p a d h = guard_sound user refl h

  complete :
      (open_page app admin : Bool)
      → is_public path ≡ open_page
      → is_app path ≡ app
      → is_admin path ≡ admin
      → IsAllowed path user settings_of
      → (if open_page
          then next
          else if not app && not admin
          then next
          else guard_page path user settings_of)
        ≡ next
  complete true app admin p a d h = refl
  complete false false false p a d h = refl
  complete false app admin p a d (public q) = absurd (let z : true ≡ false = sym q ∙ p in cc)
  complete false false true p a d (unguarded q r) = absurd (let z : false ≡ true = sym r ∙ d in cc)
  complete false true admin p a d (unguarded q r) = absurd (let z : false ≡ true = sym q ∙ a in cc)
  complete false false true p a d (signed_in u e s) = guard_complete u e s
  complete false true admin p a d (signed_in u e s) = guard_complete u e s

-- The middleware lets a page through exactly if it is public, or is none of the pages below /app and
-- /admin, or is asked for by a signed-in user whose settings are not disabled and, below /admin,
-- have the role of a super administrator and the status active.
pub middleware_iff :
    (path : Text) (user : Option Text) (settings_of : Text → Option Settings)
    → (middleware path user settings_of ≡ next) ↔ IsAllowed path user settings_of
unfolding middleware
middleware_iff path user settings_of = (
  sound path user settings_of (is_public path) (is_app path) (is_admin path) refl refl refl,
  complete path user settings_of (is_public path) (is_app path) (is_admin path) refl refl refl,
)
