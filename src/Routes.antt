-- ===== src/Routes.antt =====
-- The handlers of packages/pwa/src/app/api return early: `need` is an `if (!x) return …` that goes on
-- with the value, `check` one that goes on if a test holds.
use mathlib.Core.Option.{none-ne-some}
use zapi_pwa.Base.{
  sym, ◌∙◌, ℕ, ◌*◌, ◌≡◌, refl, Bool, true, false, Option, none, some, ◌∷◌, ltb, if◌then◌else◌, Text,
  text,
}

unfoldable pub need {ℓ} : {W R : Type 0} {A : Type ℓ} → Option A → R → (A → W → R × W) → W → R × W
need none r k w = (r, w)
need (some a) r k w = k a w

unfoldable pub check : {W R : Type 0} → Bool → R → (W → R × W) → W → R × W
check true r k w = k w
check false r k w = (r, w)

-- What holds of both exits holds of the result.
pub need-elim {ℓ κ} :
    {W R : Type 0} {A : Type ℓ} (P : R × W → Type κ) (o : Option A) (r : R) (k : A → W → R × W)
    (w : W)
    → P (r, w)
    → ((a : A) → o ≡ some a → P (k a w))
    → P (need o r k w)
unfolding need
need-elim P none r k w h g = h
need-elim P (some a) r k w h g = g a refl

pub check-elim {κ} :
    {W R : Type 0} (P : R × W → Type κ) (b : Bool) (r : R) (k : W → R × W) (w : W)
    → P (r, w)
    → (b ≡ true → P (k w))
    → P (check b r k w)
unfolding check
check-elim P true r k w h g = g refl
check-elim P false r k w h g = h

-- The same where the first exit knows why it is taken.
pub need-both {ℓ κ} :
    {W R : Type 0} {A : Type ℓ} (P : R × W → Type κ) (o : Option A) (r : R) (k : A → W → R × W)
    (w : W)
    → (o ≡ none → P (r, w))
    → ((a : A) → o ≡ some a → P (k a w))
    → P (need o r k w)
unfolding need
need-both P none r k w h g = h refl
need-both P (some a) r k w h g = g a refl

pub check-both {κ} :
    {W R : Type 0} (P : R × W → Type κ) (b : Bool) (r : R) (k : W → R × W) (w : W)
    → (b ≡ false → P (r, w))
    → (b ≡ true → P (k w))
    → P (check b r k w)
unfolding check
check-both P true r k w h g = g refl
check-both P false r k w h g = h refl

pub absent {ℓ} : {A : Type ℓ} {o : Option A} {a : A} → o ≡ none → o ≡ some a → ⊥
absent {a = a} n h = none-ne-some a (sym n ∙ h)

pub need-some {ℓ} :
    {W R : Type 0} {A : Type ℓ} (o : Option A) (r : R) (k : A → W → R × W) (w : W) {a : A}
    → o ≡ some a
    → need o r k w ≡ k a w
unfolding need
need-some o r k w h = rw (h, need) refl

pub check-true :
    {W R : Type 0} (b : Bool) (r : R) (k : W → R × W) (w : W) → b ≡ true → check b r k w ≡ k w
unfolding check
check-true b r k w h = rw (h, check) refl

-- A value that is used only if it is truthy.
abbrev pub truthy_text : Option Text → Option Text
truthy_text (some (c ∷ s)) = some (c ∷ s)
truthy_text _ = none

-- `a || b` on values that may be null
abbrev pub or_text : Option Text → Option Text → Option Text
or_text (some (c ∷ s)) o = some (c ∷ s)
or_text _ o = o

-- `a ?? b`
abbrev pub or_null {ℓ} : {A : Type ℓ} → Option A → A → A
or_null (some a) b = a
or_null none b = b

-- The JSON error of an answer with a status, what was thrown, or an answer that tells of success.
pub data Answer (A : Type 0) : Type 0 where
  refused : ℕ → Text → Answer A
  failed : Text → Answer A
  answered : A → Answer A

abbrev pub IsError : {A : Type 0} → Answer A → Type 0
IsError (refused status e) = Unit
IsError (failed e) = Unit
IsError (answered a) = ⊥

abbrev pub unauthorized : {A : Type 0} → Answer A
unauthorized = refused 401 (text "Unauthorized")

-- `request.headers.get("Authorization")?.replace("Bearer ", "")`, and the user that the service
-- knows for the token.
abbrev pub user_of_token : {A S : Type 0} → (Text → S → Option A) → Option Text → S → Option A
user_of_token user_of (some (c ∷ token)) s = user_of (c ∷ token) s
user_of_token user_of _ s = none

-- Times below 10^12 are in seconds.
abbrev pub in_milliseconds : ℕ → ℕ
in_milliseconds t = if ltb t 1000000000000 then t * 1000 else t
