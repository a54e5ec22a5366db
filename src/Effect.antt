-- ===== src/Effect.antt =====
-- Code that awaits outside calls: a state of the world goes in and comes out, and the result is a
-- value or what was thrown.
use zapi_pwa.Base.{Text}

pub data Outcome {ℓ} (A : Type ℓ) : Type ℓ where
  returned : A → Outcome A
  thrown : Text → Outcome A

abbrev pub Action : Type 0 → Type 0 → Type 0
Action W A = W → Outcome A × W

abbrev pub after_outcome : {W A B : Type 0} → (A → Action W B) → Outcome A → Action W B
after_outcome f (returned a) w = f a w
after_outcome f (thrown e) w = (thrown e, w)

infixl 5 ◌>>=◌ ◌>>◌
abbrev pub ◌>>=◌ : {W A B : Type 0} → Action W A → (A → Action W B) → Action W B
◌>>=◌ m f w = let (o, w') = m w in after_outcome f o w'

abbrev pub ◌>>◌ : {W A B : Type 0} → Action W A → Action W B → Action W B
m >> k = m >>= λ _. k

abbrev pub pure : {W A : Type 0} → A → Action W A
pure a w = (returned a, w)

abbrev pub throw : {W A : Type 0} → Text → Action W A
throw e w = (thrown e, w)

-- A call that returns nothing.
abbrev pub perform : {W : Type 0} → (W → W) → Action W (Unit {0})
perform f w = (returned tt, f w)
