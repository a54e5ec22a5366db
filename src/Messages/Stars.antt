-- ===== src/Messages/Stars.antt =====
-- Starring a message, and taking it back when the request fails.
use mathlib.Core.Option.{some-injective, none-ne-some}
use zapi_pwa.Base.{
  ◌≡◌, refl, ap, ap₂, sym, ◌∙◌, Bool, true, false, not, Option, none, some, List, [], ◌∷◌, find,
  Text, text_eq, text_eq_iff, Bool-cases, inl, inr, All,
}
use zapi_pwa.Messages.{Message, Stars, set_star, star_message, star_all, toggled, toggle_star}

not-not : (b : Bool) → not (not b) ≡ b
not-not true = refl
not-not false = refl

module _ {Contact : Type 0} where
  -- Every message shows the star that is recorded for it.
  abbrev pub IsSynced : List (Message Contact) × Stars → Type 0
  IsSynced (ms, stars) = All (λ m. m.starred ≡ stars m.id) ms

  star-IsSynced :
      (id : Text) (b : Bool) (ms : List (Message Contact)) (stars : Stars)
      → IsSynced (ms, stars)
      → IsSynced (star_all id b ms, set_star id b stars)
  star-IsSynced id b [] stars h = tt
  star-IsSynced id b (m ∷ ms) stars (h, hs) = (one, star-IsSynced id b ms stars hs)
    where
      one : (star_message id b m).starred ≡ set_star id b stars (star_message id b m).id
      one = elim (Bool-cases (text_eq m.id id)) [
        | inl same ↦ rw (same, same) refl
        | inr other ↦ rw (other, other) h
      ]

  found_star :
      (id : Text) (ms : List (Message Contact)) (stars : Stars) (m : Message Contact)
      → IsSynced (ms, stars)
      → find (λ x. text_eq x.id id) ms ≡ some m
      → m.starred ≡ stars id
  found_star id [] stars m s h = absurd (none-ne-some m h)
  found_star id (x ∷ ms) stars m (s, ss) h = elim (Bool-cases (text_eq x.id id)) [
    | inl same ↦
        rw (← some-injective _ _ (rw same at h)) (s ∙ ap stars ((text_eq_iff x.id id).0 same))
    | inr other ↦ found_star id ms stars m ss (rw other at h)
  ]

  unstar :
      (id : Text) (b c : Bool) (ms : List (Message Contact)) (stars : Stars)
      → IsSynced (ms, stars)
      → c ≡ stars id
      → star_all id c (star_all id b ms) ≡ ms
  unstar id b c [] stars h k = refl
  unstar id b c (m ∷ ms) stars (h, hs) k = ap₂ (◌∷◌) one (unstar id b c ms stars hs k)
    where
      one : star_message id c (star_message id b m) ≡ m
      one = elim (Bool-cases (text_eq m.id id)) [
        | inl same ↦
            rw (same, same)
              (ap (λ x. record m { starred = x })
                (k ∙ ap stars (sym ((text_eq_iff m.id id).0 same)) ∙ sym h))
        | inr other ↦ rw (other, other) refl
      ]

  toggled-IsSynced :
      (saved : Bool) (id : Text) (o : Option (Message Contact)) (ms : List (Message Contact))
      (stars : Stars)
      → IsSynced (ms, stars)
      → IsSynced (toggled saved id o (ms, stars))
  toggled-IsSynced saved id none ms stars h = h
  toggled-IsSynced true id (some m) ms stars h = star-IsSynced id (not m.starred) ms stars h
  toggled-IsSynced false id (some m) ms stars h =
      star-IsSynced id (not (not m.starred)) _ _ (star-IsSynced id (not m.starred) ms stars h)

  failed_toggle :
      (id : Text) (o : Option (Message Contact)) (ms : List (Message Contact)) (stars : Stars)
      → IsSynced (ms, stars)
      → find (λ x. text_eq x.id id) ms ≡ o
      → (toggled false id o (ms, stars)).0 ≡ ms
  failed_toggle id none ms stars h e = refl
  failed_toggle id (some m) ms stars h e =
      unstar id (not m.starred) (not (not m.starred)) ms stars h
        (not-not m.starred ∙ found_star id ms stars m h e)

  -- Toggling a star, saved or not, keeps the stars that the messages show the recorded ones; a
  -- request that fails leaves the messages as they were.
  pub toggle_star-IsSynced :
      (saved : Bool) (id : Text) (ms : List (Message Contact)) (stars : Stars)
      → IsSynced (ms, stars)
      → IsSynced (toggle_star saved id (ms, stars)) × ((toggle_star false id (ms, stars)).0 ≡ ms)
  unfolding toggle_star
  toggle_star-IsSynced saved id ms stars h = (
    toggled-IsSynced saved id (find (λ x. text_eq x.id id) ms) ms stars h,
    failed_toggle id (find (λ x. text_eq x.id id) ms) ms stars h refl,
  )
