-- ===== src/Messages/Deleting.antt =====
-- A message whose deletion is refused comes back where it was.
use mathlib.Core.Option.{some-injective, none-ne-some}
use zapi_pwa.Base.{
  ℕ, zero, suc, ◌≡◌, refl, ap, sym, some, List, [], ◌∷◌, ◌++◌, take, drop, text_eq, Text,
  Bool-cases, Option-cases, inl, inr, subst,
}
use zapi_pwa.Messages.{Message, find_index, at_index, remove_message, restore_message}

module _ {Contact : Type 0} where
  find_index-in_range :
      (id : Text) (ms : List (Message Contact)) (i : ℕ)
      → find_index id ms ≡ some i
      → (m : Message Contact) × (at_index i ms ≡ some m)
  unfolding find_index at_index
  find_index-in_range id [] i h = absurd (none-ne-some i h)
  find_index-in_range id (m ∷ ms) i h = elim (Bool-cases (text_eq m.id id)) [
    | inl same ↦
        subst (λ j. (x : Message Contact) × (at_index j (m ∷ ms) ≡ some x))
          (some-injective _ _ (rw same at h)) (m, refl)
    | inr other ↦ elim (Option-cases (find_index id ms)) [
      | inl missing ↦ absurd (none-ne-some i (rw (other, missing) at h))
      | inr (j, found) ↦
          let (x, k) = find_index-in_range id ms j found in
          subst (λ n. (y : Message Contact) × (at_index n (m ∷ ms) ≡ some y))
            (some-injective _ _ (rw (other, found) at h)) (x, k)
    ]
  ]

  restore_at :
      (i : ℕ) (ms more : List (Message Contact)) (m : Message Contact)
      → at_index i ms ≡ some m
      → take i ((take i ms ++ drop (suc i) ms) ++ more)
          ++ m ∷ drop i ((take i ms ++ drop (suc i) ms) ++ more)
        ≡ ms ++ more
  unfolding at_index
  restore_at i [] more m h = absurd (none-ne-some m h)
  restore_at zero (n ∷ ms) more m h = ap (λ x. x ∷ (ms ++ more)) (sym (some-injective _ _ h))
  restore_at (suc i) (n ∷ ms) more m h = ap (◌∷◌ n) (restore_at i ms more m h)

  -- When the service refuses to delete a message, the message is put back at its place, in front of
  -- and behind the same messages, also when other messages were appended in the meantime.
  pub restore_message-remove_message :
      (id : Text) (prev more : List (Message Contact))
      → restore_message (remove_message id prev).1 ((remove_message id prev).0 ++ more)
        ≡ prev ++ more
  unfolding restore_message remove_message
  restore_message-remove_message id prev more = elim (Option-cases (find_index id prev)) [
    | inl missing ↦ rw missing refl
    | inr (i, found) ↦
        let (m, here) = find_index-in_range id prev i found in
        rw (found, here) (restore_at i prev more m here)
  ]
