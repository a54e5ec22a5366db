-- ===== src/Sorting.antt =====
-- `Array.prototype.sort` by a number, which is stable.
use mathlib.Core.List.{Permᴰ}
use mathlib.Core.List.Permᴰ
use zapi_pwa.Base.{
  ℕ, ◌≤◌, ◌≡◌, refl, ap, ◌∙◌, List, [], ◌∷◌, leb, ◌==◌, if◌then◌else◌, filter, All, arith,
  Bool-cases, inl, inr,
}

module _ {A : Type 0} (key : A → ℕ) where
  -- Behind the smaller ones, and in front of those with the same key.
  insert_by : A → List A → List A
  insert_by a [] = a ∷ []
  insert_by a (b ∷ bs) = if leb (key a) (key b) then a ∷ b ∷ bs else b ∷ insert_by a bs

  -- `xs.sort((a, b) => key(a) - key(b))`
  unfoldable pub sort_by : List A → List A
  unfolding insert_by
  sort_by [] = []
  sort_by (a ∷ xs) = insert_by a (sort_by xs)

  abbrev pub IsSorted : List A → Type 0
  IsSorted [] = Unit
  IsSorted (a ∷ xs) = All (λ b. key a ≤ key b) xs × IsSorted xs

  All-le : (m n : ℕ) (xs : List A) → m ≤ n → All (λ b. n ≤ key b) xs → All (λ b. m ≤ key b) xs
  All-le m n [] h k = tt
  All-le m n (a ∷ xs) h (p, k) = (omega arith, All-le m n xs h k)

  insert_by-All :
      (m : ℕ) (a : A) (xs : List A)
      → m ≤ key a
      → All (λ b. m ≤ key b) xs
      → All (λ b. m ≤ key b) (insert_by a xs)
  unfolding insert_by
  insert_by-All m a [] h k = (h, tt)
  insert_by-All m a (b ∷ bs) h (p, k) = elim (Bool-cases (leb (key a) (key b))) [
    | inl first ↦ rw first (h, (p, k))
    | inr later ↦ rw later (p, insert_by-All m a bs h k)
  ]

  insert_by-IsSorted : (a : A) (xs : List A) → IsSorted xs → IsSorted (insert_by a xs)
  unfolding insert_by
  insert_by-IsSorted a [] h = (tt, tt)
  insert_by-IsSorted a (b ∷ bs) (p, h) = elim (Bool-cases (leb (key a) (key b))) [
    | inl first ↦
        let k : key a ≤ key b = ground arith in
        rw first ((k, All-le (key a) (key b) bs k p), (p, h))
    | inr later ↦
        let k : key b ≤ key a = ground arith in
        rw later (insert_by-All (key b) a bs k p, insert_by-IsSorted a bs h)
  ]

  insert_by-Permᴰ : (a : A) (xs : List A) → Permᴰ (a ∷ xs) (insert_by a xs)
  unfolding insert_by
  insert_by-Permᴰ a [] = Permᴰ.refl (a ∷ [])
  insert_by-Permᴰ a (b ∷ bs) = elim (Bool-cases (leb (key a) (key b))) [
    | inl first ↦ rw first (Permᴰ.refl (a ∷ b ∷ bs))
    | inr later ↦
        rw later (Permᴰ.trans (Permᴰ.swap refl refl) (Permᴰ.cons refl (insert_by-Permᴰ a bs)))
  ]

  abbrev pub with_key : ℕ → List A → List A
  with_key k = filter (λ a. key a == k)

  insert_by-with_key :
      (k : ℕ) (a : A) (xs : List A) → with_key k (insert_by a xs) ≡ with_key k (a ∷ xs)
  unfolding insert_by
  insert_by-with_key k a [] = refl
  insert_by-with_key k a (b ∷ bs) = ground (arith, insert_by-with_key k a bs)

  pub sort_by-IsSorted : (xs : List A) → IsSorted (sort_by xs)
  unfolding sort_by
  sort_by-IsSorted [] = tt
  sort_by-IsSorted (a ∷ xs) = insert_by-IsSorted a (sort_by xs) (sort_by-IsSorted xs)

  pub sort_by-Permᴰ : (xs : List A) → Permᴰ xs (sort_by xs)
  unfolding sort_by
  sort_by-Permᴰ [] = Permᴰ.nil
  sort_by-Permᴰ (a ∷ xs) =
      Permᴰ.trans (Permᴰ.cons refl (sort_by-Permᴰ xs)) (insert_by-Permᴰ a (sort_by xs))

  -- Those with one key keep their order.
  pub sort_by_stable : (k : ℕ) (xs : List A) → with_key k (sort_by xs) ≡ with_key k xs
  unfolding sort_by
  sort_by_stable k [] = refl
  sort_by_stable k (a ∷ xs) =
      insert_by-with_key k a (sort_by xs)
      ∙ ap (λ l. if key a == k then a ∷ l else l) (sort_by_stable k xs)
