-- ===== src/Strings/Laws.antt =====
-- How the splitting methods act on a string given by its parts.
use zapi_pwa.Base.{
  ℕ, ◌≡◌, refl, false, none, some, [], ◌∷◌, ◌++◌, arith, inl, inr, Text, Option-cases, Bool-cases,
  ◌==◌, true,
}
use zapi_pwa.Strings.{has, before, after?, second, split_last}

module _ (c : ℕ) where
  pub has-append : (s t : Text) → has c s ≡ false → has c t ≡ false → has c (s ++ t) ≡ false
  unfolding has
  has-append [] t h k = k
  has-append (d ∷ s) t h k = ground (arith, has-append s t)

  pub has-before : (s : Text) → has c (before c s) ≡ false
  unfolding has before
  has-before [] = refl
  has-before (d ∷ s) = ground (arith, has-before s)

  pub before_of_parts : (s t : Text) → has c s ≡ false → before c (s ++ c ∷ t) ≡ s
  unfolding has before
  before_of_parts [] t h = ground arith
  before_of_parts (d ∷ s) t h = ground (arith, before_of_parts s t)

  pub before_of_absent : (s : Text) → has c s ≡ false → before c s ≡ s
  unfolding has before
  before_of_absent [] h = refl
  before_of_absent (d ∷ s) h = ground (arith, before_of_absent s)

  pub after?_of_parts : (s t : Text) → has c s ≡ false → after? c (s ++ c ∷ t) ≡ some t
  unfolding has after?
  after?_of_parts [] t h = ground arith
  after?_of_parts (d ∷ s) t h = ground (arith, after?_of_parts s t)

  pub second_of_parts : (s t : Text) → has c s ≡ false → second c (s ++ c ∷ t) ≡ some (before c t)
  unfolding second
  second_of_parts s t h = rw (after?_of_parts s t h, second)

  pub split_last_of_absent : (s : Text) → has c s ≡ false → split_last c s ≡ none
  unfolding has split_last
  split_last_of_absent [] h = refl
  split_last_of_absent (d ∷ s) h = ground (arith, split_last_of_absent s)

  pub split_last_of_parts : (s t : Text) → has c t ≡ false → split_last c (s ++ c ∷ t) ≡ some (s, t)
  unfolding split_last
  split_last_of_parts [] t h = rw (split_last_of_absent t h) (ground arith)
  split_last_of_parts (d ∷ s) t h = rw (split_last_of_parts s t h)

  split_last-none : (s : Text) → split_last c s ≡ none → has c s ≡ false
  unfolding split_last has
  split_last-none [] e = refl
  split_last-none (d ∷ s) e = elim (Option-cases (split_last c s)) [
    | inl missing ↦ ground (arith, split_last-none s missing)
    | inr (p, found) ↦ ground arith
  ]

  pub split_last_sound :
      (s u v : Text) → split_last c s ≡ some (u, v) → (s ≡ u ++ c ∷ v) × (has c v ≡ false)
  unfolding split_last
  split_last_sound [] u v e = cc
  split_last_sound (d ∷ s) u v e = elim (Option-cases (split_last c s)) [
    | inl missing ↦ ground (arith, split_last-none s missing)
    | inr ((u', v'), found) ↦ ground (arith, split_last_sound s u' v' found)
  ]

  pub has_middle : (u v : Text) → has c (u ++ c ∷ v) ≡ true
  unfolding has
  has_middle [] v = ground arith
  has_middle (d ∷ u) v = ground (arith, has_middle u v)

  -- With a `c` before it, another `c` stands behind the first one.
  pub after?_twice :
      (u v : Text)
      → has c u ≡ true
      → (r : Text) × (after? c (u ++ c ∷ v) ≡ some r) × (has c r ≡ true)
  unfolding has after?
  after?_twice [] v h = cc
  after?_twice (d ∷ u) v h = elim (Bool-cases (d == c)) [
    | inl same ↦ (u ++ c ∷ v, ground arith, has_middle u v)
    | inr other ↦
        let (r, found, twice) = after?_twice u v (ground arith) in (r, ground arith, twice)
  ]
