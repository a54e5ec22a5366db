-- ===== src/VCard/Folding.antt =====
-- Folded lines.
use zapi_pwa.Base.{
  ℕ, zero, suc, ◌≤◌, ◌≡◌, refl, ap, Bool, true, not, ◌&&◌, some, [], ◌∷◌, ◌++◌, arith, ◌==◌, length,
  Text, text,
}
use zapi_pwa.Strings.{includes}
use zapi_pwa.VCard.{cr, lf, is_blank, fold_length, unfold_from, parse_vcard}

-- A text that does not continue a break: its first unit is no blank and no line feed.
abbrev pub starts_plain : Text → Bool
starts_plain [] = true
starts_plain (c ∷ s) = not (is_blank c) && not (c == lf)

-- A break with a blank, as RFC 6350 folds a line.
abbrev pub fold : ℕ → Text → Text
fold b v = cr ∷ lf ∷ b ∷ v

one_left :
    (b c : ℕ) (v : Text) → starts_plain v ≡ true → fold_length (c ∷ fold b v) ≡ fold_length (c ∷ v)
one_left b c [] plain = ground arith
one_left b c (d ∷ v) plain = ground arith

two_left :
    (b c d : ℕ) (v : Text)
    → starts_plain v ≡ true
    → fold_length (c ∷ d ∷ fold b v) ≡ fold_length (c ∷ d ∷ v)
two_left b c d [] plain = ground arith
two_left b c d (e ∷ v) plain = ground arith

fold_length-fold :
    (b c : ℕ) (u v : Text)
    → starts_plain v ≡ true
    → fold_length (c ∷ (u ++ fold b v)) ≡ fold_length (c ∷ (u ++ v))
fold_length-fold b c [] v plain = one_left b c v plain
fold_length-fold b c (d ∷ []) v plain = two_left b c d v plain
fold_length-fold b c (d ∷ e ∷ u) v plain = refl

-- A match in front of the fold ends in front of it.
fold_length-le : (b c : ℕ) (u v : Text) → fold_length (c ∷ (u ++ fold b v)) ≤ suc (length u)
fold_length-le b c [] v = ground arith
fold_length-le b c (d ∷ []) v = ground arith
fold_length-le b c (d ∷ e ∷ u) v = ground arith

choose_cong :
    (n : ℕ) (x y : Text) (f g : ℕ → Text)
    → x ≡ y
    → ((k : ℕ) → n ≡ suc k → f k ≡ g k)
    → ◌≡◌ {A = Text} (elim n [ zero ↦ x | suc k ↦ f k ]) (elim n [ zero ↦ y | suc k ↦ g k ])
choose_cong zero x y f g p q = p
choose_cong (suc n) x y f g p q = q n refl

unfold_from-fold :
    (b k : ℕ) (u v : Text)
    → starts_plain v ≡ true
    → is_blank b ≡ true
    → k ≤ length u
    → unfold_from k (u ++ fold b v) ≡ unfold_from k (u ++ v)
unfolding unfold_from
unfold_from-fold b zero [] v plain blank h = rw (blank, unfold_from) refl
unfold_from-fold b (suc k) [] v plain blank h = absurd (omega arith)
unfold_from-fold b (suc k) (c ∷ u) v plain blank h =
    unfold_from-fold b k u v plain blank (omega arith)
unfold_from-fold b zero (c ∷ u) v plain blank h =
    let n = fold_length-fold b c u v plain in
    rw (n, unfold_from)
      (choose_cong (fold_length (c ∷ (u ++ v))) (c ∷ unfold_from 0 (u ++ fold b v))
        (c ∷ unfold_from 0 (u ++ v)) (λ k. unfold_from k (u ++ fold b v))
        (λ k. unfold_from k (u ++ v))
        (ap (◌∷◌ c) (unfold_from-fold b 0 u v plain blank (omega arith)))
        (λ k e. unfold_from-fold b k u v plain blank (omega (arith, fold_length-le b c u v, n, e))))

-- A break with a blank that folds a line is no part of the contact: with it and without it the card
-- is read alike, if the text behind it starts with no blank and no line feed, and the fold does not
-- cut the only `BEGIN:VCARD`.
pub parse_vcard-fold :
    (b : ℕ) (u v : Text)
    → is_blank b ≡ true
    → starts_plain v ≡ true
    → includes (u ++ fold b v) (text "BEGIN:VCARD") ≡ includes (u ++ v) (text "BEGIN:VCARD")
    → parse_vcard (some (u ++ fold b v)) ≡ parse_vcard (some (u ++ v))
unfolding parse_vcard
parse_vcard-fold b u v blank plain h =
    rw (h, unfold_from-fold b 0 u v plain blank (omega arith)) refl
