-- ===== src/Formatters/Colours.antt =====
-- The hash of an identifier without wrap-around, and the colour that it picks.
use zapi_pwa.Base.{
  ℕ, zero, suc, ◌+◌, ◌*◌, ◌%◌, ◌^◌, ◌<◌, ◌≡◌, refl, ap, ◌∙◌, some, List, [], ◌∷◌, Text, length,
  get_elem?, arith,
}
use zapi_pwa.Formatters.{hash_step, hash_loop, avatar_color, avatar_colors, abs_of}

-- The polynomial of the units at 31, on top of `h`.
abbrev pub polynomial : ℕ → Text → ℕ
polynomial h [] = h
polynomial h (c ∷ jid) = polynomial (31 * h + c) jid

step : (h c : ℕ) → hash_step (h % 2 ^ 32) c ≡ (31 * h + c) % 2 ^ 32
unfolding hash_step
step h c = omega arith

-- The 32-bit hash of an identifier is the polynomial of its units at 31, modulo 2 ^ 32.
pub hash_loop_lem : (jid : Text) (h : ℕ) → hash_loop (h % 2 ^ 32) jid ≡ polynomial h jid % 2 ^ 32
unfolding hash_loop
hash_loop_lem [] h = refl
hash_loop_lem (c ∷ jid) h = ap (λ k. hash_loop k jid) (step h c) ∙ hash_loop_lem jid (31 * h + c)

get_elem?-in_range :
    (xs : List Text) (n : ℕ) → n < length xs → (x : Text) × (get_elem? xs n ≡ some x)
get_elem?-in_range [] n h = absurd (omega arith)
get_elem?-in_range (x ∷ xs) zero h = (x, refl)
get_elem?-in_range (x ∷ xs) (suc n) h = get_elem?-in_range xs n (omega arith)

-- Every identifier has a colour of the table: the one at the absolute value, modulo 12, of the
-- signed 32-bit number that is congruent to the polynomial of its units at 31.
pub avatar_color_lem :
    (jid : Text)
    → (colour : Text) × (avatar_color jid ≡ some colour)
      × (get_elem? avatar_colors (abs_of (polynomial 0 jid % 2 ^ 32) % 12) ≡ some colour)
unfolding avatar_color
avatar_color_lem jid =
    let (colour, found) =
      get_elem?-in_range avatar_colors (abs_of (polynomial 0 jid % 2 ^ 32) % 12) (omega arith) in
    let same : hash_loop 0 jid ≡ polynomial 0 jid % 2 ^ 32 = hash_loop_lem jid 0 in
    (colour, ap (λ h. get_elem? avatar_colors (abs_of h % 12)) same ∙ found, found)
