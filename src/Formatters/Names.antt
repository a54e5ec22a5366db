-- ===== src/Formatters/Names.antt =====
-- What is shown for a sender is never an identifier.
use zapi_pwa.Base.{
  leb, is_text, is_empty, text_eq, ◌≡◌, refl, Bool, true, false, not, ◌&&◌, ◌||◌, Option, none,
  some, [], ◌∷◌, ◌++◌, Text, text, take, drop, Bool-cases, inl, inr, arith, length, ℕ, zero, suc,
  if◌then◌else◌, ◌==◌,
}
use zapi_pwa.Strings.{second, starts_with, has, before, is_digits}
use zapi_pwa.Formatters.{
  is_legacy_group, local_number, format_digits, format_local, format_jid, format_chat_name,
  jid_name, format_sender_name,
}

has-append : (c : ℕ) (s t : Text) → has c (s ++ t) ≡ (has c s || has c t)
unfolding has
has-append c [] t = refl
has-append c (d ∷ s) t = elim (Bool-cases (d == c)) [
  | inl same ↦ rw same refl
  | inr other ↦ rw other (has-append c s t)
]

has-take : (c n : ℕ) (s : Text) → has c s ≡ false → has c (take n s) ≡ false
unfolding has
has-take c zero s h = refl
has-take c (suc n) [] h = refl
has-take c (suc n) (d ∷ s) h = ground (arith, has-take c n s)

has-drop : (c n : ℕ) (s : Text) → has c s ≡ false → has c (drop n s) ≡ false
unfolding has
has-drop c zero s h = h
has-drop c (suc n) [] h = refl
has-drop c (suc n) (d ∷ s) h = ground (arith, has-drop c n s)

has-before : (c : ℕ) (s : Text) → has c (before c s) ≡ false
unfolding has before
has-before c [] = refl
has-before c (d ∷ s) = ground (arith, has-before c s)

pub record HasNoAt (s : Text) : Type 0 where
  pub absent : has b'@' s ≡ false

append-HasNoAt : (s t : Text) → HasNoAt s → HasNoAt t → HasNoAt (s ++ t)
append-HasNoAt s t h k = record { absent = rw (has-append b'@' s t, h.absent, k.absent) refl }

take-HasNoAt : (n : ℕ) (s : Text) → HasNoAt s → HasNoAt (take n s)
take-HasNoAt n s h = record { absent = has-take b'@' n s h.absent }

drop-HasNoAt : (n : ℕ) (s : Text) → HasNoAt s → HasNoAt (drop n s)
drop-HasNoAt n s h = record { absent = has-drop b'@' n s h.absent }

local_number-HasNoAt : (n : ℕ) (phone : Text) → HasNoAt phone → HasNoAt (local_number n phone)
unfolding local_number has
local_number-HasNoAt n phone h =
    let no_at = drop-HasNoAt 4 phone h in
    append-HasNoAt (b'(' ∷ []) _ (record { absent = refl })
      (append-HasNoAt _ _ (take-HasNoAt 2 _ (drop-HasNoAt 2 phone h)) (
        append-HasNoAt (text ") ") _ (record { absent = refl })
          (append-HasNoAt _ _ (take-HasNoAt n _ no_at)
            (append-HasNoAt (b'-' ∷ []) _ (record { absent = refl }) (drop-HasNoAt n _ no_at)))))

if-HasNoAt : (b : Bool) (s t : Text) → HasNoAt s → HasNoAt t → HasNoAt (if b then s else t)
if-HasNoAt true s t h k = h
if-HasNoAt false s t h k = k

contact-HasNoAt : HasNoAt (text "Contato")
unfolding has
contact-HasNoAt = record { absent = refl }

group-HasNoAt : HasNoAt (text "Grupo")
unfolding has
group-HasNoAt = record { absent = refl }

plus-HasNoAt : (s : Text) → HasNoAt s → HasNoAt (b'+' ∷ s)
unfolding has
plus-HasNoAt s h = record { absent = h.absent }

format_local-HasNoAt : (phone : Text) → HasNoAt phone → HasNoAt (format_local phone)
unfolding format_local format_digits
format_local-HasNoAt phone h =
    if-HasNoAt (is_digits phone && leb 15 (length phone)) (text "Contato") _ contact-HasNoAt (
      if-HasNoAt
        (is_digits phone
          && (length phone == 12 || length phone == 13)
          && starts_with phone (text "55"))
        _ _
        (if-HasNoAt (length phone == 13) _ _ (local_number-HasNoAt 5 phone h)
          (local_number-HasNoAt 4 phone h))
        (if-HasNoAt (is_digits phone) (b'+' ∷ phone) phone (plus-HasNoAt phone h) h))

format_jid-HasNoAt : (jid : Text) → HasNoAt (format_jid jid)
unfolding format_jid
format_jid-HasNoAt jid =
    let server = second b'@' jid in
    let local = before b'@' jid in
    if-HasNoAt (is_text server (text "lid") || is_text server (text "hosted.lid")) (text "Contato")
      _ contact-HasNoAt
      (if-HasNoAt (is_legacy_group local) (text "Grupo") _ group-HasNoAt
        (format_local-HasNoAt local (record { absent = has-before b'@' jid })))

jid_name-HasNoAt : (jid : Option Text) → HasNoAt (jid_name jid)
unfolding format_chat_name
jid_name-HasNoAt none = contact-HasNoAt
jid_name-HasNoAt (some []) = contact-HasNoAt
jid_name-HasNoAt (some (c ∷ jid)) = format_jid-HasNoAt (c ∷ jid)

-- A name is taken only if it has no `@`.
guarded-HasNoAt :
    (b : Bool) (name other : Text)
    → HasNoAt other
    → (b ≡ true → HasNoAt name)
    → HasNoAt (if b then name else other)
guarded-HasNoAt true name other h k = k refl
guarded-HasNoAt false name other h k = h

sender_guard : (p q r : Bool) → (p && not q && r) ≡ true → q ≡ false
sender_guard p q r h = ground arith

chat_guard : (p q r : Bool) → (p && q && not r) ≡ true → r ≡ false
chat_guard p q r h = ground arith

-- Neither the name of a sender nor that of a chat ever contains an `@`, whatever the name and the
-- identifier are.
pub format_sender_name-HasNoAt :
    (name jid : Option Text) (chat : Text)
    → HasNoAt (format_sender_name name jid) × HasNoAt (format_chat_name chat name)
unfolding format_sender_name format_chat_name
format_sender_name-HasNoAt none jid chat = (jid_name-HasNoAt jid, format_jid-HasNoAt chat)
format_sender_name-HasNoAt (some name) jid chat =
    let given = not (is_empty name) in
    let other = not (text_eq name chat) in
    let apart = not (is_text jid name) in
    (
      guarded-HasNoAt (given && not (has b'@' name) && apart) name _ (jid_name-HasNoAt jid)
          (λ h. record { absent = sender_guard given (has b'@' name) apart h }),
      guarded-HasNoAt (given && other && not (has b'@' name)) name _ (format_jid-HasNoAt chat)
          (λ h. record { absent = chat_guard given other (has b'@' name) h }),
    )
