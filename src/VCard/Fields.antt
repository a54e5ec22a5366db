-- ===== src/VCard/Fields.antt =====
-- What a contact that was read from a vCard holds.
use mathlib.Core.Option.{none-ne-some}
use zapi_pwa.Base.{
  ℕ, ◌≡◌, ◌≢◌, refl, subst, Bool, true, false, not, ◌&&◌, ◌||◌, Option, none, some, List, [], ◌∷◌,
  arith, ◌==◌, if◌then◌else◌, all, filter, All, All-append, Text, text, Bool-cases, inl, inr,
  is_empty, text_eq, map, and_parts,
}
use zapi_pwa.Strings.{has, trim, upper, includes, is_digit}
use zapi_pwa.VCard.{
  Phone, Contact, Draft, given, with_phone, with_email, phone_units, take_field, take_parts,
  take_value, take_line, take_lines, shown_name, some_emails, contact_of, no_phones, filled_contact,
  blank_draft, parse_lines, parse_vcard, unescape_vcard_value, unfold_from, lines_from,
}

-- Digits and `+`, and no empty type.
pub record IsDialable (p : Phone) : Type 0 where
  pub some_unit : is_empty p.phone ≡ false
  pub dialled : all (λ c. is_digit c || c == b'+') p.phone ≡ true
  pub typed : p.kind ≢ some []

abbrev pub IsEmail : Text → Type 0
IsEmail e = has b'@' e ≡ true

pub record IsRead (d : Draft) : Type 0 where
  pub phones : All IsDialable d.phones
  pub emails : All IsEmail d.emails

filter-all : (p : ℕ → Bool) (s : Text) → all p (filter p s) ≡ true
filter-all p [] = refl
filter-all p (c ∷ s) = elim (Bool-cases (p c)) [
  | inl fits ↦ rw fits (rw fits (filter-all p s))
  | inr other ↦ rw other (filter-all p s)
]

given-typed : (kind : Option Text) → given kind ≢ some []
given-typed none = cc
given-typed (some []) = cc
given-typed (some (c ∷ t)) = cc

with_phone-IsRead :
    (s : Text) (kind : Option Text) (d : Draft)
    → all (λ c. is_digit c || c == b'+') s ≡ true
    → IsRead d
    → IsRead (with_phone s kind d)
with_phone-IsRead [] kind d h r = r
with_phone-IsRead (c ∷ s) kind d h r = record {
  phones =
      All-append IsDialable d.phones (_ ∷ []) r.phones
        (record { some_unit = refl; dialled = h; typed = given-typed kind }, tt);
  emails = r.emails;
}

with_email-IsRead : (email : Text) (d : Draft) → IsRead d → IsRead (with_email email d)
with_email-IsRead email d r = elim (Bool-cases (not (is_empty email) && has b'@' email)) [
  | inr other ↦ rw other r
  | inl fits ↦ rw fits (record {
    phones = r.phones;
    emails =
        All-append IsEmail d.emails (email ∷ []) r.emails
          ((and_parts (not (is_empty email)) (has b'@' email) fits).1, tt);
  })
]

-- A predicate that holds of both branches holds of the conditional.
if_keeps {ℓ κ} :
    {A : Type ℓ} (P : A → Type κ) (b : Bool) {x y : A} → P x → P y → P (if b then x else y)
if_keeps P true h k = h
if_keeps P false h k = k

take_field-IsRead :
    (key : Text) (params : List Text) (value : Text) (d : Draft)
    → IsRead d
    → IsRead (take_field key params value d)
unfolding take_field
take_field-IsRead key params value d r =
    let same : (name : Text) → IsRead (record d { display_name = name }) =
      λ name. record { phones = r.phones; emails = r.emails } in
    if_keeps IsRead (text_eq key (text "FN")) (same _) (
      if_keeps IsRead (text_eq key (text "N") && is_empty d.display_name) (same _) (
        if_keeps IsRead (text_eq key (text "ORG")) (record { phones = r.phones; emails = r.emails })
          (if_keeps IsRead (text_eq key (text "TEL"))
            (with_phone-IsRead (phone_units value) _ d (filter-all _ value) r)
            (if_keeps IsRead (text_eq key (text "EMAIL"))
              (with_email-IsRead (trim (unescape_vcard_value value)) d r) r))))

take_parts-IsRead :
    (parts : List Text) (value : Text) (d : Draft) → IsRead d → IsRead (take_parts parts value d)
take_parts-IsRead [] value d r = r
take_parts-IsRead (key ∷ params) value d r =
    take_field-IsRead (upper key) (map upper params) value d r

take_value-IsRead :
    (line : Text) (value : Option Text) (d : Draft) → IsRead d → IsRead (take_value line value d)
take_value-IsRead line none d r = r
take_value-IsRead line (some []) d r = r
take_value-IsRead line (some (c ∷ value)) d r = take_parts-IsRead _ (c ∷ value) d r

take_line-IsRead : (d : Draft) (line : Text) → IsRead d → IsRead (take_line d line)
unfolding take_line
take_line-IsRead d line r = if_keeps IsRead _ r (take_value-IsRead (trim line) _ d r)

take_lines-IsRead : (d : Draft) (lines : List Text) → IsRead d → IsRead (take_lines d lines)
unfolding take_lines
take_lines-IsRead d [] r = r
take_lines-IsRead d (line ∷ lines) r =
    take_lines-IsRead (take_line d line) lines (take_line-IsRead d line r)

abbrev AreEmails : Option (List Text) → Type 0
AreEmails none = Unit
AreEmails (some []) = ⊥
AreEmails (some (e ∷ es)) = All IsEmail (e ∷ es)

-- A contact that can be shown and called.
pub record IsContact (c : Contact) : Type 0 where
  pub named : is_empty c.display_name ≡ false
  pub phones : All IsDialable c.phones
  pub emails : AreEmails c.emails

shown_name-named : (name : Text) (phones : List Phone) → is_empty (shown_name name phones) ≡ false
shown_name-named (c ∷ name) phones = refl
shown_name-named [] [] = refl
shown_name-named [] (p ∷ phones) = ground arith

some_emails-AreEmails : (es : List Text) → All IsEmail es → AreEmails (some_emails es)
some_emails-AreEmails [] h = tt
some_emails-AreEmails (e ∷ es) h = h

contact_of-IsContact : (d : Draft) (c : Contact) → IsRead d → contact_of d ≡ some c → IsContact c
contact_of-IsContact d c r h = elim (Bool-cases (is_empty d.display_name && no_phones d.phones)) [
  | inl missing ↦ absurd (none-ne-some c (rw missing at h))
  | inr present ↦
      let k : some (filled_contact d) ≡ some c = rw present at h in
      let e : filled_contact d ≡ c = cc in
      subst IsContact e (record {
        named = shown_name-named d.display_name d.phones;
        phones = r.phones;
        emails = some_emails-AreEmails d.emails r.emails;
      })
]

lines-IsContact :
    (lines : Text × List Text) (c : Contact) → parse_lines lines ≡ some c → IsContact c
unfolding parse_lines
lines-IsContact (line, lines) c h =
    contact_of-IsContact _ c
      (take_lines-IsRead blank_draft (line ∷ lines) (record { phones = tt; emails = tt })) h

-- A contact that was read has a name, which is not empty; each of its telephone numbers has a unit
-- and only digits and `+`, and no empty type; the e-mail addresses, of which there is at least one
-- if any are given, hold an `@`.
pub parse_vcard-IsContact : (t : Option Text) (c : Contact) → parse_vcard t ≡ some c → IsContact c
unfolding parse_vcard
parse_vcard-IsContact none c h = cc
parse_vcard-IsContact (some t) c h = elim (Bool-cases (includes t (text "BEGIN:VCARD"))) [
  | inr other ↦ absurd (none-ne-some c (rw other at h))
  | inl headed ↦ lines-IsContact (lines_from 0 (unfold_from 0 t)) c (rw headed at h)
]
