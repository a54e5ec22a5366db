-- ===== src/VCard.antt =====
-- packages/pwa/src/app/app/lib/vcard.ts: the contact that a vCard carries.
pub mod Fields
pub mod Folding
pub mod Escapes
use zapi_pwa.Base.{
  ℕ, zero, suc, ◌+◌, Bool, true, false, not, ◌&&◌, ◌||◌, Option, none, some, List, [], ◌∷◌, ◌++◌,
  map, leb, ◌==◌, if◌then◌else◌, filter, find, drop, Text, text, text_eq, is_empty, mem_text,
}
use zapi_pwa.Strings.{
  has, before, after?, starts_with, includes, lower, trim, is_digit, split_on, upper,
}

abbrev pub cr : ℕ
cr = 13

abbrev pub lf : ℕ
lf = 10

-- `[ \t]`
abbrev pub is_blank : ℕ → Bool
is_blank c = c == 32 || c == 9

abbrev pub starts_blank : Text → Bool
starts_blank [] = false
starts_blank (c ∷ s) = is_blank c

-- The length of a match of `\r?\n[ \t]` at the front of a text, or 0.
abbrev pub fold_length : Text → ℕ
fold_length [] = 0
fold_length (c ∷ []) = 0
fold_length (c ∷ d ∷ s) =
    if c == lf
    then (if is_blank d then 2 else 0)
    else if c == cr && d == lf && starts_blank s
    then 3
    else 0

-- `text.replace(/\r?\n[ \t]/g, "")`; the number counts units of a match that are still to be left
-- out.
unfoldable pub unfold_from : ℕ → Text → Text
unfold_from k [] = []
unfold_from (suc k) (c ∷ s) = unfold_from k s
unfold_from zero (c ∷ s) = elim (fold_length (c ∷ s)) [
  | zero ↦ c ∷ unfold_from 0 s
  | suc k ↦ unfold_from k s
]

-- The length of a match of `\r?\n` at the front of a text, or 0.
abbrev pub break_length : Text → ℕ
break_length [] = 0
break_length (c ∷ []) = if c == lf then 1 else 0
break_length (c ∷ d ∷ s) = if c == lf then 1 else if c == cr && d == lf then 2 else 0

-- `unfolded.split(/\r?\n/)`: the first line and the others.
unfoldable pub lines_from : ℕ → Text → Text × List Text
lines_from k [] = ([], [])
lines_from (suc k) (c ∷ s) = lines_from k s
lines_from zero (c ∷ s) = elim (break_length (c ∷ s)) [
  | zero ↦ let (line, lines) = lines_from 0 s in (c ∷ line, lines)
  | suc k ↦ let (line, lines) = lines_from k s in ([], line ∷ lines)
]

-- `v.replace(ab, r)` for all occurrences of two units.
unfoldable pub replace_pair : ℕ → ℕ → ℕ → Text → Text
replace_pair a b r [] = []
replace_pair a b r (c ∷ []) = c ∷ []
replace_pair a b r (c ∷ d ∷ s) = elim (c == a && d == b) [
  | true ↦ r ∷ replace_pair a b r s
  | false ↦ c ∷ replace_pair a b r (d ∷ s)
]

abbrev pub backslash : ℕ
backslash = 92

-- `unescapeVCardValue`
unfoldable pub unescape_vcard_value : Text → Text
unfolding replace_pair
unescape_vcard_value v = replace_pair backslash backslash backslash (
    replace_pair backslash b';' b';'
      (replace_pair backslash b',' b',' (replace_pair backslash b'n' lf v)))

-- `humanizeType`
unfoldable pub humanize_type : Text → Text
humanize_type t =
    if mem_text (upper t) (text "CELL" ∷ text "MOBILE" ∷ [])
    then text "Celular"
    else if text_eq (upper t) (text "WORK")
    then text "Trabalho"
    else if text_eq (upper t) (text "HOME")
    then text "Residencial"
    else if text_eq (upper t) (text "FAX")
    then text "Fax"
    else lower t

abbrev preferred : List Text
preferred = text "CELL" ∷ text "MOBILE" ∷ text "WORK" ∷ text "HOME" ∷ []

abbrev known : List Text
known = preferred ++ (text "VOICE" ∷ text "FAX" ∷ [])

abbrev first_of : List Text → Text
first_of [] = []
first_of (t ∷ ts) = t

-- The type of a parameter `TYPE=…`.
unfoldable pub listed_type : Text → Text
unfolding humanize_type split_on
listed_type p =
    let types = split_on b',' (filter (λ c. not (c == b'"')) (drop 5 p)) in
    elim (find (λ t. mem_text t preferred) types) [
      | some t ↦ humanize_type t
      | none ↦ humanize_type (first_of types)
    ]

-- `extractType`
unfoldable pub extract_type : List Text → Option Text
unfolding listed_type starts_with humanize_type
extract_type [] = none
extract_type (p ∷ params) =
    if starts_with p (text "TYPE=")
    then some (listed_type p)
    else if mem_text p known
    then some (humanize_type p)
    else extract_type params

pub record Phone : Type 0 where
  pub phone : Text
  pub kind : Option Text

pub record Contact : Type 0 where
  pub display_name : Text
  pub phones : List Phone
  pub emails : Option (List Text)
  pub organization : Option Text

-- The variables of the loop over the lines.
pub record Draft : Type 0 where
  pub display_name : Text
  pub organization : Option Text
  pub phones : List Phone
  pub emails : List Text

-- A type that is empty is left out.
abbrev pub given : Option Text → Option Text
given (some (c ∷ t)) = some (c ∷ t)
given _ = none

abbrev join_words : Text → Text → Text
join_words [] t = t
join_words (c ∷ s) [] = c ∷ s
join_words (c ∷ s) (d ∷ t) = (c ∷ s) ++ (32 ∷ d ∷ t)

abbrev swapped : List Text → Text
swapped [] = []
swapped (family ∷ []) = join_words [] family
swapped (family ∷ name ∷ parts) = join_words name family

-- The name of a structured value, family name first.
unfoldable pub structured_name : Text → Text
unfolding unescape_vcard_value split_on trim
structured_name value = trim (swapped (map unescape_vcard_value (split_on b';' value)))

abbrev pub with_phone : Text → Option Text → Draft → Draft
with_phone [] kind d = d
with_phone (c ∷ s) kind d = record d {
  phones = d.phones ++ record { phone = c ∷ s; kind = given kind } ∷ [];
}

abbrev pub with_email : Text → Draft → Draft
with_email email d =
    if not (is_empty email) && has b'@' email
    then record d { emails = d.emails ++ email ∷ [] }
    else d

abbrev pub phone_units : Text → Text
phone_units = filter (λ c. is_digit c || c == b'+')

-- A line by its key, its parameters and its value.
unfoldable pub take_field : Text → List Text → Text → Draft → Draft
unfolding unescape_vcard_value structured_name extract_type trim before has
take_field key params value d =
    if text_eq key (text "FN")
    then record d { display_name = unescape_vcard_value value }
    else if text_eq key (text "N") && is_empty d.display_name
    then record d { display_name = structured_name value }
    else if text_eq key (text "ORG")
    then record d { organization = some (unescape_vcard_value (before b';' value)) }
    else if text_eq key (text "TEL")
    then with_phone (phone_units value) (extract_type params) d
    else if text_eq key (text "EMAIL")
    then with_email (trim (unescape_vcard_value value)) d
    else d

abbrev pub take_parts : List Text → Text → Draft → Draft
take_parts [] value d = d
take_parts (key ∷ params) value d = take_field (upper key) (map upper params) value d

abbrev pub take_value : Text → Option Text → Draft → Draft
take_value line (some (c ∷ value)) d = take_parts (split_on b';' (before b':' line)) (c ∷ value) d
take_value line _ d = d

-- The body of the loop.
unfoldable pub take_line : Draft → Text → Draft
unfolding take_field split_on trim starts_with after? before
take_line d raw_line =
    let line = trim raw_line in
    if is_empty line
      || starts_with line (text "BEGIN:")
      || starts_with line (text "END:")
      || starts_with line (text "VERSION:")
    then d
    else take_value line (after? b':' line) d

unfoldable pub take_lines : Draft → List Text → Draft
unfolding take_line
take_lines d [] = d
take_lines d (line ∷ lines) = take_lines (take_line d line) lines

abbrev pub shown_name : Text → List Phone → Text
shown_name (c ∷ name) phones = c ∷ name
shown_name [] [] = text "Contato"
shown_name [] (p ∷ phones) = elim p.phone [ [] ↦ text "Contato" | c ∷ s ↦ c ∷ s ]

abbrev pub some_emails : List Text → Option (List Text)
some_emails [] = none
some_emails (e ∷ es) = some (e ∷ es)

abbrev pub no_phones : List Phone → Bool
no_phones [] = true
no_phones (p ∷ ps) = false

abbrev pub filled_contact : Draft → Contact
filled_contact d = record {
  display_name = shown_name d.display_name d.phones;
  phones = d.phones;
  emails = some_emails d.emails;
  organization = d.organization;
}

-- What is returned after the loop.
abbrev pub contact_of : Draft → Option Contact
contact_of d =
    if is_empty d.display_name && no_phones d.phones then none else some (filled_contact d)

abbrev pub blank_draft : Draft
blank_draft = record { display_name = []; organization = none; phones = []; emails = [] }

unfoldable pub parse_lines : Text × List Text → Option Contact
unfolding take_lines
parse_lines (line, lines) = contact_of (take_lines blank_draft (line ∷ lines))

-- `parseVCard`
unfoldable pub parse_vcard : Option Text → Option Contact
unfolding includes unfold_from lines_from parse_lines
parse_vcard none = none
parse_vcard (some t) =
    if includes t (text "BEGIN:VCARD") then parse_lines (lines_from 0 (unfold_from 0 t)) else none
