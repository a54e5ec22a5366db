-- ===== src/Tests/Cards.antt =====
-- A vCard, its folds and escapes, and links.
use zapi_pwa.Base.{none, some, ℕ, List, [], ◌∷◌, ◌++◌, ◌≡◌, refl, text, Text, All, arith}
use zapi_pwa.Linkify.{Node, plain, link, linkify}
use zapi_pwa.Linkify.Shown.{shown_text, shown_text-linkify}
use zapi_pwa.Linkify.Bare.{linkify_bare_www}
use zapi_pwa.Strings.{includes}
use zapi_pwa.VCard.{Contact, parse_vcard, unescape_vcard_value, cr, lf}
use zapi_pwa.VCard.Fields.{IsContact, parse_vcard-IsContact}
use zapi_pwa.VCard.Folding.{fold}
use zapi_pwa.VCard.Escapes.{escape_vcard_value, unescape-escape}

linked :
    linkify (some (text "see https://x.com/a, or www.b.org)!"))
    ≡ plain (text "see ")
      ∷ link 0 (text "https://x.com/a") (text "https://x.com/a")
      ∷ plain (text ",")
      ∷ plain (text " or ")
      ∷ link 1 (text "www.b.org") (text "https://www.b.org")
      ∷ plain (text ")!")
      ∷ []
unfolding linkify zapi_pwa.Linkify.match_here
linked = refl

shown_text-linkify_example : shown_text (linkify (some (text "a http://b."))) ≡ text "a http://b."
shown_text-linkify_example = shown_text-linkify (text "a http://b.")

linkify_bare_www_example :
    linkify (some (text "www.,")) ≡ link 0 (text "www") (text "www") ∷ plain (text ".,") ∷ []
linkify_bare_www_example = linkify_bare_www b',' [] refl refl

abbrev line : Text
line = cr ∷ lf ∷ []

abbrev start : Text
start = text "BEGIN:VCARD" ++ (line ++ text "FN:Ana ")

abbrev finish : Text
finish =
    text "Lima"
    ++ (line ++ (text "TEL;TYPE=CELL:+55 (11) 9" ++ (line ++ (text "EMAIL:a@b" ++ line))))

abbrev ana : Contact
ana = record {
  display_name = text "Ana Lima";
  phones = record { phone = text "+55119"; kind = some (text "Celular") } ∷ [];
  emails = some (text "a@b" ∷ []);
  organization = none;
}

read_ana : parse_vcard (some (start ++ finish)) ≡ some ana
unfolding parse_vcard zapi_pwa.Base.text_eq
read_ana = refl

parse_vcard-IsContact_example : IsContact ana
parse_vcard-IsContact_example = parse_vcard-IsContact (some (start ++ finish)) ana read_ana

same_header :
    includes (start ++ fold 32 finish) (text "BEGIN:VCARD")
    ≡ includes (start ++ finish) (text "BEGIN:VCARD")
unfolding includes
same_header = refl

unescape-escape_example : unescape_vcard_value (escape_vcard_value (text "a, b;")) ≡ text "a, b;"
unescape-escape_example = unescape-escape (text "a, b;") (omega arith)
