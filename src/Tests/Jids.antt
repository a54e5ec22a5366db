-- ===== src/Tests/Jids.antt =====
-- Identifiers of contacts.
use mathlib.Core.Option.{some-injective}
use zapi_pwa.Base.{text_eq, ◌≡◌, refl, ◌≢◌, ◌↔◌, inl, false, true, none, some, text, ◌∷◌, ◌++◌}
use zapi_pwa.Strings.{split_last, has, after?, lower}
use zapi_pwa.Jid.{
  JidServer, Contact, parse_jid, normalize_jid, jids_match_contact, server_of, server_text,
}
use zapi_pwa.Jid.Parsing.{HasParts, IsReading, parse_jid_iff}
use zapi_pwa.Jid.Normal.{
  HasOneAt, normalize_idempotent, normalize_same_server, normalize_two_at, parse-normalize,
}
use zapi_pwa.Jid.Matching.{jids_match_comm, jids_match_self, jids_match_phone}

phone_parts : HasParts (text "5511@c.us") (text "5511") (text "c.us")
unfolding has
phone_parts = record { joined = refl; last = refl; user_given = λ q. cc; name_given = λ q. cc }

upper_parts : HasParts (text "5511@S.whatsapp.net") (text "5511") (text "S.whatsapp.net")
unfolding has
upper_parts = record { joined = refl; last = refl; user_given = λ q. cc; name_given = λ q. cc }

two_parts : HasParts (text "a@b@c") (text "a@b") (text "c")
unfolding has
two_parts = record { joined = refl; last = refl; user_given = λ q. cc; name_given = λ q. cc }

phone_one_at : HasOneAt (text "5511@c.us")
unfolding after? has
phone_one_at rest h = rw (← some-injective _ _ h) refl

abbrev by_jid : Contact
by_jid = record { jid = some (text "5511@c.us"); lid = none; phone = none }

abbrev by_phone : Contact
by_phone = record { jid = none; lid = none; phone = some (text "5511") }

server_of_phone : server_of (lower (text "c.us")) ≡ JidServer.whatsapp
unfolding server_of text_eq
server_of_phone = refl

normalize_phone : normalize_jid (some (text "5511@c.us")) ≡ some (text "5511@s.whatsapp.net")
unfolding normalize_jid parse_jid server_of split_last text_eq
normalize_phone = refl

normalize_idempotent_example :
    normalize_jid (normalize_jid (some (text "5511@c.us")))
    ≡ normalize_jid (some (text "5511@c.us"))
normalize_idempotent_example = normalize_idempotent (text "5511@c.us") phone_one_at

jids_match_comm_example : jids_match_contact by_jid by_phone ≡ jids_match_contact by_phone by_jid
jids_match_comm_example = jids_match_comm by_jid by_phone

jids_match_self_example : jids_match_contact by_jid by_jid ≡ true
jids_match_self_example = jids_match_self by_jid (inl refl)

jids_match_phone_example : jids_match_contact by_jid by_phone ≡ true
jids_match_phone_example =
    jids_match_phone (text "5511@c.us") (text "5511") (text "c.us") by_jid by_phone phone_parts
      server_of_phone refl refl refl

parse_jid_iff_example :
    (parse_jid (some (text "5511@c.us"))
      ≡ some (record { user = text "5511"; server = JidServer.whatsapp; raw = text "5511@c.us" }))
    ↔ IsReading
        (text "5511@c.us")
        (record { user = text "5511"; server = JidServer.whatsapp; raw = text "5511@c.us" })
parse_jid_iff_example =
    parse_jid_iff (text "5511@c.us")
      (record { user = text "5511"; server = JidServer.whatsapp; raw = text "5511@c.us" })

known_phone : server_of (lower (text "c.us")) ≢ JidServer.unknown
unfolding server_of text_eq
known_phone h = cc

same_phone : server_of (lower (text "c.us")) ≡ server_of (lower (text "S.whatsapp.net"))
unfolding server_of text_eq
same_phone = refl

normalize_same_server_example :
    normalize_jid (some (text "5511@c.us")) ≡ normalize_jid (some (text "5511@S.whatsapp.net"))
normalize_same_server_example =
    normalize_same_server (text "5511@c.us") (text "5511@S.whatsapp.net") (text "5511")
      (text "c.us") (text "S.whatsapp.net") phone_parts upper_parts same_phone known_phone

parse-normalize_example :
    parse_jid (normalize_jid (some (text "5511@c.us")))
    ≡ some (record {
      user = text "5511";
      server = server_of (lower (text "c.us"));
      raw = text "5511" ++ b'@' ∷ server_text (server_of (lower (text "c.us")));
    })
parse-normalize_example =
    parse-normalize (text "5511@c.us") (text "5511") (text "c.us") phone_parts known_phone

unknown_c : server_of (lower (text "c")) ≡ JidServer.unknown
unfolding server_of text_eq
unknown_c = refl

no_at_a : has b'@' (text "a") ≡ false
unfolding has
no_at_a = refl

no_at_b : has b'@' (text "b") ≡ false
unfolding has
no_at_b = refl

normalize_two_at_example : normalize_jid (some (text "a@b@c")) ≡ some (text "a@b@b")
normalize_two_at_example =
    normalize_two_at (text "a") (text "b") (text "c") no_at_a no_at_b two_parts unknown_c
