-- ===== src/Jid/Parsing.antt =====
-- `parseJID` splits at the last `@`.
use mathlib.Core.Option.{some-injective}
use zapi_pwa.Base.{◌≡◌, refl, ◌≢◌, ◌↔◌, false, Option, none, some, [], ◌∷◌, ◌++◌, Text}
use zapi_pwa.Strings.{has, split_last, lower}
use zapi_pwa.Strings.Laws.{split_last_of_parts, split_last_sound}
use zapi_pwa.Jid.{ParsedJid, parse_jid, parsed, server_of}

-- A string is read as a user and a server name.
pub record HasParts (s : Text) (user name : Text) : Type 0 where
  pub joined : s ≡ user ++ b'@' ∷ name
  pub last : has b'@' name ≡ false
  pub user_given : user ≢ []
  pub name_given : name ≢ []

-- What a parse of `s` into `p` amounts to.
abbrev pub IsReading : Text → ParsedJid → Type 0
IsReading s p =
    (name : Text) × HasParts s p.user name × (p.server ≡ server_of (lower name)) × (p.raw ≡ s)

pub parse_of_parts :
    (s user name : Text)
    → HasParts s user name
    → parse_jid (some s) ≡ some (record { user = user; server = server_of (lower name); raw = s })
unfolding parse_jid
parse_of_parts s [] name h = absurd (h.user_given refl)
parse_of_parts s (c ∷ u) [] h = absurd (h.name_given refl)
parse_of_parts s (c ∷ u) (d ∷ v) h =
    rw h.joined (rw (split_last_of_parts b'@' (c ∷ u) (d ∷ v) h.last))

parsed_sound :
    (s : Text) (o : Option (Text × Text)) (p : ParsedJid)
    → split_last b'@' s ≡ o
    → parsed s o ≡ some p
    → IsReading s p
parsed_sound s none p e h = cc
parsed_sound s (some ([], v)) p e h = cc
parsed_sound s (some (c ∷ u, [])) p e h = cc
parsed_sound s (some (c ∷ u, d ∷ v)) p e h =
    let (joined, last) = split_last_sound b'@' s (c ∷ u) (d ∷ v) e in
    let parts : HasParts s (c ∷ u) (d ∷ v) = record {
      joined = joined;
      last = last;
      user_given = λ q. cc;
      name_given = λ q. cc;
    } in
    rw (← some-injective _ _ h) (d ∷ v, parts, refl, refl)

parse_complete : (s : Text) (p : ParsedJid) → IsReading s p → parse_jid (some s) ≡ some p
parse_complete s p (name, parts, server, raw) = rw (parse_of_parts s p.user name parts) (cc)

-- `parseJID` returns `p` exactly when the input is the user of `p`, an `@`, and a name with no
-- `@` in it, both not empty, the server of `p` is that of the lower-case name, and `raw` is the
-- input.
pub parse_jid_iff : (s : Text) (p : ParsedJid) → (parse_jid (some s) ≡ some p) ↔ IsReading s p
unfolding parse_jid
parse_jid_iff s p = (parsed_sound s (split_last b'@' s) p refl, parse_complete s p)
