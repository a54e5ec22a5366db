-- ===== src/Jid.antt =====
-- packages/pwa/src/lib/jid.ts: parsing, normalising and comparing WhatsApp identifiers.
-- A missing value (`null` or `undefined`) is `none`.
pub mod Parsing
pub mod Normal
pub mod Matching
use zapi_pwa.Base.{
  ◌≡◌, Bool, true, false, ◌&&◌, ◌||◌, Option, none, some, [], ◌∷◌, ◌++◌, if◌then◌else◌, Text, text,
  text_eq, truthy,
}
use zapi_pwa.Strings.{split_last, second, lower}

pub data JidServer : Type 0 where
  whatsapp lid group broadcast newsletter unknown : JidServer

pub record ParsedJid : Type 0 where
  pub user : Text
  pub server : JidServer
  pub raw : Text

-- The spelling of a recognised server; `unknown` has none of its own.
abbrev pub server_text : JidServer → Text
server_text JidServer.whatsapp = text "s.whatsapp.net"
server_text JidServer.lid = text "lid"
server_text JidServer.group = text "g.us"
server_text JidServer.broadcast = text "broadcast"
server_text JidServer.newsletter = text "newsletter"
server_text JidServer.unknown = text "unknown"

-- The server of a lower-case name. (No unit outside ASCII lower-cases to a letter of these names,
-- so `lower` stands for `toLowerCase` here.)
unfoldable pub server_of : Text → JidServer
server_of name =
    if text_eq name (text "s.whatsapp.net") || text_eq name (text "c.us")
    then JidServer.whatsapp
    else if text_eq name (text "lid")
    then JidServer.lid
    else if text_eq name (text "g.us")
    then JidServer.group
    else if text_eq name (text "broadcast")
    then JidServer.broadcast
    else if text_eq name (text "newsletter")
    then JidServer.newsletter
    else JidServer.unknown

-- Both halves have to be non-empty: `atIdx <= 0 || atIdx === input.length - 1`.
abbrev parsed : Text → Option (Text × Text) → Option ParsedJid
parsed raw none = none
parsed raw (some ([], v)) = none
parsed raw (some (c ∷ u, [])) = none
parsed raw (some (c ∷ u, d ∷ v)) =
    some (record { user = c ∷ u; server = server_of (lower (d ∷ v)); raw = raw })

-- `parseJID`. The empty input has no `@`, so it needs no case of its own.
unfoldable pub parse_jid : Option Text → Option ParsedJid
unfolding server_of
parse_jid none = none
parse_jid (some input) = parsed input (split_last b'@' input)

abbrev has_server : JidServer → JidServer → Bool
has_server JidServer.whatsapp JidServer.whatsapp = true
has_server JidServer.lid JidServer.lid = true
has_server JidServer.group JidServer.group = true
has_server JidServer.unknown JidServer.unknown = true
has_server _ _ = false

-- `parseJID(jid)?.server === s`
abbrev server_is : JidServer → Option ParsedJid → Bool
server_is s none = false
server_is s (some p) = has_server s p.server

pub is_lid : Option Text → Bool
is_lid jid = server_is JidServer.lid (parse_jid jid)

pub is_phone_jid : Option Text → Bool
is_phone_jid jid = server_is JidServer.whatsapp (parse_jid jid)

pub is_group_jid : Option Text → Bool
is_group_jid jid = server_is JidServer.group (parse_jid jid)

-- `${x}` of a possibly undefined string
abbrev interpolate : Option Text → Text
interpolate none = text "undefined"
interpolate (some s) = s

-- `jid!.split("@")[1]` for an unknown server
abbrev server_suffix : JidServer → Text → Text
server_suffix JidServer.unknown raw = interpolate (second b'@' raw)
server_suffix s raw = server_text s

abbrev normalized : Option Text → Option ParsedJid → Option Text
normalized jid none = jid
normalized jid (some p) = some (p.user ++ b'@' ∷ server_suffix p.server p.raw)

-- `normalizeJID`
unfoldable pub normalize_jid : Option Text → Option Text
unfolding parse_jid
normalize_jid jid = normalized jid (parse_jid jid)

-- `phoneFromJID`
pub phone_from_jid : Option Text → Option Text
phone_from_jid jid = elim (parse_jid jid) [
  | none ↦ none
  | some p ↦ if has_server JidServer.whatsapp p.server then some p.user else none
]

pub record Contact : Type 0 where
  pub jid : Option Text
  pub lid : Option Text
  pub phone : Option Text

-- `a && b && a === b`
pub same_text : Option Text → Option Text → Bool
same_text (some (c ∷ s)) (some (d ∷ t)) = text_eq (c ∷ s) (d ∷ t)
same_text _ _ = false

-- `a || b` on possibly missing strings
abbrev or_text : Option Text → Option Text → Option Text
or_text a b = if truthy a then a else b

-- `a.phone || phoneFromJID(normalizeJID(a.jid))`
pub contact_phone : Contact → Option Text
contact_phone a = or_text a.phone (phone_from_jid (normalize_jid a.jid))

-- `jidsMatchContact`
pub jids_match_contact : Contact → Contact → Bool
jids_match_contact a b =
    same_text (normalize_jid a.jid) (normalize_jid b.jid)
    || same_text a.lid b.lid
    || same_text (contact_phone a) (contact_phone b)
