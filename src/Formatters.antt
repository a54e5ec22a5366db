-- ===== src/Formatters.antt =====
-- packages/pwa/src/app/app/lib/formatters.ts: names, tabs and avatar colours. The functions that
-- read the clock or the locale are left out.
pub mod Names
pub mod Colours
use zapi_pwa.Base.{
  ℕ, zero, suc, ◌+◌, ◌-◌, ◌*◌, ◌%◌, ◌^◌, Bool, true, false, not, ◌&&◌, ◌||◌, Option, none, some,
  List, [], ◌∷◌, ◌++◌, if◌then◌else◌, ltb, leb, ◌==◌, Text, text, text_eq, is_text, is_empty,
  length, take, drop, get_elem?,
}
use zapi_pwa.Strings.{has, before, second, includes, starts_with, is_digits, after?}

-- `/^\d+-\d+$/.test(s)`
unfoldable pub is_legacy_group : Text → Bool
is_legacy_group s = elim (after? b'-' s) [
  | none ↦ false
  | some rest ↦ is_digits (before b'-' s) && is_digits rest
]

-- `(${ddd}) ${head}-${tail}`
unfoldable pub local_number : ℕ → Text → Text
local_number n phone =
    let num = drop 4 phone in
    b'(' ∷ (take 2 (drop 2 phone) ++ (text ") " ++ (take n num ++ (b'-' ∷ drop n num))))

unfoldable pub format_digits : Text → Text
format_digits phone = if is_digits phone then b'+' ∷ phone else phone

-- The part of `formatChatName` for `local` that is no group: the cases by its length.
unfoldable pub format_local : Text → Text
format_local phone =
    if is_digits phone && leb 15 (length phone)
    then text "Contato"
    else if is_digits phone
        && (length phone == 12 || length phone == 13)
        && starts_with phone (text "55")
    then (if length phone == 13 then local_number 5 phone else local_number 4 phone)
    else format_digits phone

-- `formatChatName(jid, null)`
unfoldable pub format_jid : Text → Text
format_jid jid =
    if is_text (second b'@' jid) (text "lid") || is_text (second b'@' jid) (text "hosted.lid")
    then text "Contato"
    else if is_legacy_group (before b'@' jid)
    then text "Grupo"
    else format_local (before b'@' jid)

-- `formatChatName`
unfoldable pub format_chat_name : Text → Option Text → Text
format_chat_name jid none = format_jid jid
format_chat_name jid (some name) =
    if not (is_empty name) && not (text_eq name jid) && not (has b'@' name)
    then name
    else format_jid jid

abbrev pub jid_name : Option Text → Text
jid_name none = text "Contato"
jid_name (some []) = text "Contato"
jid_name (some (c ∷ jid)) = format_chat_name (c ∷ jid) none

-- `formatSenderName`
unfoldable pub format_sender_name : Option Text → Option Text → Text
format_sender_name none jid = jid_name jid
format_sender_name (some name) jid =
    if not (is_empty name) && not (has b'@' name) && not (is_text jid name)
    then name
    else jid_name jid

pub data ChatTab : Type 0 where
  all dms groups channels : ChatTab

-- `getChatTab`
unfoldable pub get_chat_tab : Text → Text → ChatTab
get_chat_tab kind jid =
    if text_eq kind (text "channel")
      || includes jid (text "@newsletter")
      || text_eq jid (text "status@broadcast")
    then ChatTab.channels
    else if text_eq kind (text "group") || includes jid (text "@g.us")
    then ChatTab.groups
    else ChatTab.dms

-- `((hash << 5) - hash + c) | 0`, as the residue of a 32-bit integer.
unfoldable pub hash_step : ℕ → ℕ → ℕ
hash_step hash c = (hash * 32 % 2 ^ 32 + (2 ^ 32 - hash) + c) % 2 ^ 32

unfoldable pub hash_loop : ℕ → Text → ℕ
hash_loop hash [] = hash
hash_loop hash (c ∷ jid) = hash_loop (hash_step hash c) jid

-- `Math.abs` of the signed integer with this residue.
abbrev pub abs_of : ℕ → ℕ
abs_of hash = if ltb hash (2 ^ 31) then hash else 2 ^ 32 - hash

abbrev pub avatar_colors : List Text
avatar_colors =
    text "#00a884"
    ∷ text "#018a72"
    ∷ text "#25d366"
    ∷ text "#128c7e"
    ∷ text "#7c3aed"
    ∷ text "#2563eb"
    ∷ text "#db2777"
    ∷ text "#ea580c"
    ∷ text "#0891b2"
    ∷ text "#4f46e5"
    ∷ text "#059669"
    ∷ text "#d97706"
    ∷ []

-- `avatarColor`; `none` would be `undefined`.
unfoldable pub avatar_color : Text → Option Text
avatar_color jid = get_elem? avatar_colors (abs_of (hash_loop 0 jid) % 12)
