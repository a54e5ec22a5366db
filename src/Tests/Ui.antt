-- ===== src/Tests/Ui.antt =====
-- Names, colours and lists of chats.
use mathlib.Core.List.{Memᴰ, Permᴰ}
use zapi_pwa.Base.{
  ℕ, ◌+◌, ◌%◌, ◌^◌, ◌≡◌, ◌≤◌, refl, Bool, true, false, Option, none, some, List, [], ◌∷◌, All,
  filter, get_elem?, Text, text, text_eq, arith,
}
use zapi_pwa.Strings.{second, starts_with, includes}
use zapi_pwa.Formatters.{
  is_legacy_group, ChatTab, format_sender_name, format_chat_name, format_jid, format_local,
  local_number, avatar_color, avatar_colors, abs_of,
}
use zapi_pwa.Formatters.Names.{HasNoAt, format_sender_name-HasNoAt}
use zapi_pwa.Formatters.Colours.{polynomial, avatar_color_lem}
use zapi_pwa.Chats.{
  RawChat, Chat, Storage, dedup, dedup_onto, keep_freshest, filtered, tab_count, reload_chats,
  is_visible, mark_as_read, to_chat, initialize,
}
use zapi_pwa.Chats.Identity.{IsFreshest, dedup-IsFreshest}
use zapi_pwa.Chats.Order.{IsOrdered, is_shown, filtered-IsOrdered, tab_count_lem}
use zapi_pwa.Chats.Unread.{HasDistinctJids, first_load-read, mark_as_read-stays}

format_sender_name-HasNoAt_example :
    HasNoAt (format_sender_name (some (text "a@lid")) (some (text "5511987654321@s.whatsapp.net")))
    × HasNoAt (format_chat_name (text "5511987654321@s.whatsapp.net") (some (text "a@lid")))
format_sender_name-HasNoAt_example =
    format_sender_name-HasNoAt (some (text "a@lid")) (some (text "5511987654321@s.whatsapp.net"))
      (text "5511987654321@s.whatsapp.net")

phone_name : format_chat_name (text "5511987654321@s.whatsapp.net") none ≡ text "(11) 98765-4321"
unfolding format_chat_name format_jid second text_eq is_legacy_group format_local starts_with
    local_number
phone_name = refl

avatar_color_lem_example :
    (colour : Text) × (avatar_color (text "5511@lid") ≡ some colour)
    × (get_elem? avatar_colors (abs_of (polynomial 0 (text "5511@lid") % 2 ^ 32) % 12)
        ≡ some colour)
avatar_color_lem_example = avatar_color_lem (text "5511@lid")

abbrev row : Text → Option Text → ℕ → Bool → RawChat
row jid identity_key ts pinned = record {
  jid = jid;
  lid = none;
  identity_key = identity_key;
  name = none;
  kind = none;
  last_ts = some ts;
  last_message = none;
  last_sender = none;
  msg_count = none;
  is_group = false;
  has_avatar = false;
  profile_pic_url = none;
  pinned = pinned;
  manual_unread = false;
  muted_until = none;
  blocked = false;
}

-- One contact under two identifiers, and a group.
abbrev rows : List RawChat
rows =
    row (text "1@lid") (some (text "k")) 5 false
    ∷ row (text "2@g.us") none 7 true
    ∷ row (text "1@c.us") (some (text "k")) 9 false
    ∷ []

dedup-IsFreshest_example : IsFreshest rows (dedup rows)
dedup-IsFreshest_example = dedup-IsFreshest rows

rows_kept :
    dedup rows
    ≡ row (text "1@c.us") (some (text "k")) 9 false ∷ row (text "2@g.us") none 7 true ∷ []
unfolding dedup dedup_onto keep_freshest text_eq
rows_kept = refl

abbrev encode : Text → Text
encode t = t

abbrev fresh : Storage
fresh = λ k. none

abbrev chats : List Chat
chats = (reload_chats encode (some (text "s")) none rows fresh).0

filtered-IsOrdered_example :
    Permᴰ (filter (is_shown ChatTab.groups true []) chats) (filtered ChatTab.groups true [] chats)
    × IsOrdered (filtered ChatTab.groups true [] chats)
filtered-IsOrdered_example = filtered-IsOrdered ChatTab.groups true [] chats

tab_count_lem_example :
    tab_count ChatTab.all chats
    ≡ tab_count ChatTab.dms chats
      + tab_count ChatTab.groups chats
      + tab_count ChatTab.channels chats
tab_count_lem_example = tab_count_lem encode (some (text "s")) none rows fresh

rows_distinct : HasDistinctJids (filter is_visible rows)
unfolding text_eq includes
rows_distinct = ((refl, (refl, tt)), ((refl, tt), (tt, tt)))

first_load-read_example : All (λ c. c.is_unread ≡ c.manual_unread) chats
first_load-read_example = first_load-read encode b's' [] none rows fresh refl rows_distinct

abbrev known : Storage
known = λ k. some 1

abbrev shown : Chat
shown =
    to_chat encode (some (text "s")) none
      (mark_as_read (some (text "s")) 8 (text "2@g.us") chats known).1
      (row (text "2@g.us") none 7 true)

shown_reloaded :
    Memᴰ shown
      (reload_chats encode
        (some (text "s"))
        none
        rows
        (mark_as_read (some (text "s")) 8 (text "2@g.us") chats known).1).0
unfolding reload_chats mark_as_read initialize dedup dedup_onto keep_freshest text_eq includes
shown_reloaded = Memᴰ.tail (Memᴰ.head refl)

shown_old : shown.last_ts ≤ 8
unfolding to_chat
shown_old = omega arith

shown_jid : shown.jid ≡ text "2@g.us"
unfolding to_chat
shown_jid = refl

mark_as_read-stays_example : shown.is_unread ≡ shown.manual_unread
mark_as_read-stays_example =
    mark_as_read-stays encode b's' [] none rows known 8 (text "2@g.us") chats shown refl
      shown_reloaded shown_jid shown_old
