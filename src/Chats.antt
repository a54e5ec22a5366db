-- ===== src/Chats.antt =====
-- packages/pwa/src/app/app/hooks/useChats.ts: the list of chats. `encodeURIComponent` is a
-- parameter. A value of the local storage is a number: `String` and `parseInt` around it are left
-- out, and the "1" of the sentinel is 1.
pub mod Identity
pub mod Order
pub mod Unread
use zapi_pwa.Base.{
  ℕ, zero, suc, ◌+◌, Bool, true, false, not, ◌&&◌, ◌||◌, Option, none, some, List, [], ◌∷◌, ◌++◌,
  map, if◌then◌else◌, ltb, leb, Text, text, text_eq, is_empty, is_some, filter, length,
}
use zapi_pwa.Strings.{includes, before, lower}
use zapi_pwa.Formatters.{ChatTab, get_chat_tab}

-- A row of the answer of waclaw; `none` is a missing value.
pub record RawChat : Type 0 where
  pub jid : Text
  pub lid : Option Text
  pub identity_key : Option Text
  pub name : Option Text
  pub kind : Option Text
  pub last_ts : Option ℕ
  pub last_message : Option Text
  pub last_sender : Option Text
  pub msg_count : Option ℕ
  pub is_group : Bool
  pub has_avatar : Bool
  pub profile_pic_url : Option Text
  pub pinned : Bool
  pub manual_unread : Bool
  pub muted_until : Option ℕ
  pub blocked : Bool

pub record Chat : Type 0 where
  pub jid : Text
  pub lid : Option Text
  pub name : Text
  pub kind : Text
  pub last_ts : ℕ
  pub last_message : Option Text
  pub last_sender : Option Text
  pub msg_count : ℕ
  pub is_group : Bool
  pub tab : ChatTab
  pub profile_pic_url : Option Text
  pub has_avatar : Bool
  pub is_unread : Bool
  pub pinned : Bool
  pub manual_unread : Bool
  pub muted_until : ℕ
  pub blocked : Bool

abbrev pub Storage : Type 0
Storage = Text → Option ℕ

-- `v || fallback` for a text
abbrev pub or_text : Option Text → Text → Text
or_text none fallback = fallback
or_text (some []) fallback = fallback
or_text (some (c ∷ s)) fallback = c ∷ s

-- `v || null` for a text
abbrev pub or_null : Option Text → Option Text
or_null (some (c ∷ s)) = some (c ∷ s)
or_null _ = none

-- `v || 0`
abbrev pub or_zero : Option ℕ → ℕ
or_zero none = 0
or_zero (some n) = n

-- `readKey`
abbrev pub read_key : Text → Text → Text
read_key session jid = text "wa-read:" ++ (session ++ (b':' ∷ jid))

abbrev pub sentinel_key : Text → Text
sentinel_key session = text "wa-initialized:" ++ session

-- `localStorage.setItem`
abbrev pub set_item : Text → ℕ → Storage → Storage
set_item key v storage k = if text_eq key k then some v else storage k

abbrev pub ts_of : RawChat → ℕ
ts_of c = or_zero c.last_ts

-- The filter of `visible`.
abbrev pub is_visible : RawChat → Bool
is_visible c =
    not (includes c.jid (text "@newsletter")) && not (text_eq c.jid (text "status@broadcast"))

-- The loop of the first load.
unfoldable pub mark_all : Text → List RawChat → Storage → Storage
mark_all session [] storage = storage
mark_all session (c ∷ cs) storage =
    mark_all session cs
      (if ltb 0 (ts_of c) then set_item (read_key session c.jid) (ts_of c) storage else storage)

-- `firstLoad` and what it does; the session is not empty.
unfoldable pub initialize : Text → List RawChat → Storage → Storage
initialize session [] storage = storage
initialize session (c ∷ cs) storage =
    if is_some (storage (sentinel_key session))
    then storage
    else set_item (sentinel_key session) 1 (mark_all session (c ∷ cs) storage)

-- The key of `byIdentity`.
abbrev pub key_of : RawChat → Text
key_of c = or_text c.identity_key c.jid

-- One round of the loop over `visible`: the values of the map, in the order of their first key.
unfoldable pub keep_freshest : RawChat → List RawChat → List RawChat
keep_freshest c [] = c ∷ []
keep_freshest c (d ∷ ds) =
    if text_eq (key_of d) (key_of c)
    then (if ltb (ts_of d) (ts_of c) then c ∷ ds else d ∷ ds)
    else d ∷ keep_freshest c ds

unfoldable pub dedup_onto : List RawChat → List RawChat → List RawChat
dedup_onto kept [] = kept
dedup_onto kept (c ∷ cs) = dedup_onto (keep_freshest c kept) cs

-- `deduped`
unfoldable pub dedup : List RawChat → List RawChat
dedup cs = dedup_onto [] cs

-- The comparison of the sort gives a negative number or zero.
abbrev pub not_after : Chat → Chat → Bool
not_after a b =
    if a.pinned
    then (if b.pinned then leb b.last_ts a.last_ts else true)
    else (if b.pinned then false else leb b.last_ts a.last_ts)

-- `sort` is stable.
unfoldable pub insert : Chat → List Chat → List Chat
insert c [] = c ∷ []
insert c (d ∷ ds) = if not_after c d then c ∷ d ∷ ds else d ∷ insert c ds

unfoldable pub sort_chats : List Chat → List Chat
sort_chats [] = []
sort_chats (c ∷ cs) = insert c (sort_chats cs)

abbrev pub same_tab : ChatTab → ChatTab → Bool
same_tab ChatTab.all ChatTab.all = true
same_tab ChatTab.dms ChatTab.dms = true
same_tab ChatTab.groups ChatTab.groups = true
same_tab ChatTab.channels ChatTab.channels = true
same_tab _ _ = false

abbrev message_includes : Option Text → Text → Bool
message_includes none q = false
message_includes (some m) q = includes (lower m) q

-- The test of the search.
abbrev pub is_found : Text → Chat → Bool
is_found q c = includes (lower c.name) q || includes c.jid q || message_includes c.last_message q

-- `filtered`
unfoldable pub filtered : ChatTab → Bool → Text → List Chat → List Chat
filtered tab unread_only search chats =
    let tabbed =
      if same_tab tab ChatTab.all then chats else filter (λ c. same_tab c.tab tab) chats in
    let unread = if unread_only then filter (λ c. c.is_unread) tabbed else tabbed in
    sort_chats (if is_empty search then unread else filter (is_found (lower search)) unread)

-- `tabCounts`
unfoldable pub tab_count : ChatTab → List Chat → ℕ
tab_count tab chats =
    if same_tab tab ChatTab.all
    then length chats
    else length (filter (λ c. same_tab c.tab tab) chats)

-- `unreadCount`
unfoldable pub unread_count : List Chat → ℕ
unread_count chats = length (filter (λ c. c.is_unread) chats)

module _ (encode : Text → Text) where
  abbrev avatar_url : Text → Text → Text → Text
  avatar_url session jid token =
      text "/api/waclaw/sessions/"
      ++ (session ++ (text "/avatar/" ++ (encode jid ++ (text "?token=" ++ encode token))))

  abbrev picture_of : Option Text → Option Text → RawChat → Option Text
  picture_of (some (s ∷ session)) (some (t ∷ token)) c =
      if c.has_avatar
      then some (avatar_url (s ∷ session) c.jid (t ∷ token))
      else or_null c.profile_pic_url
  picture_of _ _ c = or_null c.profile_pic_url

  -- `lastReadTs`
  abbrev pub last_read : Option Text → Text → Storage → ℕ
  last_read (some (s ∷ session)) jid storage = or_zero (storage (read_key (s ∷ session) jid))
  last_read _ jid storage = 0

  -- The row that is shown for a chat.
  unfoldable pub to_chat : Option Text → Option Text → Storage → RawChat → Chat
  to_chat session token storage c = record {
    jid = c.jid;
    lid = or_null c.lid;
    name = or_text c.name (before b'@' c.jid);
    kind = or_text c.kind (text "unknown");
    last_ts = ts_of c;
    last_message = or_null c.last_message;
    last_sender = or_null c.last_sender;
    msg_count = or_zero c.msg_count;
    is_group = c.is_group;
    tab = get_chat_tab (or_text c.kind (text "unknown")) c.jid;
    profile_pic_url = picture_of session token c;
    has_avatar = c.has_avatar;
    is_unread = c.manual_unread || ltb (last_read session c.jid storage) (ts_of c);
    pinned = c.pinned;
    manual_unread = c.manual_unread;
    muted_until = or_zero c.muted_until;
    blocked = c.blocked;
  }

  abbrev init_storage : Option Text → List RawChat → Storage → Storage
  init_storage (some (s ∷ session)) visible storage = initialize (s ∷ session) visible storage
  init_storage _ visible storage = storage

  -- `reloadChats`, from an answer that is an array.
  unfoldable pub reload_chats :
      Option Text → Option Text → List RawChat → Storage → List Chat × Storage
  reload_chats session token answer storage =
      let visible = filter is_visible answer in
      let storage' = init_storage session visible storage in
      (map (to_chat session token storage') (dedup visible), storage')

abbrev pub read_chat : Text → Chat → Chat
read_chat jid c =
    if text_eq c.jid jid then record c { is_unread = false; manual_unread = false } else c

-- `markAsRead` at a time in seconds
unfoldable pub mark_as_read : Option Text → ℕ → Text → List Chat → Storage → List Chat × Storage
mark_as_read (some (s ∷ session)) now jid chats storage =
    (map (read_chat jid) chats, set_item (read_key (s ∷ session) jid) now storage)
mark_as_read _ now jid chats storage = (chats, storage)

abbrev pub unread_chat : Text → Chat → Chat
unread_chat jid c =
    if text_eq c.jid jid then record c { is_unread = true; manual_unread = true } else c

-- `markAsManualUnread`
unfoldable pub mark_as_manual_unread : Text → List Chat → List Chat
mark_as_manual_unread jid chats = map (unread_chat jid) chats
