-- ===== src/Messages.antt =====
-- packages/pwa/src/app/app/hooks/useMessages.ts: the messages of the open chat. A timestamp counts
-- milliseconds (the source's seconds times 1000). `encodeURIComponent` and the vCard parser are
-- parameters.
pub mod Deleting
pub mod Stars
pub mod Polling
pub mod Switching
pub mod Sending
use zapi_pwa.Base.{
  ℕ, zero, suc, ◌+◌, ◌-◌, ◌*◌, ◌/◌, Bool, true, false, not, ◌&&◌, ◌||◌, Option, none, some, List,
  [], ◌∷◌, ◌++◌, map, if◌then◌else◌, ltb, leb, ◌==◌, Text, text, text_eq, is_empty, filter, find,
  any, take, drop, truthy,
}
use zapi_pwa.Strings.{starts_with, trim}

-- `Message`; `Contact` is what the vCard parser gives.
pub record Message (Contact : Type 0) : Type 0 where
  pub id : Text
  pub chat_jid : Text
  pub chat_name : Option Text
  pub sender_jid : Option Text
  pub sender_name : Option Text
  pub timestamp : ℕ
  pub from_me : Bool
  pub body : Option Text
  pub kind : Text
  pub media_caption : Option Text
  pub media_url : Option Text
  pub filename : Option Text
  pub mime_type : Option Text
  pub transcription : Option Text
  pub transcription_status : Option Text
  pub contact : Option Contact
  pub starred : Bool

-- The starred messages.
abbrev pub Stars : Type 0
Stars = Text → Bool

-- `starsRef.current.add(id)` or `.delete(id)`
abbrev pub set_star : Text → Bool → Stars → Stars
set_star id starred stars other = if text_eq other id then starred else stars other

abbrev pub distance : ℕ → ℕ → ℕ
distance a b = (a - b) + (b - a)

module _ {Contact : Type 0} where
  abbrev pub is_local : Message Contact → Bool
  is_local m = starts_with m.id (text "local-")

  -- `findIndex((m) => m.id === id)`; `none` is -1.
  unfoldable pub find_index : Text → List (Message Contact) → Option ℕ
  find_index id [] = none
  find_index id (m ∷ ms) =
      if text_eq m.id id
      then some 0
      else elim (find_index id ms) [ none ↦ none | some i ↦ some (suc i) ]

  -- The item at an index, with which `restore` keeps it.
  unfoldable pub at_index : ℕ → List (Message Contact) → Option (Message Contact)
  at_index i [] = none
  at_index zero (m ∷ ms) = some m
  at_index (suc i) (m ∷ ms) = at_index i ms

  abbrev kept_at : ℕ → Option (Message Contact) → Option (ℕ × Message Contact)
  kept_at idx none = none
  kept_at idx (some m) = some (idx, m)

  abbrev removed_at :
      List (Message Contact) → Option ℕ → List (Message Contact) × Option (ℕ × Message Contact)
  removed_at prev none = (prev, none)
  removed_at prev (some idx) =
      (take idx prev ++ drop (suc idx) prev, kept_at idx (at_index idx prev))

  -- The optimistic part of `deleteMessage`: the list, and what is kept to restore it.
  unfoldable pub remove_message :
      Text → List (Message Contact) → List (Message Contact) × Option (ℕ × Message Contact)
  remove_message id prev = removed_at prev (find_index id prev)

  -- Its `catch`.
  unfoldable pub restore_message :
      Option (ℕ × Message Contact) → List (Message Contact) → List (Message Contact)
  restore_message none prev = prev
  restore_message (some (idx, m)) prev = take idx prev ++ m ∷ drop idx prev

  abbrev pub star_message : Text → Bool → Message Contact → Message Contact
  star_message id starred m = if text_eq m.id id then record m { starred = starred } else m

  abbrev pub star_all : Text → Bool → List (Message Contact) → List (Message Contact)
  star_all id starred ms = map (star_message id starred) ms

  abbrev toggled :
      Bool
      → Text
      → Option (Message Contact)
      → List (Message Contact) × Stars
      → List (Message Contact) × Stars
  toggled saved id none s = s
  toggled saved id (some m) (ms, stars) =
      let now : List (Message Contact) × Stars =
        (star_all id (not m.starred) ms, set_star id (not m.starred) stars) in
      if saved
      then now
      else (star_all id (not (not m.starred)) now.0, set_star id (not (not m.starred)) now.1)

  -- `toggleStar`, where the request is saved or throws.
  unfoldable pub toggle_star :
      Bool → Text → List (Message Contact) × Stars → List (Message Contact) × Stars
  toggle_star saved id (ms, stars) = toggled saved id (find (λ m. text_eq m.id id) ms) (ms, stars)

  -- `latestTs` in seconds, over the messages from the newest to the oldest.
  unfoldable pub latest_of : List (Message Contact) → ℕ
  latest_of [] = 0
  latest_of (m ∷ ms) = let rest = latest_of ms in if is_local m then rest else m.timestamp / 1000

  -- The optimistic message `m` is confirmed by one of the new messages.
  abbrev pub is_confirmed : List (Message Contact) → Message Contact → Bool
  is_confirmed news m = any (λ n. n.from_me && ltb (distance n.timestamp m.timestamp) 5000) news

  -- The messages of a poll that are new.
  abbrev pub new_of : List (Message Contact) → List (Message Contact) → List (Message Contact)
  new_of fetched prev = filter (λ m. not (any (λ p. text_eq p.id m.id) prev)) fetched

  abbrev merged : List (Message Contact) → List (Message Contact) → List (Message Contact)
  merged [] prev = prev
  merged (n ∷ news) prev =
      filter (λ m. not (is_local m) || not (is_confirmed (n ∷ news) m)) prev ++ n ∷ news

  -- The update of a poll, for messages that were enriched.
  unfoldable pub merge_polled :
      List (Message Contact) → List (Message Contact) → List (Message Contact)
  merge_polled fetched prev = merged (new_of fetched prev) prev

module _ {Contact : Type 0} (encode : Text → Text)
    (parse_vcard : Option Text → Option Contact) where
  abbrev media_url_of : Option Text → Option Text → Option Text → Option Text
  media_url_of (some (u ∷ url)) (some (s ∷ session)) (some (t ∷ token)) =
      if not (starts_with (u ∷ url) (text "http")) && not (starts_with (u ∷ url) (text "/"))
      then some (
          text "/api/waclaw/sessions/"
          ++ (s ∷ session ++ (b'/' ∷ (u ∷ url ++ (text "?token=" ++ encode (t ∷ token))))))
      else some (u ∷ url)
  media_url_of url session token = url

  abbrev contact_of : Message Contact → Option Contact
  contact_of m = elim m.contact [
    | some c ↦ some c
    | none ↦
        if text_eq m.kind (text "vcard") || text_eq m.kind (text "contact")
        then (elim (parse_vcard m.body) [ some c ↦ some c | none ↦ parse_vcard m.media_caption ])
        else none
  ]

  -- `enrichMessage`
  unfoldable pub enrich_message : Option Text → Option Text → Message Contact → Message Contact
  enrich_message session token m = record m {
    media_url = media_url_of m.media_url session token;
    contact = contact_of m;
  }

-- The refs and the state of the hook that the loads touch; `hasOlder` and `initialLoad`, which a load
-- sets to true, are left out.
pub record MessageState (Contact : Type 0) : Type 0 where
  pub messages : List (Message Contact)
  pub loading : Bool
  pub version : ℕ
  pub cache : Text → List (Message Contact)

module _ {Contact : Type 0} where
  -- `cacheRef.current.set(jid, messages)`; a missing entry is an empty list, which is used alike.
  abbrev pub set_cache : Text → List (Message Contact) → MessageState Contact → MessageState Contact
  set_cache jid ms s = record s { cache = λ k. if text_eq jid k then ms else s.cache k }

  abbrev from_cache : List (Message Contact) → MessageState Contact → MessageState Contact
  from_cache [] s = record s { messages = []; loading = true }
  from_cache (m ∷ ms) s = record s { messages = m ∷ ms; loading = false }

  -- `loadMessages` up to its `await`; the version of the load is the new one.
  unfoldable pub begin_load : Text → MessageState Contact → MessageState Contact
  begin_load jid s = from_cache (s.cache jid) (record s { version = s.version + 1 })

  abbrev loaded :
      Text → Option (List (Message Contact)) → MessageState Contact → MessageState Contact
  loaded jid none s = record s { loading = false }
  loaded jid (some ms) s = set_cache jid ms (record s { messages = ms; loading = false })

  -- What follows the `await` of the load with this version; `none` is no array.
  unfoldable pub finish_load :
      Text → ℕ → Option (List (Message Contact)) → MessageState Contact → MessageState Contact
  finish_load jid version fetched s = if version == s.version then loaded jid fetched s else s

  -- The write-through effect, which runs after each render for the chat that is open.
  unfoldable pub write_through : Text → MessageState Contact → MessageState Contact
  write_through jid s = set_cache jid s.messages s
