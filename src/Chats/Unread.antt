-- ===== src/Chats/Unread.antt =====
-- Which chats are marked as unread.
use mathlib.Core.List.{Memᴰ}
use mathlib.Core.List.Memᴰ
use zapi_pwa.Base.{
  ℕ, ◌≡◌, ◌≤◌, refl, sym, ap, ◌∙◌, subst, Bool, true, false, ◌||◌, Option, none, some, List, [],
  ◌∷◌, ◌++◌, All, filter, map, ltb, if◌then◌else◌, Text, text_eq, text_eq_refl, Bool-cases, inl,
  inr, arith, is_some,
}
use zapi_pwa.Chats.{
  Chat, RawChat, Storage, to_chat, reload_chats, dedup, is_visible, mark_all, initialize, set_item,
  read_key, sentinel_key, ts_of, or_zero, mark_as_read,
}
use zapi_pwa.Chats.Identity.{dedup-IsFreshest}

same_prefix : (p s t : Text) → text_eq (p ++ s) (p ++ t) ≡ text_eq s t
unfolding text_eq
same_prefix [] s t = refl
same_prefix (c ∷ p) s t = ground (arith, same_prefix p s t)

read_keys : (session a b : Text) → text_eq (read_key session a) (read_key session b) ≡ text_eq a b
unfolding text_eq
read_keys session a b = same_prefix session (b':' ∷ a) (b':' ∷ b)

keys_apart : (session a : Text) → text_eq (sentinel_key session) (read_key session a) ≡ false
unfolding text_eq
keys_apart session a = refl

-- No two rows have the same identifier.
abbrev pub HasDistinctJids : List RawChat → Type 0
HasDistinctJids [] = Unit
HasDistinctJids (c ∷ cs) = All (λ d. text_eq d.jid c.jid ≡ false) cs × HasDistinctJids cs

set_other :
    (session a b : Text) (n : ℕ) (storage : Storage)
    → text_eq a b ≡ false
    → set_item (read_key session a) n storage (read_key session b) ≡ storage (read_key session b)
set_other session a b n storage h = rw (read_keys session a b, h) refl

mark_other :
    (session jid : Text) (cs : List RawChat) (storage : Storage)
    → All (λ d. text_eq d.jid jid ≡ false) cs
    → mark_all session cs storage (read_key session jid) ≡ storage (read_key session jid)
unfolding mark_all
mark_other session jid [] storage h = refl
mark_other session jid (c ∷ cs) storage (h, hs) = elim (Bool-cases (ltb 0 (ts_of c))) [
  | inl dated ↦ rw dated (
      mark_other session jid cs (set_item (read_key session c.jid) (ts_of c) storage) hs
      ∙ set_other session c.jid jid (ts_of c) storage h)
  | inr undated ↦ rw undated (mark_other session jid cs storage hs)
]

mark_self :
    (session : Text) (c : RawChat) (cs : List RawChat) (storage : Storage)
    → HasDistinctJids cs
    → ltb 0 (ts_of c) ≡ true
    → Memᴰ c cs
    → mark_all session cs storage (read_key session c.jid) ≡ some (ts_of c)
unfolding mark_all
mark_self session c [] storage h dated m = absurd (Memᴰ.not-nil m)
mark_self session c (d ∷ ds) storage (h, hs) dated m = elim (Memᴰ.cases_cons m) [
  | inl e ↦
      subst
        (λ (x : RawChat).
          mark_all session (x ∷ ds) storage (read_key session c.jid) ≡ some (ts_of c))
        e
        (rw dated (
          mark_other session c.jid ds (set_item (read_key session c.jid) (ts_of c) storage)
            (rw (← ap (λ (x : RawChat). x.jid) e) at h)
          ∙ set_self session c storage))
  | inr later ↦
      mark_self session c ds
        (if ltb 0 (ts_of d) then set_item (read_key session d.jid) (ts_of d) storage else storage)
        hs dated later
]
  where
    set_self :
        (session : Text) (c : RawChat) (storage : Storage)
        → set_item (read_key session c.jid) (ts_of c) storage (read_key session c.jid)
          ≡ some (ts_of c)
    set_self session c storage = rw (text_eq_refl (read_key session c.jid)) refl

after_initialize :
    (session jid : Text) (rows : List RawChat) (d : RawChat) (storage : Storage)
    → storage (sentinel_key session) ≡ none
    → Memᴰ d rows
    → initialize session rows storage (read_key session jid)
      ≡ mark_all session rows storage (read_key session jid)
unfolding initialize
after_initialize session jid [] d storage h m = absurd (Memᴰ.not-nil m)
after_initialize session jid (c ∷ cs) d storage h m = rw (h, keys_apart session jid) refl

-- A row that was marked is not newer than its mark.
marked_not_newer :
    (session : Text) (c : RawChat) (rows : List RawChat) (storage : Storage)
    → HasDistinctJids rows
    → Memᴰ c rows
    → ltb (or_zero (mark_all session rows storage (read_key session c.jid))) (ts_of c) ≡ false
marked_not_newer session c rows storage h m = elim (Bool-cases (ltb 0 (ts_of c))) [
  | inl dated ↦ rw (mark_self session c rows storage h dated m) (ground arith)
  | inr undated ↦ ground arith
]

All-map :
    (f : RawChat → Chat) (P : Chat → Type 0) (rows : List RawChat)
    → ((d : RawChat) → Memᴰ d rows → P (f d))
    → All P (map f rows)
All-map f P [] h = tt
All-map f P (d ∷ ds) h = (h d (Memᴰ.head refl), All-map f P ds (λ x m. h x (Memᴰ.tail m)))

or_false : (b c : Bool) → c ≡ false → (b || c) ≡ b
or_false b c h = ground arith

-- The first time that chats are loaded for a session, if their identifiers are distinct, only those
-- that were marked as unread by hand are unread.
pub first_load-read :
    (encode : Text → Text) (s : ℕ) (session : Text) (token : Option Text) (answer : List RawChat)
    (storage : Storage)
    → storage (sentinel_key (s ∷ session)) ≡ none
    → HasDistinctJids (filter is_visible answer)
    → All
        (λ c. c.is_unread ≡ c.manual_unread)
        (reload_chats encode (some (s ∷ session)) token answer storage).0
unfolding reload_chats to_chat
first_load-read encode s session token answer storage first distinct =
    let rows = filter is_visible answer in
    All-map (to_chat encode (some (s ∷ session)) token (initialize (s ∷ session) rows storage))
      (λ c. c.is_unread ≡ c.manual_unread) (dedup rows)
      (λ d m.
        let taken = (dedup-IsFreshest rows).taken d m in
        let marked = after_initialize (s ∷ session) d.jid rows d storage first taken in
        or_false d.manual_unread _
          (rw marked (marked_not_newer (s ∷ session) d rows storage distinct taken)))

map-member :
    (f : RawChat → Chat) (c : Chat) (rows : List RawChat)
    → Memᴰ c (map f rows)
    → (d : RawChat) × (c ≡ f d)
map-member f c [] m = absurd (Memᴰ.not-nil m)
map-member f c (d ∷ ds) m = elim (Memᴰ.cases_cons m) [
  | inl e ↦ (d, e)
  | inr later ↦ map-member f c ds later
]

sentinel_kept :
    (session jid : Text) (now : ℕ) (rows : List RawChat) (storage : Storage)
    → is_some (storage (sentinel_key session)) ≡ true
    → initialize session rows (set_item (read_key session jid) now storage)
      ≡ set_item (read_key session jid) now storage
unfolding initialize text_eq
sentinel_kept session jid now [] storage h = refl
sentinel_kept session jid now (c ∷ cs) storage h = rw h refl

read_at_jid :
    (session jid other : Text) (now : ℕ) (storage : Storage)
    → jid ≡ other
    → set_item (read_key session jid) now storage (read_key session other) ≡ some now
read_at_jid session jid other now storage e =
    rw (← e) (rw (text_eq_refl (read_key session jid)) refl)

not_later : (now ts : ℕ) → ts ≤ now → ltb now ts ≡ false
not_later now ts h = ground arith

-- In a session whose chats were loaded before, a chat that was marked as read at a time stays read
-- on a later reload (unless it is marked by hand) as long as it has no message that is newer than
-- that time.
pub mark_as_read-stays :
    (encode : Text → Text) (s : ℕ) (session : Text) (token : Option Text) (answer : List RawChat)
    (storage : Storage) (now : ℕ) (jid : Text) (chats : List Chat) (c : Chat)
    → is_some (storage (sentinel_key (s ∷ session))) ≡ true
    → Memᴰ c
        (reload_chats encode
          (some (s ∷ session))
          token
          answer
          (mark_as_read (some (s ∷ session)) now jid chats storage).1).0
    → c.jid ≡ jid
    → c.last_ts ≤ now
    → c.is_unread ≡ c.manual_unread
unfolding reload_chats mark_as_read to_chat
mark_as_read-stays encode s session token answer storage now jid chats c initialized m same old =
    let rows = filter is_visible answer in
    let read : Storage = set_item (read_key (s ∷ session) jid) now storage in
    let (d, e) =
      map-member (to_chat encode (some (s ∷ session)) token (initialize (s ∷ session) rows read)) c
        (dedup rows) m in
    let here : jid ≡ d.jid = sym same ∙ ap (λ (x : Chat). x.jid) e in
    let older : ts_of d ≤ now = subst (λ (x : Chat). x.last_ts ≤ now) e old in
    let kept = sentinel_kept (s ∷ session) jid now rows storage initialized in
    let stored = read_at_jid (s ∷ session) jid d.jid now storage here in
    rw e (or_false d.manual_unread _ (rw (kept, stored) (not_later now (ts_of d) older)))
