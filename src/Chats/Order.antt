-- ===== src/Chats/Order.antt =====
-- Which chats the list shows, in which order, and how many each tab counts.
use mathlib.Core.List.{Permᴰ}
use mathlib.Core.List.Permᴰ
use zapi_pwa.Base.{
  ◌≤◌, ◌∙◌, ℕ, ◌+◌, ◌≡◌, refl, sym, ap, Bool, true, false, not, ◌&&◌, ◌||◌, List, [], ◌∷◌, All,
  filter, map, length, if◌then◌else◌, Text, is_empty, Bool-cases, inl, inr, ◌⊎◌, arith, Option,
}
use zapi_pwa.Strings.{lower}
use zapi_pwa.Formatters.{ChatTab, get_chat_tab}
use zapi_pwa.Chats.{
  Chat, RawChat, Storage, not_after, insert, sort_chats, filtered, same_tab, is_found, tab_count,
  to_chat, reload_chats,
}

-- The chat `c` may stand before `d`: it is pinned and `d` is not, or both are or both are not and
-- its last message is not older.
pub data IsBefore (c d : Chat) : Type 0 where
  pinned_first : c.pinned ≡ true → d.pinned ≡ false → IsBefore c d
  later : c.pinned ≡ d.pinned → d.last_ts ≤ c.last_ts → IsBefore c d

-- Every chat may stand before those behind it.
abbrev pub IsOrdered : List Chat → Type 0
IsOrdered [] = Unit
IsOrdered (c ∷ cs) = All (IsBefore c) cs × IsOrdered cs

-- The order of the sort's own comparison.
abbrev IsSorted : List Chat → Type 0
IsSorted [] = Unit
IsSorted (c ∷ cs) = All (λ d. not_after c d ≡ true) cs × IsSorted cs

not_after_trans :
    (a b c : Chat) → not_after a b ≡ true → not_after b c ≡ true → not_after a c ≡ true
not_after_trans a b c h k = ground arith

not_after_total : (a b : Chat) → not_after a b ≡ false → not_after b a ≡ true
not_after_total a b h = ground arith

All-trans :
    (a b : Chat) (cs : List Chat)
    → not_after a b ≡ true
    → All (λ d. not_after b d ≡ true) cs
    → All (λ d. not_after a d ≡ true) cs
All-trans a b [] h k = tt
All-trans a b (c ∷ cs) h (k, ks) = (not_after_trans a b c h k, All-trans a b cs h ks)

All-insert :
    (a c : Chat) (cs : List Chat)
    → not_after a c ≡ true
    → All (λ d. not_after a d ≡ true) cs
    → All (λ d. not_after a d ≡ true) (insert c cs)
unfolding insert
All-insert a c [] h k = (h, tt)
All-insert a c (d ∷ ds) h (k, ks) = elim (Bool-cases (not_after c d)) [
  | inl before ↦ rw before (h, (k, ks))
  | inr behind ↦ rw behind (k, All-insert a c ds h ks)
]

insert-IsSorted : (c : Chat) (cs : List Chat) → IsSorted cs → IsSorted (insert c cs)
unfolding insert
insert-IsSorted c [] h = (tt, tt)
insert-IsSorted c (d ∷ ds) (h, hs) = elim (Bool-cases (not_after c d)) [
  | inl before ↦ rw before ((before, All-trans c d ds before h), (h, hs))
  | inr behind ↦
      rw behind (All-insert d c ds (not_after_total c d behind) h, insert-IsSorted c ds hs)
]

insert-Permᴰ : (c : Chat) (cs : List Chat) → Permᴰ (c ∷ cs) (insert c cs)
unfolding insert
insert-Permᴰ c [] = Permᴰ.refl (c ∷ [])
insert-Permᴰ c (d ∷ ds) = elim (Bool-cases (not_after c d)) [
  | inl before ↦ rw before (Permᴰ.refl (c ∷ d ∷ ds))
  | inr behind ↦
      rw behind (Permᴰ.trans (Permᴰ.swap refl refl) (Permᴰ.cons refl (insert-Permᴰ c ds)))
]

sort_chats-IsSorted : (cs : List Chat) → IsSorted (sort_chats cs)
unfolding sort_chats
sort_chats-IsSorted [] = tt
sort_chats-IsSorted (c ∷ cs) = insert-IsSorted c (sort_chats cs) (sort_chats-IsSorted cs)

sort_chats-Permᴰ : (cs : List Chat) → Permᴰ cs (sort_chats cs)
unfolding sort_chats
sort_chats-Permᴰ [] = Permᴰ.nil
sort_chats-Permᴰ (c ∷ cs) =
    Permᴰ.trans (Permᴰ.cons refl (sort_chats-Permᴰ cs)) (insert-Permᴰ c (sort_chats cs))

not_after-IsBefore : (c d : Chat) → not_after c d ≡ true → IsBefore c d
not_after-IsBefore c d h = elim (Bool-cases c.pinned) [
  | inl up ↦ elim (Bool-cases d.pinned) [
    | inl too ↦ later (up ∙ sym too) (let k = rw (up, too) at h in ground arith)
    | inr free ↦ pinned_first up free
  ]
  | inr down ↦ elim (Bool-cases d.pinned) [
    | inl up ↦ absurd (let z : false ≡ true = rw (down, up) at h in cc)
    | inr free ↦ later (down ∙ sym free) (let k = rw (down, free) at h in ground arith)
  ]
]

All-IsBefore :
    (c : Chat) (cs : List Chat) → All (λ d. not_after c d ≡ true) cs → All (IsBefore c) cs
All-IsBefore c [] h = tt
All-IsBefore c (d ∷ cs) (h, hs) = (not_after-IsBefore c d h, All-IsBefore c cs hs)

IsSorted-IsOrdered : (cs : List Chat) → IsSorted cs → IsOrdered cs
IsSorted-IsOrdered [] h = tt
IsSorted-IsOrdered (c ∷ cs) (h, hs) = (All-IsBefore c cs h, IsSorted-IsOrdered cs hs)

filter-filter :
    (p q : Chat → Bool) (cs : List Chat) → filter q (filter p cs) ≡ filter (λ c. p c && q c) cs
filter-filter p q [] = refl
filter-filter p q (c ∷ cs) = elim (Bool-cases (p c)) [
  | inl shown ↦ elim (Bool-cases (q c)) [
    | inl also ↦ rw (shown, also) (ap (◌∷◌ c) (filter-filter p q cs))
    | inr hidden ↦ rw (shown, hidden) (filter-filter p q cs)
  ]
  | inr hidden ↦ rw hidden (filter-filter p q cs)
]

filter_all : (cs : List Chat) → filter (λ c. true) cs ≡ cs
filter_all [] = refl
filter_all (c ∷ cs) = ap (◌∷◌ c) (filter_all cs)

-- What the list shows.
abbrev pub is_shown : ChatTab → Bool → Text → Chat → Bool
is_shown tab unread_only search c =
    ((same_tab tab ChatTab.all || same_tab c.tab tab) && (not unread_only || c.is_unread))
    && (is_empty search || is_found (lower search) c)

filter_unless :
    (b : Bool) (p : Chat → Bool) (cs : List Chat)
    → (if b then cs else filter p cs) ≡ filter (λ c. b || p c) cs
filter_unless true p cs = sym (filter_all cs)
filter_unless false p cs = refl

filter_when :
    (b : Bool) (p : Chat → Bool) (cs : List Chat)
    → (if b then filter p cs else cs) ≡ filter (λ c. not b || p c) cs
filter_when true p cs = refl
filter_when false p cs = sym (filter_all cs)

-- The list shows exactly the chats of the tab (all of them on the tab "all"), only unread ones if
-- that is asked for, and only those that match the search if there is one; pinned chats come
-- first, and among the pinned and among the others a later chat comes before an earlier one.
pub filtered-IsOrdered :
    (tab : ChatTab) (unread_only : Bool) (search : Text) (chats : List Chat)
    → Permᴰ (filter (is_shown tab unread_only search) chats) (filtered tab unread_only search chats)
      × IsOrdered (filtered tab unread_only search chats)
unfolding filtered
filtered-IsOrdered tab unread_only search chats =
    let p : Chat → Bool = λ c. same_tab tab ChatTab.all || same_tab c.tab tab in
    let q : Chat → Bool = λ c. not unread_only || c.is_unread in
    let r : Chat → Bool = λ c. is_empty search || is_found (lower search) c in
    let e = filter_unless (same_tab tab ChatTab.all) (λ c. same_tab c.tab tab) chats in
    let f = filter_when unread_only (λ c. c.is_unread) (filter p chats) in
    let g =
      filter_unless (is_empty search) (is_found (lower search)) (filter (λ c. p c && q c) chats) in
    let h = filter-filter (λ c. p c && q c) r chats in
    let k = filter-filter p q chats in
    rw (e, f, k, g, h)
      (
        sort_chats-Permᴰ (filter (is_shown tab unread_only search) chats),
        IsSorted-IsOrdered (sort_chats (filter (is_shown tab unread_only search) chats))
            (sort_chats-IsSorted (filter (is_shown tab unread_only search) chats)),
      )

-- The tab that a chat is on is one of three.
get_chat_tab-cases :
    (kind jid : Text) (chat : Chat)
    → chat.tab ≡ get_chat_tab kind jid
    → (chat.tab ≡ ChatTab.dms) ⊎ (chat.tab ≡ ChatTab.groups) ⊎ (chat.tab ≡ ChatTab.channels)
unfolding get_chat_tab
get_chat_tab-cases kind jid chat h = ground arith

count_by : (ChatTab) → List Chat → ℕ
count_by tab chats = length (filter (λ c. same_tab c.tab tab) chats)

sum_tabs :
    (encode : Text → Text) (session token : Option Text) (storage : Storage) (rows : List RawChat)
    → let cs = map (to_chat encode session token storage) rows in
      length cs
      ≡ count_by ChatTab.dms cs + count_by ChatTab.groups cs + count_by ChatTab.channels cs
unfolding count_by to_chat
sum_tabs encode session token storage [] = omega arith
sum_tabs encode session token storage (r ∷ rows) =
    elim (get_chat_tab-cases _ _ (to_chat encode session token storage r) refl) [
      | inl d ↦ rw d (omega (arith, sum_tabs encode session token storage rows))
      | inr (inl g) ↦ rw g (omega (arith, sum_tabs encode session token storage rows))
      | inr (inr h) ↦ rw h (omega (arith, sum_tabs encode session token storage rows))
    ]

-- The counts of the tabs add up: after a reload, every chat is counted on exactly one of the three
-- tabs besides "all".
pub tab_count_lem :
    (encode : Text → Text) (session token : Option Text) (answer : List RawChat) (storage : Storage)
    → let cs = (reload_chats encode session token answer storage).0 in
      tab_count ChatTab.all cs
      ≡ tab_count ChatTab.dms cs + tab_count ChatTab.groups cs + tab_count ChatTab.channels cs
unfolding tab_count reload_chats count_by
tab_count_lem encode session token answer storage = sum_tabs encode session token _ _
