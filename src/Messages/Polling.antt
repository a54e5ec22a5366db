-- ===== src/Messages/Polling.antt =====
-- What a poll adds to the messages, and what it takes away.
use mathlib.Core.List.{Memᴰ}
use mathlib.Core.List.Memᴰ
use zapi_pwa.Strings.{starts_with}
use zapi_pwa.Base.{
  text, ◌≡◌, ◌≢◌, refl, ap, sym, ◌∙◌, Bool, true, false, not, ◌||◌, List, [], ◌∷◌, ◌++◌, append-nil,
  filter, any, text_eq, text_eq_iff, Bool-cases, inl, inr, ◌⊎◌, arith,
}
use zapi_pwa.Messages.{Message, is_local, is_confirmed, new_of, merged, merge_polled}

not_both : (b : Bool) → b ≡ true → not b ≡ true → ⊥
not_both b h k = ground arith

module _ {Contact : Type 0} where
  filter-member :
      (p : Message Contact → Bool) (m : Message Contact) (ms : List (Message Contact))
      → Memᴰ m ms
      → p m ≡ true
      → Memᴰ m (filter p ms)
  filter-member p m [] h k = absurd (Memᴰ.not-nil h)
  filter-member p m (x ∷ ms) h k = elim (Memᴰ.cases_cons h) [
    | inl e ↦ rw (ap p (sym e) ∙ k) (Memᴰ.head e)
    | inr later ↦ elim (Bool-cases (p x)) [
      | inl taken ↦ rw taken (Memᴰ.tail (filter-member p m ms later k))
      | inr left ↦ rw left (filter-member p m ms later k)
    ]
  ]

  member-filter :
      (p : Message Contact → Bool) (m : Message Contact) (ms : List (Message Contact))
      → Memᴰ m (filter p ms)
      → Memᴰ m ms × (p m ≡ true)
  member-filter p m [] h = absurd (Memᴰ.not-nil h)
  member-filter p m (x ∷ ms) h = elim (Bool-cases (p x)) [
    | inl taken ↦ elim (Memᴰ.cases_cons (rw taken at h)) [
      | inl e ↦ (Memᴰ.head e, ap p e ∙ taken)
      | inr later ↦ let (k, t) = member-filter p m ms later in (Memᴰ.tail k, t)
    ]
    | inr left ↦ let (k, t) = member-filter p m ms (rw left at h) in (Memᴰ.tail k, t)
  ]

  any_member :
      (p : Message Contact → Bool) (ms : List (Message Contact))
      → any p ms ≡ true
      → (m : Message Contact) × Memᴰ m ms × (p m ≡ true)
  any_member p [] h = ground arith
  any_member p (x ∷ ms) h = elim (Bool-cases (p x)) [
    | inl here ↦ (x, Memᴰ.head refl, here)
    | inr other ↦ let (m, k, t) = any_member p ms (rw other at h) in (m, Memᴰ.tail k, t)
  ]

  -- No identifier occurs twice.
  abbrev pub IsDistinct : List (Message Contact) → Type 0
  IsDistinct [] = Unit
  IsDistinct (m ∷ ms) = ((x : Message Contact) → Memᴰ x ms → x.id ≢ m.id) × IsDistinct ms

  filter-IsDistinct :
      (p : Message Contact → Bool) (ms : List (Message Contact))
      → IsDistinct ms
      → IsDistinct (filter p ms)
  filter-IsDistinct p [] h = tt
  filter-IsDistinct p (m ∷ ms) (h, hs) = elim (Bool-cases (p m)) [
    | inl taken ↦ rw taken (λ x k. h x (member-filter p x ms k).0, filter-IsDistinct p ms hs)
    | inr left ↦ rw left (filter-IsDistinct p ms hs)
  ]

  append-IsDistinct :
      (ms ns : List (Message Contact))
      → IsDistinct ms
      → IsDistinct ns
      → ((m n : Message Contact) → Memᴰ m ms → Memᴰ n ns → n.id ≢ m.id)
      → IsDistinct (ms ++ ns)
  append-IsDistinct [] ns h k apart = k
  append-IsDistinct (m ∷ ms) ns (h, hs) k apart = (
    λ x e. elim (member-append x ms ns e) [ inl a ↦ h x a | inr b ↦ apart m x (Memᴰ.head refl) b ],
    append-IsDistinct ms ns hs k (λ x n a b. apart x n (Memᴰ.tail a) b),
  )
    where
      member-append :
          (x : Message Contact) (ms ns : List (Message Contact))
          → Memᴰ x (ms ++ ns)
          → Memᴰ x ms ⊎ Memᴰ x ns
      member-append x [] ns e = inr e
      member-append x (m ∷ ms) ns e = elim (Memᴰ.cases_cons e) [
        | inl h ↦ inl (Memᴰ.head h)
        | inr t ↦ elim (member-append x ms ns t) [ inl a ↦ inl (Memᴰ.tail a) | inr b ↦ inr b ]
      ]

  -- Whether a message stays.
  abbrev stays : List (Message Contact) → Message Contact → Bool
  stays news m = not (is_local m) || not (is_confirmed news m)

  filter_all :
      (p : Message Contact → Bool) (ms : List (Message Contact))
      → ((m : Message Contact) → p m ≡ true)
      → filter p ms ≡ ms
  filter_all p [] h = refl
  filter_all p (m ∷ ms) h = rw (h m) (ap (◌∷◌ m) (filter_all p ms h))

  stays_without : (m : Message Contact) → stays [] m ≡ true
  stays_without m = ground arith

  member-any :
      (p : Message Contact → Bool) (m : Message Contact) (ms : List (Message Contact))
      → Memᴰ m ms
      → p m ≡ true
      → any p ms ≡ true
  member-any p m [] h k = absurd (Memᴰ.not-nil h)
  member-any p m (x ∷ ms) h k = elim (Memᴰ.cases_cons h) [
    | inl e ↦ rw (ap p (sym e) ∙ k) refl
    | inr later ↦ elim (Bool-cases (p x)) [
      | inl here ↦ rw here refl
      | inr other ↦ rw other (member-any p m ms later k)
    ]
  ]

  merged_lem :
      (news prev : List (Message Contact)) → merged news prev ≡ filter (stays news) prev ++ news
  merged_lem [] prev =
      sym (append-nil (filter (stays []) prev) ∙ filter_all (stays []) prev stays_without)
  merged_lem (n ∷ news) prev = refl

  new_apart :
      (fetched prev : List (Message Contact)) (m n : Message Contact)
      → Memᴰ m prev
      → Memᴰ n (new_of fetched prev)
      → n.id ≢ m.id
  new_apart fetched prev m n a b e =
      let unseen = (member-filter (λ x. not (any (λ q. text_eq q.id x.id) prev)) n fetched b).1 in
      let seen = member-any (λ q. text_eq q.id n.id) m prev a ((text_eq_iff m.id n.id).1 (sym e)) in
      not_both (any (λ q. text_eq q.id n.id) prev) seen unseen

  -- What a poll makes of the messages `prev` and the fetched ones.
  pub record IsMerged (fetched prev result : List (Message Contact)) : Type 0 where
    pub news : List (Message Contact)
    pub cleaned : List (Message Contact)
    pub parts : result ≡ cleaned ++ news
    pub arrived :
        (n : Message Contact)
        → Memᴰ n fetched
        → is_local n ≡ false
        → (m : Message Contact) × Memᴰ m result × (m.id ≡ n.id)
    pub kept : (m : Message Contact) → Memᴰ m prev → is_local m ≡ false → Memᴰ m cleaned
    pub dropped : (m : Message Contact) → Memᴰ m prev → is_confirmed news m ≡ false → Memᴰ m cleaned
    pub distinct : IsDistinct result

  server_stays :
      (news : List (Message Contact)) (m : Message Contact)
      → is_local m ≡ false
      → stays news m ≡ true
  server_stays news m h = rw h refl

  unconfirmed_stays :
      (news : List (Message Contact)) (m : Message Contact)
      → is_confirmed news m ≡ false
      → stays news m ≡ true
  unconfirmed_stays news m h = ground arith

  arrives :
      (fetched prev : List (Message Contact)) (n : Message Contact)
      → Memᴰ n fetched
      → is_local n ≡ false
      → (m : Message Contact) × Memᴰ m
          (filter (stays (new_of fetched prev)) prev ++ new_of fetched prev)
        × (m.id ≡ n.id)
  arrives fetched prev n a server = elim (Bool-cases (any (λ q. text_eq q.id n.id) prev)) [
    | inl seen ↦
        let (p, here, same) = any_member (λ q. text_eq q.id n.id) prev seen in
        let e : p.id ≡ n.id = (text_eq_iff p.id n.id).0 same in
        let stays_p =
          server_stays (new_of fetched prev) p
            (ap (λ t. starts_with t (text "local-")) e ∙ server) in
        (
          p,
          Memᴰ.append_left (new_of fetched prev)
              (filter-member (stays (new_of fetched prev)) p prev here stays_p),
          e,
        )
    | inr unseen ↦ (
      n,
      Memᴰ.append_right (filter (stays (new_of fetched prev)) prev) (
          filter-member (λ x. not (any (λ q. text_eq q.id x.id) prev)) n fetched a (ap not unseen)),
      refl,
    )
  ]

  -- If no identifier occurs twice in the list or in the answer of a poll, then after the poll none
  -- occurs twice, every fetched message of the server is in the list, and the messages that were
  -- there are still there, in front of the new ones, but for optimistic ones that a new own
  -- message confirms.
  pub merge_polled-IsMerged :
      (fetched prev : List (Message Contact))
      → IsDistinct fetched
      → IsDistinct prev
      → IsMerged fetched prev (merge_polled fetched prev)
  unfolding merge_polled
  merge_polled-IsMerged fetched prev hf hp =
      let news = new_of fetched prev in
      rw (merged_lem news prev) (record {
        news = news;
        cleaned = filter (stays news) prev;
        parts = refl;
        arrived = arrives fetched prev;
        kept = λ m a h. filter-member (stays news) m prev a (server_stays news m h);
        dropped = λ m a h. filter-member (stays news) m prev a (unconfirmed_stays news m h);
        distinct =
            append-IsDistinct (filter (stays news) prev) news
              (filter-IsDistinct (stays news) prev hp)
              (filter-IsDistinct (λ x. not (any (λ q. text_eq q.id x.id) prev)) fetched hf)
              (λ m n a b. new_apart fetched prev m n (member-filter (stays news) m prev a).0 b);
      })
