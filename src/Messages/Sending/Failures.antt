-- ===== src/Messages/Sending/Failures.antt =====
-- What remains of a send that fails.
use zapi_pwa.Base.{
  ℕ, ◌≡◌, refl, ap, ◌∙◌, true, false, not, Option, none, some, List, [], ◌∷◌, ◌++◌, append_assoc,
  filter, All, is_empty, Text, text_eq, text_eq_refl, Bool-cases, inl, inr,
}
use zapi_pwa.Strings.{trim}
use zapi_pwa.Effect.{Outcome, thrown}
use zapi_pwa.Messages.{Message}
use zapi_pwa.Messages.Sending.{Composer, LocalFile, SendResult, send_message, send_file, checked}

module _ {Contact : Type 0} where
  -- No message has the identifier.
  abbrev pub IsFresh : Text → List (Message Contact) → Type 0
  IsFresh id ms = All (λ m. text_eq m.id id ≡ false) ms

  filter_fresh :
      (id : Text) (ms rest : List (Message Contact))
      → IsFresh id ms
      → filter (λ m. not (text_eq m.id id)) (ms ++ rest)
        ≡ ms ++ filter (λ m. not (text_eq m.id id)) rest
  filter_fresh id [] rest h = refl
  filter_fresh id (m ∷ ms) rest (h, hs) = rw h (ap (◌∷◌ m) (filter_fresh id ms rest hs))

  removed :
      (id : Text) (ms between : List (Message Contact)) (m : Message Contact)
      → IsFresh id ms
      → IsFresh id between
      → text_eq m.id id ≡ true
      → filter (λ x. not (text_eq x.id id)) ((ms ++ m ∷ []) ++ between) ≡ ms ++ between
  removed id ms between m h k e =
      ap (filter (λ x. not (text_eq x.id id))) (append_assoc ms (m ∷ []) between)
      ∙ filter_fresh id ms (m ∷ between) h
      ∙ rw e (ap (λ l. ms ++ l) (filter_between between k))
    where
      filter_between :
          (between : List (Message Contact))
          → IsFresh id between
          → filter (λ x. not (text_eq x.id id)) between ≡ between
      filter_between [] h = refl
      filter_between (x ∷ xs) (h, hs) = rw h (ap (◌∷◌ x) (filter_between xs hs))

module _ {Contact Reply : Type 0} where
  -- While no other send runs, and if no other message has the optimistic identifier, a file that
  -- could not be sent leaves the messages as they were, together with those that came in the
  -- meantime, and the next send is possible.
  pub send_file_rolls_back :
      (id : Text) (c : ℕ) (jid : Text) (now : ℕ) (file : LocalFile) (caption : Option Text)
      (between : List (Message Contact)) (res : Outcome (Option SendResult)) (e : Text)
      (s : Composer Contact Reply)
      → s.sending ≡ false
      → IsFresh id s.messages
      → IsFresh id between
      → checked res ≡ thrown e
      → send_file id (some (c ∷ jid)) now file caption between res s
        ≡ record s { messages = s.messages ++ between; sending = false }
  unfolding send_file
  send_file_rolls_back id c jid now file caption between res e s idle fresh_before fresh_between
        failed =
      rw (idle, failed)
        (ap (λ (ms : List (Message Contact)). record s { messages = ms; sending = false })
          (removed id s.messages between _ fresh_before fresh_between (text_eq_refl id)))

  -- After a text that is not blank was sent while no other send ran, and its request threw an
  -- exception, no later text or file is sent.
  pub failed_send_blocks :
      (id id' : Text) (c : ℕ) (jid : Text) (now now' : ℕ) (body body' : Text)
      (res : Outcome (Unit {0})) (chat : Option Text) (file : LocalFile) (caption : Option Text)
      (between : List (Message Contact)) (res' : Outcome (Option SendResult)) (e : Text)
      (s : Composer Contact Reply)
      → s.sending ≡ false
      → is_empty (trim body) ≡ false
      → let t : Composer Contact Reply = send_message id (some (c ∷ jid)) now body (thrown e) s in
        (send_message id' chat now' body' res t ≡ t)
        × (send_file id' chat now' file caption between res' t ≡ t)
  unfolding send_message send_file
  failed_send_blocks id id' c jid now now' body body' res none file caption between res' e s idle
        given =
      (refl, refl)
  failed_send_blocks id id' c jid now now' body body' res (some []) file caption between res' e s
        idle given =
      (refl, refl)
  failed_send_blocks id id' c jid now now' body body' res (some (d ∷ chat)) file caption between
        res' e s idle given =
      elim (Bool-cases (is_empty (trim body'))) [
        | inl blank ↦ rw (idle, given, blank) (refl, refl)
        | inr filled ↦ rw (idle, given, filled) (refl, refl)
      ]
