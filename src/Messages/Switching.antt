-- ===== src/Messages/Switching.antt =====
-- What is shown while the open chat changes.
use zapi_pwa.Base.{ℕ, ◌+◌, ◌≡◌, refl, false, Option, List, [], ◌∷◌, Text, text_eq_refl, arith, ◌==◌}
use zapi_pwa.Messages.{Message, MessageState, begin_load, finish_load, write_through, from_cache}

next_differs : (n : ℕ) → (n == n + 1) ≡ false
next_differs n = ground arith

module _ {Contact : Type 0} where
  from_cache-version :
      (ms : List (Message Contact)) (s : MessageState Contact)
      → (from_cache ms s).version ≡ s.version
  from_cache-version [] s = refl
  from_cache-version (m ∷ ms) s = refl

  begin_load-version :
      (jid : Text) (s : MessageState Contact) → (begin_load jid s).version ≡ s.version + 1
  unfolding begin_load
  begin_load-version jid s = from_cache-version (s.cache jid) (record s { version = s.version + 1 })

  -- An answer to a load that was followed by another load changes nothing, whatever it brings.
  pub stale_load_ignored :
      (jid other : Text) (fetched : Option (List (Message Contact))) (s : MessageState Contact)
      → finish_load jid (begin_load jid s).version fetched (begin_load other (begin_load jid s))
        ≡ begin_load other (begin_load jid s)
  unfolding finish_load
  stale_load_ignored jid other fetched s =
      rw (begin_load-version other (begin_load jid s), next_differs (begin_load jid s).version) refl

  -- After the open chat changes from one with messages, the write-through effect runs for the new
  -- chat before its load: until the answer arrives the messages of the previous chat are shown as
  -- those of the new one, and nothing says that they are loading.
  pub switch_shows_previous :
      (jid : Text) (m : Message Contact) (ms : List (Message Contact)) (s : MessageState Contact)
      → s.messages ≡ m ∷ ms
      → ((begin_load jid (write_through jid s)).messages ≡ m ∷ ms)
        × ((begin_load jid (write_through jid s)).loading ≡ false)
  unfolding begin_load write_through
  switch_shows_previous jid m ms s h = rw (text_eq_refl jid, h) (refl, refl)
