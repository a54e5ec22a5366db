-- ===== src/Tests/Conversation.antt =====
-- The messages of an open chat.
use mathlib.Core.List.{Memᴰ}
use mathlib.Core.List.Memᴰ
use zapi_pwa.Base.{
  is_empty, ℕ, ◌≡◌, ◌≢◌, refl, sym, ap, ◌∙◌, inl, inr, arith, Bool, true, false, none, some, [],
  ◌∷◌, ◌++◌, Text, text, text_eq,
}
use zapi_pwa.Strings.{trim, starts_with}
use zapi_pwa.Messages.{
  Message, MessageState, Stars, remove_message, restore_message, merge_polled, begin_load,
  finish_load,
}
use zapi_pwa.Effect.{returned}
use zapi_pwa.Messages.Sending.{Composer, LocalFile, send_file}
use zapi_pwa.Messages.Sending.Failures.{IsFresh, send_file_rolls_back}
use zapi_pwa.Messages.Deleting.{restore_message-remove_message}
use zapi_pwa.Messages.Stars.{IsSynced}
use zapi_pwa.Messages.Polling.{IsDistinct, IsMerged, merge_polled-IsMerged}
use zapi_pwa.Messages.Switching.{stale_load_ignored}

abbrev message : Text → ℕ → Bool → Message (Unit {0})
message id ms starred = record {
  id = id;
  chat_jid = text "a";
  chat_name = none;
  sender_jid = none;
  sender_name = none;
  timestamp = ms;
  from_me = true;
  body = none;
  kind = text "text";
  media_caption = none;
  media_url = none;
  filename = none;
  mime_type = none;
  transcription = none;
  transcription_status = none;
  contact = none;
  starred = starred;
}

abbrev first : Message (Unit {0})
first = message (text "m1") 1000 true

abbrev sent : Message (Unit {0})
sent = message (text "local-7") 9000 false

abbrev confirmed : Message (Unit {0})
confirmed = message (text "m2") 10000 false

restore_message-remove_message_example :
    restore_message
      (remove_message (text "m1") (first ∷ sent ∷ [])).1
      ((remove_message (text "m1") (first ∷ sent ∷ [])).0 ++ confirmed ∷ [])
    ≡ first ∷ sent ∷ confirmed ∷ []
restore_message-remove_message_example =
    restore_message-remove_message (text "m1") (first ∷ sent ∷ []) (confirmed ∷ [])

abbrev stars : Stars
stars = λ id. text_eq id (text "m1")

synced : IsSynced (first ∷ sent ∷ [], stars)
unfolding text_eq
synced = (refl, (refl, tt))

ids_apart : sent.id ≢ first.id
ids_apart e = ground arith

later_apart : (x : Message (Unit {0})) → Memᴰ x (sent ∷ []) → x.id ≢ first.id
later_apart x m e = elim (Memᴰ.cases_cons m) [
  | inl k ↦ ids_apart (sym (ap (λ (y : Message (Unit {0})). y.id) k) ∙ e)
  | inr n ↦ absurd (Memᴰ.not-nil n)
]

prev-IsDistinct : IsDistinct (first ∷ sent ∷ [])
prev-IsDistinct = (later_apart, (λ x m. absurd (Memᴰ.not-nil m), tt))

fetched-IsDistinct : IsDistinct (confirmed ∷ [])
fetched-IsDistinct = (λ x m. absurd (Memᴰ.not-nil m), tt)

merge_polled-IsMerged_example :
    IsMerged
      (confirmed ∷ [])
      (first ∷ sent ∷ [])
      (merge_polled (confirmed ∷ []) (first ∷ sent ∷ []))
merge_polled-IsMerged_example =
    merge_polled-IsMerged (confirmed ∷ []) (first ∷ sent ∷ []) fetched-IsDistinct prev-IsDistinct

sent_replaced : merge_polled (confirmed ∷ []) (first ∷ sent ∷ []) ≡ first ∷ confirmed ∷ []
unfolding merge_polled text_eq starts_with
sent_replaced = refl

abbrev state : MessageState (Unit {0})
state = record { messages = first ∷ []; loading = false; version = 3; cache = λ jid. [] }

stale_load_ignored_example :
    finish_load
      (text "a")
      (begin_load (text "a") state).version
      (some (first ∷ []))
      (begin_load (text "b") (begin_load (text "a") state))
    ≡ begin_load (text "b") (begin_load (text "a") state)
stale_load_ignored_example = stale_load_ignored (text "a") (text "b") (some (first ∷ [])) state

abbrev composer : Composer (Unit {0}) Text
composer = record { messages = first ∷ []; sending = false; reply_target = none }

abbrev picture : LocalFile
picture = record { name = text "a.png"; mime = text "image/png" }

first-IsFresh : IsFresh (text "local-7") (first ∷ [])
unfolding text_eq
first-IsFresh = (refl, tt)

confirmed-IsFresh : IsFresh (text "local-7") (confirmed ∷ [])
unfolding text_eq
confirmed-IsFresh = (refl, tt)

send_file_rolls_back_example :
    send_file
      (text "local-7")
      (some (text "a"))
      9000
      picture
      none
      (confirmed ∷ [])
      (returned none)
      composer
    ≡ record composer { messages = first ∷ confirmed ∷ []; sending = false }
send_file_rolls_back_example =
    send_file_rolls_back (text "local-7") b'a' [] 9000 picture none (confirmed ∷ []) (returned none)
      (text "Send failed") composer refl first-IsFresh confirmed-IsFresh refl

given : is_empty (trim (text "hi")) ≡ false
unfolding trim
given = refl
