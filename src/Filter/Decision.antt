-- ===== src/Filter/Decision.antt =====
-- When an audio message is transcribed, described without the code's order of tests.
use mathlib.Core.List.{Memᴰ}
use zapi_pwa.Base.{
  ◌≡◌, refl, ◌≢◌, ◌↔◌, Bool, true, false, Option, none, some, [], ◌∷◌, arith, inl, inr, ◌⊎◌, Text,
  text, text_eq_iff, text_eq_refl, mem_text, is_text, ◌||◌, Bool-cases, mem_text_sound,
  mem_text_complete,
}
use zapi_pwa.Strings.{before}
use zapi_pwa.Filter.{
  chat_lid_in, sender_lid_in, is_echo, filter_message, skip, process, own_lid_chat, others_in,
  OnAudioEvent, FilterInstance, FilterGroup, skip, process, own_lid_sender, own_lid_chat,
  own_phone_chat, is_echo, filter_message, reply_of, others_in, chat_lid_in, sender_lid_in,
}

-- One of the instance's own numbers or identifiers sent the audio, or is the chat it came to.
pub data IsOwn (e : OnAudioEvent) (i : FilterInstance) : Type 0 where
  connected_phone : i.connected_phone ≡ some e.sender_phone → IsOwn e i
  known_phone : Memᴰ e.sender_phone i.my_phones → IsOwn e i
  connected_lid :
      (lid : Text) → e.sender_lid ≡ some lid → lid ≢ [] → i.connected_lid ≡ some lid → IsOwn e i
  known_lid : (lid : Text) → e.sender_lid ≡ some lid → lid ≢ [] → Memᴰ lid i.my_lids → IsOwn e i
  chat_jid : Memᴰ e.chat_jid i.my_lids → IsOwn e i
  chat_lid : (lid : Text) → e.chat_lid ≡ some lid → lid ≢ [] → Memᴰ lid i.my_lids → IsOwn e i
  chat_phone : Memᴰ (before b'@' e.chat_jid) i.my_phones → IsOwn e i

-- The audio is transcribed, and the reply is sent back if `reply` is true.
pub data IsTranscribed (e : OnAudioEvent) (g : Option FilterGroup) (reply : Bool) : Type 0 where
  direct : e.is_group ≡ false → e.from_me ≡ false → reply ≡ true → IsTranscribed e g reply
  own_in_group : e.is_group ≡ true → e.from_me ≡ true → reply ≡ reply_of g → IsTranscribed e g reply
  listed_group :
      (group : FilterGroup)
      → e.is_group ≡ true
      → e.from_me ≡ false
      → g ≡ some group
      → group.transcribe_all ≡ true
      → reply ≡ group.send_reply
      → IsTranscribed e g reply

IsOwn-complete : (e : OnAudioEvent) (i : FilterInstance) → IsOwn e i → is_echo e i ≡ true
unfolding is_echo own_lid_sender own_lid_chat own_phone_chat
IsOwn-complete e i (connected_phone h) = ground (arith, text_eq_refl e.sender_phone)
IsOwn-complete e i (known_phone m) = ground (arith, mem_text_complete _ _ m)
IsOwn-complete e i (connected_lid [] h given c) = absurd (given refl)
IsOwn-complete e i (connected_lid (x ∷ lid) h given c) = ground (arith, text_eq_refl (x ∷ lid))
IsOwn-complete e i (known_lid [] h given m) = absurd (given refl)
IsOwn-complete e i (known_lid (x ∷ lid) h given m) = ground (arith, mem_text_complete _ _ m)
IsOwn-complete e i (chat_jid m) = ground (arith, mem_text_complete _ _ m)
IsOwn-complete e i (chat_lid [] h given m) = absurd (given refl)
IsOwn-complete e i (chat_lid (x ∷ lid) h given m) = ground (arith, mem_text_complete _ _ m)
IsOwn-complete e i (chat_phone m) = ground (arith, mem_text_complete _ _ m)

is_text_sound : (o : Option Text) (s : Text) → is_text o s ≡ true → o ≡ some s
is_text_sound none s h = cc
is_text_sound (some t) s h = ground (arith, text_eq_iff t s)

or_true : (a b : Bool) → (a || b) ≡ true → (a ≡ true) ⊎ (b ≡ true)
or_true true b h = inl refl
or_true false b h = inr h

sender_lid_sound :
    (e : OnAudioEvent) (i : FilterInstance) (o : Option Text)
    → e.sender_lid ≡ o
    → sender_lid_in o i.connected_lid i.my_lids ≡ true
    → IsOwn e i
sender_lid_sound e i none q h = cc
sender_lid_sound e i (some []) q h = cc
sender_lid_sound e i (some (c ∷ lid)) q h =
    elim (or_true (is_text i.connected_lid (c ∷ lid)) (mem_text (c ∷ lid) i.my_lids) h) [
      | inl own ↦ connected_lid (c ∷ lid) q (λ p. cc) (is_text_sound _ _ own)
      | inr listed ↦ known_lid (c ∷ lid) q (λ p. cc) (mem_text_sound _ _ listed)
    ]

chat_lid_sound :
    (e : OnAudioEvent) (i : FilterInstance) (o : Option Text)
    → e.chat_lid ≡ o
    → chat_lid_in o i.my_lids ≡ true
    → IsOwn e i
chat_lid_sound e i none q h = cc
chat_lid_sound e i (some []) q h = cc
chat_lid_sound e i (some (c ∷ lid)) q h = chat_lid (c ∷ lid) q (λ p. cc) (mem_text_sound _ _ h)

IsOwn-chat_sound : (e : OnAudioEvent) (i : FilterInstance) → own_lid_chat e i ≡ true → IsOwn e i
unfolding own_lid_chat
IsOwn-chat_sound e i h = elim (or_true _ _ h) [
  | inl listed ↦ chat_jid (mem_text_sound _ _ listed)
  | inr other ↦ chat_lid_sound e i e.chat_lid refl other
]

-- The five tests in the order of the code.
IsOwn-sound : (e : OnAudioEvent) (i : FilterInstance) → is_echo e i ≡ true → IsOwn e i
unfolding is_echo own_lid_sender own_phone_chat
IsOwn-sound e i h =
    let phone = is_text i.connected_phone e.sender_phone in
    let listed = mem_text e.sender_phone i.my_phones in
    let sender = sender_lid_in e.sender_lid i.connected_lid i.my_lids in
    let chat = own_lid_chat e i in
    let number = mem_text (before b'@' e.chat_jid) i.my_phones in
    elim (or_true (phone || listed || sender || chat) number h) [
      | inr t ↦ chat_phone (mem_text_sound (before b'@' e.chat_jid) i.my_phones t)
      | inl h ↦ elim (or_true (phone || listed || sender) chat h) [
        | inr t ↦ IsOwn-chat_sound e i t
        | inl h ↦ elim (or_true (phone || listed) sender h) [
          | inr t ↦ sender_lid_sound e i e.sender_lid refl t
          | inl h ↦ elim (or_true phone listed h) [
            | inr t ↦ known_phone (mem_text_sound e.sender_phone i.my_phones t)
            | inl t ↦ connected_phone (is_text_sound i.connected_phone e.sender_phone t)
          ]
        ]
      ]
    ]

pub is_echo_iff : (e : OnAudioEvent) (i : FilterInstance) → (is_echo e i ≡ true) ↔ IsOwn e i
is_echo_iff e i = (IsOwn-sound e i, IsOwn-complete e i)

not_echo : (e : OnAudioEvent) (i : FilterInstance) → ¬ IsOwn e i → is_echo e i ≡ false
not_echo e i other = elim (Bool-cases (is_echo e i)) [
  | inl own ↦ absurd (other (IsOwn-sound e i own))
  | inr echo ↦ echo
]

others_sound :
    (e : OnAudioEvent) (g : Option FilterGroup) (reply : Bool)
    → e.is_group ≡ true
    → e.from_me ≡ false
    → others_in g ≡ process reply
    → IsTranscribed e g reply
others_sound e none reply a b h = cc
others_sound e (some group) reply a b h = listed_group group a b refl (ground arith) (ground arith)

IsTranscribed-sound :
    (e : OnAudioEvent) (i : FilterInstance) (g : Option FilterGroup) (reply : Bool)
    → filter_message e i g ≡ process reply
    → IsTranscribed e g reply
unfolding filter_message
IsTranscribed-sound e i g reply h = elim (Bool-cases e.is_group) [
  | inr alone ↦ direct alone (ground arith) (ground arith)
  | inl group ↦ elim (Bool-cases e.from_me) [
    | inl own ↦ own_in_group group own (ground arith)
    | inr other ↦ others_sound e g reply group other (ground arith)
  ]
]

own_skipped :
    (e : OnAudioEvent) (i : FilterInstance) (g : Option FilterGroup)
    → IsOwn e i
    → filter_message e i g ≡ skip (text "self")
unfolding filter_message
own_skipped e i g own = rw (IsOwn-complete e i own)

transcribed_complete :
    (e : OnAudioEvent) (i : FilterInstance) (g : Option FilterGroup) (reply : Bool)
    → ¬ IsOwn e i
    → IsTranscribed e g reply
    → filter_message e i g ≡ process reply
unfolding filter_message
transcribed_complete e i g reply other (direct a b c) = ground (arith, not_echo e i other)
transcribed_complete e i g reply other (own_in_group a b c) = ground (arith, not_echo e i other)
transcribed_complete e i g reply other (listed_group group a b c d r) =
    ground (arith, not_echo e i other)

-- An audio message is transcribed exactly when no number or identifier of the instance sent it or
-- is its chat, and it is a direct message from another, or an own message in a group (listed or
-- not), or a message from another in a listed group that transcribes all. The reply is sent for a
-- direct message, and in a group as the group's setting says, or always if the group is not
-- listed.
pub filter_process_iff :
    (e : OnAudioEvent) (i : FilterInstance) (g : Option FilterGroup) (reply : Bool)
    → (filter_message e i g ≡ process reply) ↔ ((¬ IsOwn e i) × IsTranscribed e g reply)
filter_process_iff e i g reply = (
  λ h. (λ own. cc (own_skipped e i g own), IsTranscribed-sound e i g reply h),
  λ h. transcribed_complete e i g reply h.0 h.1,
)

self_only :
    (e : OnAudioEvent) (i : FilterInstance) (g : Option FilterGroup)
    → filter_message e i g ≡ skip (text "self")
    → is_echo e i ≡ true
unfolding filter_message
self_only e i none h = ground arith
self_only e i (some group) h = ground arith

-- The reason "self" is given exactly when one of the instance's own numbers or identifiers sent
-- the audio or is its chat, whatever the group says.
pub filter_self_iff :
    (e : OnAudioEvent) (i : FilterInstance) (g : Option FilterGroup)
    → (filter_message e i g ≡ skip (text "self")) ↔ IsOwn e i
filter_self_iff e i g = (λ h. IsOwn-sound e i (self_only e i g h), own_skipped e i g)
