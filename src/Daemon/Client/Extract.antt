-- ===== src/Daemon/Client/Extract.antt =====
-- What every audio event that `extractAudioEvent` gives satisfies.
use mathlib.Core.Option.{some-injective, none-ne-some}
use zapi_pwa.Base.{
  ℕ, ◌≡◌, ◌≢◌, refl, subst, ◌<◌, true, not, drop, Option, none, some, [], Text, arith, Bool-cases,
  inl, inr, text,
}
use zapi_pwa.Strings.{ends_with, starts_with}
use zapi_pwa.Filter.{OnAudioEvent}
use zapi_pwa.Daemon.Client.{
  Setting, read_line, Json, number, extract_audio_event, given_text, guard, is_string, ◌>>=◌,
  is_too_large, member, members, max_audio_bytes, present,
}

-- The event that the web application is to receive for an audio message of `size` bytes.
pub record IsForwardable (event : OnAudioEvent) : Type 0 where
  pub has_session : event.waclaw_session_id ≢ []
  pub has_message : event.message_id ≢ []
  pub has_chat : event.chat_jid ≢ []
  pub groups_by_suffix : event.is_group ≡ ends_with event.chat_jid (text "@g.us")
  pub no_empty_chat_lid : event.chat_lid ≢ some []
  pub no_empty_sender_lid : event.sender_lid ≢ some []
  pub no_bytes : event.audio_bytes_base64 ≡ none

bind-some :
    {A B : Type 0} (m : Option A) (k : A → Option B) (b : B)
    → (m >>= k) ≡ some b
    → (a : A) × ((m ≡ some a) × (k a ≡ some b))
bind-some none k b h = absurd (none-ne-some b h)
bind-some (some a) k b h = (a, (refl, h))

given_text-nonempty : (v : Option Json) (t : Text) → given_text v ≡ some t → t ≢ []
given_text-nonempty v t h = ground arith

given_text-some : (v : Option Json) → given_text v ≢ some []
given_text-some v h = given_text-nonempty v [] h refl

module _ (e : Setting) where
  -- An event that is extracted from a message names a session, a message and a chat, is a group's
  -- exactly if the chat ends in "@g.us", and has no empty identifier and no bytes yet.
  pub extract-IsForwardable :
      (raw : Json) (event : OnAudioEvent)
      → extract_audio_event e raw ≡ some event
      → IsForwardable event
  unfolding extract_audio_event
  extract-IsForwardable raw event h0 =
      let (root, (_, h1)) = bind-some (members (some raw)) _ event h0 in
      let (_, (_, h2)) =
        bind-some (guard (is_string (member (text "type") root) (text "message"))) _ event h1 in
      let (message, (_, h3)) = bind-some (members (member (text "message") root)) _ event h2 in
      let (audio, (_, h4)) = bind-some (members (member (text "audio") message)) _ event h3 in
      let (_, (_, h5)) =
        bind-some (guard (not (is_too_large (member (text "size_bytes") audio)))) _ event h4 in
      let (session_id, (k6, h6)) =
        bind-some (given_text (member (text "session_id") root)) _ event h5 in
      let (message_id, (k7, h7)) = bind-some (given_text (member (text "id") message)) _ event h6 in
      let (chat_jid, (k8, h8)) =
        bind-some (given_text (member (text "chat_jid") message)) _ event h7 in
      let (audio_url, (_, h9)) = bind-some (given_text (member (text "url") audio)) _ event h8 in
      let (timestamp, (_, h10)) =
        bind-some (present (member (text "timestamp") message)) _ event h9 in
      let (iso, (_, h11)) = bind-some (e.to_iso timestamp) _ event h10 in
      subst IsForwardable (some-injective _ _ h11) (record {
        has_session = given_text-nonempty _ session_id k6;
        has_message = given_text-nonempty _ message_id k7;
        has_chat = given_text-nonempty _ chat_jid k8;
        groups_by_suffix = refl;
        no_empty_chat_lid = given_text-some (member (text "chat_lid") message);
        no_empty_sender_lid = given_text-some (member (text "sender_lid") message);
        no_bytes = refl;
      })

  -- A line of the stream gives an event only if it starts with `data: ` and the rest is JSON that an
  -- event is extracted from; the event is then one to forward.
  pub read_line-IsForwardable :
      (line : Text) (event : OnAudioEvent)
      → read_line e line ≡ some event
      → (starts_with line (text "data: ") ≡ true) × IsForwardable event
  unfolding read_line
  read_line-IsForwardable line event h = elim (Bool-cases (starts_with line (text "data: "))) [
    | inl k ↦
        let (raw, (_, h1)) = bind-some (e.parse (drop 6 line)) _ event (rw k at h) in
        (k, extract-IsForwardable raw event h1)
    | inr k ↦ absurd (none-ne-some event (rw k at h))
  ]

-- The number that a raw event declares as the size of its audio.
unfoldable pub number_of : Option Json → Option ℕ
number_of (some (number n)) = some n
number_of _ = none

unfoldable pub declared_size : Json → Option ℕ
unfolding number_of
declared_size raw = members (some raw) >>= λ root.
    members (member (text "message") root) >>= λ message.
    members (member (text "audio") message) >>= λ audio.
    number_of (member (text "size_bytes") audio)

too_large :
    (v : Option Json) (n : ℕ) → number_of v ≡ some n → max_audio_bytes < n → is_too_large v ≡ true
unfolding number_of
too_large v n h k = ground arith

module _ (e : Setting) where
  -- An audio that is declared larger than the limit is skipped.
  pub large_audio_skipped :
      (raw : Json) (n : ℕ)
      → declared_size raw ≡ some n
      → max_audio_bytes < n
      → extract_audio_event e raw ≡ none
  unfolding extract_audio_event declared_size
  large_audio_skipped raw n h0 k =
      let (root, (k1, h1)) = bind-some (members (some raw)) _ n h0 in
      let (message, (k2, h2)) = bind-some (members (member (text "message") root)) _ n h1 in
      let (audio, (k3, h3)) = bind-some (members (member (text "audio") message)) _ n h2 in
      elim (Bool-cases (is_string (member (text "type") root) (text "message"))) [
        | inl m ↦ rw (k1, m, k2, k3, too_large (member (text "size_bytes") audio) n h3 k) refl
        | inr m ↦ rw (k1, m) refl
      ]
