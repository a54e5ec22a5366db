-- ===== src/Webhook/Received.antt =====
-- What a reported message leaves in the database and in the queue.
use mathlib.Core.List.{Memᴰ}
use zapi_pwa.Base.{
  ℕ, ◌≡◌, ◌≢◌, ◌↔◌, refl, sym, ◌∙◌, true, false, not, ◌&&◌, Bool-cases, Option, Option-cases, inl,
  inr, none, some, List, [], ◌∷◌, Text, text, text_eq, text_eq_iff, is_empty, mem_text,
  mem_text_sound, mem_text_complete,
}
use zapi_pwa.Effect.{Outcome, returned, thrown}
use zapi_pwa.Redis.{Redis}
use zapi_pwa.Queue.{Codec, enqueue}
use zapi_pwa.Routes.{
  need-elim, check-elim, IsError, truthy_text, or_null, Answer, refused, answered,
}
use zapi_pwa.Webhook.{
  Attachment, Payload, Instance, Services, received_signature, plain_text, document_or, video_or,
  image_or, content_of, is_audio, message_row, norm, own_phones, is_self, truthy_moment, World,
  verify_signature, is_accepted, timestamp_of, new_job, audio_to_queue, queue_audio, after_insert,
  receive, post_webhook,
}

-- The chat is one of the instance's own numbers.
pub record IsOwnChat (i : Instance) (p : Payload) : Type 0 where
  pub some_digit : norm (or_null p.phone []) ≢ []
  pub own : Memᴰ (norm (or_null p.phone [])) (own_phones i)

filled_in :
    (chat : Text) (own : List Text)
    → ((not (is_empty chat) && mem_text chat own) ≡ true) ↔ ((chat ≢ []) × Memᴰ chat own)
filled_in [] own = (λ h. absurd (let z : false ≡ true = h in cc), λ h. absurd (h.0 refl))
filled_in (c ∷ chat) own =
    (λ h. (λ e. cc, mem_text_sound (c ∷ chat) own h), λ h. mem_text_complete (c ∷ chat) own h.1)

is_self_iff : (i : Instance) (p : Payload) → (is_self i p ≡ true) ↔ IsOwnChat i p
unfolding is_self
is_self_iff i p =
    let f = filled_in (norm (or_null p.phone [])) (own_phones i) in
    (λ h. record { some_digit = (f.0 h).0; own = (f.0 h).1 }, λ h. f.1 (h.some_digit, h.own))

image_no_audio :
    (a b c : Option Attachment) (t : Option (Option Text))
    → is_audio (image_or a (video_or b (document_or c (plain_text t)))) ≡ false
unfolding text_eq
image_no_audio (some a) b c t = refl
image_no_audio none (some b) c t = refl
image_no_audio none none (some c) t = refl
image_no_audio none none none (some t) = refl
image_no_audio none none none none = refl

-- The audio that is to be transcribed: it has a URL, and the chat is not the instance's own.
pub record IsWanted (i : Instance) (p : Payload) (url : Text) : Type 0 where
  pub sent : p.audio ≡ some (some url)
  pub some_unit : url ≢ []
  pub of_other : ¬ (IsOwnChat i p)

no_audio : (p : Payload) → p.audio ≡ none → is_audio (content_of p) ≡ false
unfolding content_of
no_audio p h = rw h (image_no_audio p.image p.video p.document p.text)

some_audio :
    (p : Payload) (url : Option Text)
    → p.audio ≡ some url
    → (is_audio (content_of p) ≡ true) × ((content_of p).media_url ≡ url)
unfolding content_of text_eq
some_audio p url h = (rw h refl, rw h refl)

queue_some :
    (i : Instance) (p : Payload) (url : Option Text)
    → p.audio ≡ some url
    → is_self i p ≡ false
    → audio_to_queue i p ≡ truthy_text url
unfolding audio_to_queue
queue_some i p url h other = let a = some_audio p url h in rw (a.0, other) (rw a.1 refl)

queue_self : (i : Instance) (p : Payload) → is_self i p ≡ true → audio_to_queue i p ≡ none
unfolding audio_to_queue
queue_self i p own = elim (Bool-cases (is_audio (content_of p))) [
  | inl audio ↦ rw (audio, own) refl
  | inr other ↦ rw other refl
]

queue_none : (i : Instance) (p : Payload) → p.audio ≡ none → audio_to_queue i p ≡ none
unfolding audio_to_queue
queue_none i p h = rw (no_audio p h) refl

module _ (v : Services) (r : Redis) (c : Codec) where
  -- The queue after a message was stored under `id`.
  pub data Queued (uuid : Text) (now : ℕ) (i : Instance) (p : Payload) (id : Text) (q : r.State)
      : r.State → Type 0 where
    queued :
        (url : Text)
        → IsWanted i p url
        → Queued uuid now i p id q (enqueue r c uuid now (new_job v r c i id url) q).1
    not_queued : ((url : Text) → ¬ (IsWanted i p url)) → Queued uuid now i p id q q

  url-Queued :
      (uuid : Text) (now : ℕ) (i : Instance) (p : Payload) (id : Text) (q : r.State)
      (url : Option Text)
      → p.audio ≡ some url
      → is_self i p ≡ false
      → Queued uuid now i p id q (queue_audio v r c uuid now i id (truthy_text url) q)
  url-Queued uuid now i p id q none h other =
      not_queued (λ url w. let e : some none ≡ some (some url) = sym h ∙ w.sent in cc)
  url-Queued uuid now i p id q (some []) h other = not_queued (λ url w.
      let e : some (some []) ≡ some (some url) = sym h ∙ w.sent in
      w.some_unit (let f : [] ≡ url = cc in sym f))
  url-Queued uuid now i p id q (some (d ∷ s)) h other = queued (d ∷ s) (record {
    sent = h;
    some_unit = λ e. cc;
    of_other = λ own. let e = (is_self_iff i p).1 own in cc;
  })

  audio-Queued :
      (uuid : Text) (now : ℕ) (i : Instance) (p : Payload) (id : Text) (q : r.State)
      → Queued uuid now i p id q (queue_audio v r c uuid now i id (audio_to_queue i p) q)
  audio-Queued uuid now i p id q = elim (Option-cases p.audio) [
    | inl none_sent ↦
        rw (queue_none i p none_sent)
          (not_queued (λ url w. let e : none ≡ some (some url) = sym none_sent ∙ w.sent in cc))
    | inr (url, sent) ↦ elim (Bool-cases (is_self i p)) [
      | inl own ↦
          rw (queue_self i p own) (not_queued (λ url w. w.of_other ((is_self_iff i p).0 own)))
      | inr other ↦ rw (queue_some i p url sent other) (url-Queued uuid now i p id q url sent other)
    ]
  ]

  -- The signature of a body, where a secret is set.
  pub data Accepted (raw_body : Text) (header : Option Text) : Type 0 where
    open_door : truthy_text v.secret ≡ none → Accepted raw_body header
    signed :
        (secret h : Text)
        → truthy_text v.secret ≡ some secret
        → truthy_text header ≡ some h
        → v.from_hex (v.hmac secret raw_body) ≡ v.from_hex (received_signature h)
        → Accepted raw_body header

  Accepted-sound :
      (raw_body : Text) (header : Option Text)
      → is_accepted v r c raw_body header ≡ true
      → Accepted raw_body header
  unfolding is_accepted verify_signature
  Accepted-sound raw_body header h = elim (Option-cases (truthy_text v.secret)) [
    | inl unset ↦ open_door unset
    | inr (secret, is_set) ↦ elim (Option-cases (truthy_text header)) [
      | inl missing ↦
          let k : false ≡ true = rw (is_set, is_accepted, missing, verify_signature) at h in cc
      | inr (sig, given) ↦
          signed secret sig is_set given
            ((text_eq_iff _ _).0 (rw (is_set, is_accepted, given, verify_signature) at h))
    ]
  ]

  -- An accepted report of a known instance, with its time.
  pub record Known (now_iso raw_body : Text) (header : Option Text) (s : v.State) (p : Payload)
      (i : Instance) (t : Text) : Type 0 where
    pub accepted : Accepted raw_body header
    pub parsed : v.parse raw_body ≡ some p
    pub found : v.find_instance p.instance_id s ≡ some i
    pub dated : timestamp_of v r c (truthy_moment p.momment) now_iso ≡ some t

  -- How a report ends.
  pub data Ends (message_uuid uuid now_iso : Text) (now : ℕ) (raw_body : Text)
      (header : Option Text) (w : World v r c) (out : Answer (Unit {0}) × World v r c)
      : Type 0 where
    nothing :
        (e : Answer (Unit {0}))
        → IsError e
        → out ≡ (e, w)
        → Ends message_uuid uuid now_iso now raw_body header w out
    not_stored :
        (p : Payload) (i : Instance) (t e : Text) (s' : v.State)
        → Known now_iso raw_body header w.0 p i t
        → v.insert_message (message_row message_uuid i p t) w.0 ≡ (thrown e, s')
        → out ≡ (refused 500 (text "persist failed"), (s', w.1))
        → Ends message_uuid uuid now_iso now raw_body header w out
    stored :
        (p : Payload) (i : Instance) (t id : Text) (s' : v.State) (q' : r.State)
        → Known now_iso raw_body header w.0 p i t
        → v.insert_message (message_row message_uuid i p t) w.0 ≡ (returned id, s')
        → Queued uuid now i p id w.1 q'
        → out ≡ (answered tt, (s', q'))
        → Ends message_uuid uuid now_iso now raw_body header w out

  insert-Ends :
      (message_uuid uuid now_iso : Text) (now : ℕ) (raw_body : Text) (header : Option Text)
      (s : v.State) (q : r.State) (p : Payload) (i : Instance) (t : Text)
      (res : Outcome Text × v.State)
      → Known now_iso raw_body header s p i t
      → v.insert_message (message_row message_uuid i p t) s ≡ res
      → Ends message_uuid uuid now_iso now raw_body header
          (s, q)
          (after_insert v r c uuid now i p q res)
  insert-Ends message_uuid uuid now_iso now raw_body header s q p i t (thrown e, s') k h =
      not_stored p i t e s' k h refl
  insert-Ends message_uuid uuid now_iso now raw_body header s q p i t (returned id, s') k h =
      stored p i t id s' _ k h (audio-Queued uuid now i p id q) refl

  receive-Ends :
      (message_uuid uuid now_iso : Text) (now : ℕ) (raw_body : Text) (header : Option Text)
      (w : World v r c) (p : Payload) (i : Instance)
      → Accepted raw_body header
      → v.parse raw_body ≡ some p
      → v.find_instance p.instance_id w.0 ≡ some i
      → Ends message_uuid uuid now_iso now raw_body header w
          (receive v r c message_uuid uuid now_iso now i p w)
  unfolding receive
  receive-Ends message_uuid uuid now_iso now raw_body header (s, q) p i a b f =
      elim (Option-cases (timestamp_of v r c (truthy_moment p.momment) now_iso)) [
        | inl undated ↦ rw (undated, receive) (nothing _ tt refl)
        | inr (t, dated) ↦
            rw (dated, receive)
              (insert-Ends message_uuid uuid now_iso now raw_body header s q p i t _
                (record { accepted = a; parsed = b; found = f; dated = dated }) refl)
      ]

  -- A report is taken only with the signature of its body, where a secret is set, if its body is
  -- valid, names a known instance and has a time that is a date: its row is then inserted, and if
  -- that succeeds, a transcription job for the row is queued exactly if the message is audio with a
  -- URL and the chat is none of the instance's own numbers. Any other report changes nothing.
  pub post_webhook-Ends :
      (message_uuid uuid now_iso : Text) (now : ℕ) (raw_body : Text) (header : Option Text)
      (w : World v r c)
      → Ends message_uuid uuid now_iso now raw_body header w
          (post_webhook v r c message_uuid uuid now_iso now raw_body header w)
  unfolding post_webhook
  post_webhook-Ends message_uuid uuid now_iso now raw_body header (s, q) =
      let P : Answer (Unit {0}) × World v r c → Type 0 =
        Ends message_uuid uuid now_iso now raw_body header (s, q) in
      check-elim P _ _ _ _ (nothing _ tt refl) λ open_.
        need-elim P _ _ _ _ (nothing _ tt refl) λ p parsed.
          need-elim P _ _ _ _ (nothing _ tt refl) λ i found.
            receive-Ends message_uuid uuid now_iso now raw_body header (s, q) p i
              (Accepted-sound raw_body header open_) parsed found
