-- ===== src/Daemon/Forwarder.antt =====
-- packages/daemon/src/forwarder.ts, with the constants of packages/shared/src/constants.ts, and the
-- handler of packages/daemon/src/index.ts. The services are a parameter; every call is recorded in
-- a log, newest last.
pub mod Trace
pub mod Bounds
use zapi_pwa.Base.{
  ℕ, zero, suc, ◌+◌, ◌-◌, Bool, true, false, ◌&&◌, Option, none, some, List, [], ◌∷◌, ◌++◌,
  if◌then◌else◌, ltb, leb, ◌==◌, Text, text, is_empty, truthy, get_elem?,
}
use zapi_pwa.Effect.{Outcome, returned, thrown}
use zapi_pwa.Filter.{OnAudioEvent}
use zapi_pwa.Base64.{to_base64}

-- `OnAudioResponse`
pub record OnAudioResponse : Type 0 where
  pub status : Text
  pub reason : Option Text
  pub reply_text : Option Text

abbrev pub daemon_forward_max_retries : ℕ
daemon_forward_max_retries = 3

abbrev pub daemon_forward_backoff_ms : List ℕ
daemon_forward_backoff_ms = 1000 ∷ 3000 ∷ 10000 ∷ []

-- A response of `fetch`; reading its body may throw.
pub record AudioResponse : Type 0 where
  pub status : ℕ
  pub body : Outcome (List ℕ)

-- A response of the web application: `json` is what the schema makes of the body (`none` if the
-- body does not fit), `body_text` its text.
pub record NextResponse : Type 0 where
  pub status : ℕ
  pub json : Outcome (Option OnAudioResponse)
  pub body_text : Outcome Text
  pub status_text : Text

-- `response.ok`
abbrev pub is_ok : ℕ → Bool
is_ok status = leb 200 status && leb status 299

-- How one attempt to forward an event ends.
pub data Attempt : Type 0 where
  done : OnAudioResponse → Attempt
  permanent : Text → Attempt
  transient : Text → Attempt

pub data Call : Type 0 where
  slept : ℕ → Call
  fetched : Text → Call
  posted : OnAudioEvent → Attempt → Call
  replied : Text → Text → Text → Text → Call

pub record Services : Type 1 where
  pub State : Type 0
  pub fetch : Text → State → Outcome AudioResponse × State
  pub post : OnAudioEvent → State → Outcome NextResponse × State
  pub send : Text → Text → Text → Text → State → Outcome (Unit {0}) × State

-- `Next returned ${res.status}: ${text}`
abbrev returned_status : NextResponse → Text → Text
returned_status res t = text "Next returned " ++ res.status_text ++ text ": " ++ t

abbrev of_json : Outcome (Option OnAudioResponse) → Attempt
of_json (thrown e) = transient e
of_json (returned none) = transient (text "invalid response from Next")
of_json (returned (some r)) = done r

abbrev of_error : (Text → Attempt) → NextResponse → Outcome Text → Attempt
of_error kind res (thrown e) = transient e
of_error kind res (returned t) = kind (returned_status res t)

-- The body of the `try` and its `catch`.
pub judge : Outcome NextResponse → Attempt
judge (thrown e) = transient e
judge (returned res) =
    if is_ok res.status
    then of_json res.json
    else if leb 400 res.status && ltb res.status 500
    then of_error permanent res res.body_text
    else of_error transient res res.body_text

-- One round of the loop of `fetchAudioBytes`: `none` means that the loop goes on.
abbrev judge_audio : Outcome AudioResponse → Option (Option Text)
judge_audio (thrown e) = some none
judge_audio (returned res) =
    if res.status == 425
    then none
    else if is_ok res.status
    then some (elim res.body [ thrown e ↦ none | returned bytes ↦ some (to_base64 bytes) ])
    else some none

abbrev pub last_error : Option Text → Text
last_error none = text "unknown forward failure"
last_error (some e) = e

abbrev pub with_bytes : Option Text → OnAudioEvent → OnAudioEvent
with_bytes bytes event = if truthy bytes then record event { audio_bytes_base64 = bytes } else event

module _ (v : Services) where
  abbrev pub World : Type 0
  World = List Call × v.State

  abbrev pub record_call : Call → World → World
  record_call c (log, s) = (log ++ c ∷ [], s)

  abbrev pub fetch_once : Text → World → Option (Option Text) × World
  fetch_once url (log, s) =
      let (res, s') = v.fetch url s in (judge_audio res, (log ++ fetched url ∷ [], s'))

  -- The loop of `fetchAudioBytes`, with the rounds left and the attempt.
  pub fetch_rounds : ℕ → ℕ → Text → World → Option Text × World
  fetch_rounds zero attempt url w = (none, w)
  fetch_rounds (suc left) attempt url w =
      let w' = if ltb 0 attempt then record_call (slept 1000) w else w in
      let (res, w'') = fetch_once url w' in
      elim res [ some bytes ↦ (bytes, w'') | none ↦ fetch_rounds left (attempt + 1) url w'' ]

  -- `fetchAudioBytes`
  pub fetch_audio_bytes : Text → World → Option Text × World
  fetch_audio_bytes url w = fetch_rounds 4 0 url w

  abbrev pub post_once : OnAudioEvent → World → Attempt × World
  post_once payload (log, s) =
      let (res, s') = v.post payload s in (judge res, (log ++ posted payload (judge res) ∷ [], s'))

  -- The sleep before a retry.
  abbrev pub back_off : ℕ → World → World
  back_off zero w = w
  back_off (suc k) w = elim (get_elem? daemon_forward_backoff_ms k) [
    | none ↦ w
    | some ms ↦ record_call (slept ms) w
  ]

  -- The loop of `forwardAudioEvent`, with the rounds left, the attempt and `lastErr`.
  pub forward_rounds : ℕ → ℕ → Option Text → OnAudioEvent → World → Outcome OnAudioResponse × World
  forward_rounds zero attempt last payload w = (thrown (last_error last), w)
  forward_rounds (suc left) attempt last payload w =
      let (res, w') = post_once payload (back_off attempt w) in
      elim res [
        | done r ↦ (returned r, w')
        | permanent e ↦ (thrown e, w')
        | transient e ↦ forward_rounds left (attempt + 1) (some e) payload w'
      ]

  -- `forwardAudioEvent`; `secret` is the environment's INTERNAL_WEBHOOK_SECRET.
  pub forward_audio_event : Text → OnAudioEvent → World → Outcome OnAudioResponse × World
  forward_audio_event secret event w =
      if is_empty secret
      then (thrown (text "INTERNAL_WEBHOOK_SECRET not set"), w)
      else let (bytes, w') = fetch_audio_bytes event.audio_url w in
        forward_rounds daemon_forward_max_retries 0 none (with_bytes bytes event) w'

  -- `sendWaclawReply`, whose failure is logged and goes no further
  abbrev reply : OnAudioEvent → Option Text → World → World
  reply event none w = w
  reply event (some []) w = w
  reply event (some (c ∷ t)) (log, s) =
      let (_, s') = v.send event.waclaw_session_id event.chat_jid (c ∷ t) event.message_id s in
      (log ++ replied event.waclaw_session_id event.chat_jid (c ∷ t) event.message_id ∷ [], s')

  abbrev after_forward : OnAudioEvent → Outcome OnAudioResponse → World → World
  after_forward event (thrown e) w = w
  after_forward event (returned r) w = reply event r.reply_text w

  -- `onAudioMessage` of `main`
  pub on_audio_message : Text → OnAudioEvent → World → World
  on_audio_message secret event w =
      let (res, w') = forward_audio_event secret event w in after_forward event res w'
