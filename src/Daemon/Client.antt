-- ===== src/Daemon/Client.antt =====
-- packages/daemon/src/waclaw-client.ts: the event stream and the reconnecting loop. The text of
-- the stream comes as decoded chunks. `JSON.parse` and `new Date(t).toISOString()` are parameters,
-- which give `none` where they throw. A number in an event is a natural number.
pub mod Chunks
pub mod Extract
pub mod Reconnect
use zapi_pwa.Base.{
  ℕ, zero, suc, ◌+◌, ◌*◌, Bool, true, false, ◌&&◌, not, Option, none, some, List, [], ◌∷◌, ◌++◌,
  if◌then◌else◌, ltb, leb, ◌==◌, Text, text, text_eq, is_empty, drop, length, min,
}
use zapi_pwa.Strings.{starts_with, ends_with}
use mathlib.Core.List.{filter_map, map}
use zapi_pwa.Effect.{Outcome, returned, thrown}
use zapi_pwa.Filter.{OnAudioEvent}

-- What `JSON.parse` gives.
mutual
  pub data Json : Type 0 where
    null : Json
    bool : Bool → Json
    number : ℕ → Json
    string : Text → Json
    array : Json
    object : Fields → Json

  pub data Fields : Type 0 where
    nil : Fields
    field : Text → Json → Fields → Fields

-- `obj[name]`; `none` is `undefined`.
unfoldable pub member : Text → Fields → Option Json
member name nil = none
member name (field key v fields) = if text_eq key name then some v else member name fields

abbrev pub max_audio_bytes : ℕ
max_audio_bytes = 25 * 1024 * 1024

-- `isObject(value)`; an array is an object with no named member.
abbrev pub members : Option Json → Option Fields
members (some (object fields)) = some fields
members (some array) = some nil
members _ = none

-- `typeof v === "string" && v`
abbrev pub given_text : Option Json → Option Text
given_text (some (string [])) = none
given_text (some (string (c ∷ s))) = some (c ∷ s)
given_text _ = none

-- `typeof v === "string" ? v : ""`
abbrev pub text_or_empty : Option Json → Text
text_or_empty (some (string s)) = s
text_or_empty _ = []

-- `typeof v === "string" ? v : null`
abbrev pub text_or_null : Option Json → Option Text
text_or_null (some (string s)) = some s
text_or_null _ = none

-- `Boolean(v)`
abbrev pub to_boolean : Option Json → Bool
to_boolean none = false
to_boolean (some null) = false
to_boolean (some (bool b)) = b
to_boolean (some (number zero)) = false
to_boolean (some (number (suc n))) = true
to_boolean (some (string [])) = false
to_boolean (some (string (c ∷ s))) = true
to_boolean (some array) = true
to_boolean (some (object fields)) = true

-- `typeof v === "number" && v > MAX_AUDIO_BYTES`
abbrev pub is_too_large : Option Json → Bool
is_too_large (some (number n)) = ltb max_audio_bytes n
is_too_large _ = false

-- `typeof v === "number" ? v : 0`
abbrev pub number_or_zero : Option Json → ℕ
number_or_zero (some (number n)) = n
number_or_zero _ = 0

-- `url.replace(/\/$/, "")`
unfoldable pub strip_slash : Text → Text
strip_slash [] = []
strip_slash (c ∷ []) = if c == b'/' then [] else c ∷ []
strip_slash (c ∷ d ∷ s) = c ∷ strip_slash (d ∷ s)

-- `s.replace(from, to)` for strings: the first occurrence. (A replacement text with a `$` in it
-- would be read as a pattern; a URL prefix has none.)
unfoldable pub replace_first : Text → Text → Text → Text
replace_first [] from to = if is_empty from then to else []
replace_first (c ∷ s) from to =
    if starts_with (c ∷ s) from
    then to ++ drop (length from) (c ∷ s)
    else c ∷ replace_first s from to

infixl 5 ◌>>=◌ ◌>>◌
abbrev ◌>>=◌ {ℓ κ} : {A : Type ℓ} {B : Type κ} → Option A → (A → Option B) → Option B
none >>= k = none
some a >>= k = k a

abbrev ◌>>◌ : {B : Type 0} → Option (Unit {0}) → Option B → Option B
m >> k = m >>= λ _. k

abbrev pub guard : Bool → Option (Unit {0})
guard true = some tt
guard false = none

abbrev pub is_string : Option Json → Text → Bool
is_string (some (string s)) t = text_eq s t
is_string _ t = false

-- `timestamp == null` is the early return.
abbrev pub present : Option Json → Option Json
present none = none
present (some null) = none
present (some v) = some v

abbrev push_line : ℕ → List Text × Text → List Text × Text
push_line c ([], rest) = ([], c ∷ rest)
push_line c (line ∷ lines, rest) = ((c ∷ line) ∷ lines, rest)

-- `buffer.split("\n")`, and the last piece that `pop` takes off it.
unfoldable pub lines_of : Text → List Text × Text
lines_of [] = ([], [])
lines_of (c ∷ s) =
    let (lines, rest) = lines_of s in
    if c == 10 then ([] ∷ lines, rest) else push_line c (lines, rest)

-- An attempt to connect: `fetch` throws, the response is an error, or the stream gives some chunks
-- and ends.
pub data Connection : Type 0 where
  failed : Text → Connection
  refused : Text → Connection
  opened : List Text → Connection

-- What the client does: it hands an event on, or waits before it connects again.
pub data Step : Type 0 where
  heard : OnAudioEvent → Step
  waited : ℕ → Step

abbrev pub initial_backoff_ms : ℕ
initial_backoff_ms = 1000

abbrev pub max_backoff_ms : ℕ
max_backoff_ms = 30_000

-- The environment of the client: the two standard functions and the two addresses.
pub record Setting : Type 0 where
  pub parse : Text → Option Json
  pub to_iso : Json → Option Text
  pub waclaw_url : Text
  pub waclaw_public_url : Text

module _ (e : Setting) where
  -- `extractAudioEvent`; `none` for `null` and for the exception of an invalid date, both of which
  -- skip the line.
  unfoldable pub extract_audio_event : Json → Option OnAudioEvent
  extract_audio_event raw = do
    root ← members (some raw)
    guard (is_string (member (text "type") root) (text "message"))
    message ← members (member (text "message") root)
    audio ← members (member (text "audio") message)
    guard (not (is_too_large (member (text "size_bytes") audio)))
    session_id ← given_text (member (text "session_id") root)
    message_id ← given_text (member (text "id") message)
    chat_jid ← given_text (member (text "chat_jid") message)
    audio_url ← given_text (member (text "url") audio)
    timestamp ← present (member (text "timestamp") message)
    iso ← e.to_iso timestamp
    some (record {
      waclaw_session_id = session_id;
      message_id = message_id;
      chat_jid = chat_jid;
      chat_lid = given_text (member (text "chat_lid") message);
      chat_name = text_or_empty (member (text "chat_name") message);
      sender_phone = text_or_empty (member (text "from") message);
      sender_lid = given_text (member (text "sender_lid") message);
      sender_name = text_or_null (member (text "sender_name") message);
      from_me = to_boolean (member (text "from_me") message);
      is_group = ends_with chat_jid (text "@g.us");
      audio_url =
          replace_first audio_url (strip_slash e.waclaw_url) (strip_slash e.waclaw_public_url);
      audio_bytes_base64 = none;
      audio_duration_seconds = number_or_zero (member (text "duration_seconds") audio);
      timestamp = iso;
    })

  -- One line of the stream.
  unfoldable pub read_line : Text → Option OnAudioEvent
  read_line line =
      if starts_with line (text "data: ")
      then (e.parse (drop 6 line) >>= extract_audio_event)
      else none

  -- The audio events of the complete lines of `for (const line of lines)`.
  unfoldable pub read_lines : List Text → List OnAudioEvent
  unfolding read_line
  read_lines = filter_map read_line

  -- The loop of `connect`: the buffer, then the chunks that are still to come.
  unfoldable pub feed : Text → List Text → List OnAudioEvent
  unfolding read_lines
  feed buffer [] = []
  feed buffer (chunk ∷ chunks) =
      let (lines, rest) = lines_of (buffer ++ chunk) in read_lines lines ++ feed rest chunks

  -- `connect`: the events that it hands on, and how it ends.
  unfoldable pub connect : Connection → List OnAudioEvent × Outcome (Unit {0})
  unfolding feed
  connect (failed err) = ([], thrown err)
  connect (refused status) = ([], thrown (text "waclaw /events responded " ++ status))
  connect (opened chunks) = (feed [] chunks, thrown (text "waclaw stream ended"))

  -- One round of the loop of `connectAndSubscribe`, with the backoff: the calls of the round, and
  -- the next backoff.
  abbrev after_connect : ℕ → Outcome (Unit {0}) → List Step × ℕ
  after_connect backoff (returned _) = ([], initial_backoff_ms)
  after_connect backoff (thrown err) = (waited backoff ∷ [], min (backoff * 2) max_backoff_ms)

  -- `connectAndSubscribe` over the connections that it makes in turn.
  unfoldable pub subscribe : ℕ → List Connection → List Step
  subscribe backoff [] = []
  subscribe backoff (c ∷ cs) =
      let (events, res) = connect c in
      let (wait, next) = after_connect backoff res in
      map heard events ++ (wait ++ subscribe next cs)

  unfoldable pub connect_and_subscribe : List Connection → List Step
  unfolding subscribe
  connect_and_subscribe cs = subscribe initial_backoff_ms cs
