-- ===== src/Voice.antt =====
-- packages/pwa/src/app/app/components/VoiceRecorder.tsx: the state and the handlers of the recorder
-- of voice messages, with the part of the browser that they use: the open microphones, the running
-- recorders and timers, and the questions and the stop events that are outstanding.
pub mod Closed
pub mod Session
use zapi_pwa.Base.{
  ℕ, suc, ◌+◌, ◌-◌, ◌/◌, ◌<◌, ◌≡◌, Bool, true, false, not, Option, none, some, List, [], ◌∷◌, ◌++◌,
  filter, any, find, ◌==◌, if◌then◌else◌, Text, text,
}
use zapi_pwa.Routes.{or_null}

pub data Phase : Type 0 where
  idle recording sending : Phase

pub record Format : Type 0 where
  pub mime : Text
  pub ext : Text

abbrev pub Blob : Type 0
Blob = List ℕ

pub record File : Type 0 where
  pub content : Blob
  pub name : Text
  pub mime : Text

-- The browser: `MediaRecorder.isTypeSupported`, and the digits of a number.
pub record Browser : Type 0 where
  pub is_supported : Text → Bool
  pub digits : ℕ → Text

pub record Voice : Type 0 where
  -- The state and the references of the component.
  pub phase : Phase
  pub seconds : ℕ
  pub error : Option Text
  pub recorder : Option ℕ
  pub chunks : List Blob
  pub stream : Option ℕ
  pub started_at : ℕ
  pub timer : Option ℕ
  pub cancelled : Bool
  -- The browser, and the files for which `onSend` was called.
  pub asking : ℕ
  pub microphones : List ℕ
  pub running : List ℕ
  pub stopping : ℕ
  pub timers : List ℕ
  pub uploads : ℕ
  pub files : List File

-- What becomes of a recorder on a granted microphone: it starts, or the constructor throws, or its
-- start does; the message of an exception is none where it is empty.
pub data Making : Type 0 where
  made : Making
  unmade unstarted : Option Text → Making

pub data Event : Type 0 where
  press_start press_stop press_cancel : Event
  granted : ℕ → ℕ → Making → Event
  denied : Option Text → Event
  data_available : Blob → Event
  ended : ℕ → Event
  stopped : ℕ → Event
  tick : ℕ → Event
  sent : Event
  send_failed : Text → Event

abbrev pub candidates : List Format
candidates =
    record { mime = text "audio/ogg;codecs=opus"; ext = text "ogg" }
    ∷ record { mime = text "audio/webm;codecs=opus"; ext = text "webm" }
    ∷ record { mime = text "audio/webm"; ext = text "webm" }
    ∷ record { mime = text "audio/mp4"; ext = text "m4a" }
    ∷ []

-- `pickMimeType`
unfoldable pub pick_mime_type : Browser → Format
pick_mime_type b =
    or_null (find (λ c. b.is_supported c.mime) candidates) (record { mime = []; ext = text "webm" })

-- `mime || "audio/webm"`
abbrev type_of : Text → Text
type_of [] = text "audio/webm"
type_of (c ∷ mime) = c ∷ mime

abbrev pub join_blobs : List Blob → Blob
join_blobs [] = []
join_blobs (c ∷ cs) = c ++ join_blobs cs

unfoldable pub file_of : Browser → ℕ → List Blob → File
unfolding pick_mime_type
file_of b now chunks =
    let format = pick_mime_type b in
    record {
      content = join_blobs chunks;
      name = text "voz-" ++ (b.digits now ++ (text "." ++ format.ext));
      mime = type_of format.mime;
    }

abbrev pub without : ℕ → List ℕ → List ℕ
without n = filter (λ m. not (m == n))

-- The tracks of a stream are stopped, or a timer is cleared.
abbrev pub release : Option ℕ → List ℕ → List ℕ
release none ns = ns
release (some n) ns = without n ns

-- `start`, up to its `await`
abbrev pub start : Voice → Voice
start v = record v { error = none; cancelled = false; chunks = []; asking = v.asking + 1 }

-- The `catch` of `start`; the message is none where it is empty.
abbrev pub fail : Option Text → Voice → Voice
fail message v = record v {
  error = some (or_null message (text "Microfone indisponível"));
  phase = idle;
}

abbrev pub deny : Option Text → Voice → Voice
deny message v = fail message (record v { asking = v.asking - 1 })

-- The stream of a granted microphone
abbrev pub acquire : ℕ → Voice → Voice
acquire id v = record v {
  asking = v.asking - 1;
  stream = some id;
  microphones = id ∷ v.microphones;
}

-- A new recorder with its timer, before `recorder.start()`
abbrev pub prepare : ℕ → ℕ → Voice → Voice
prepare id now v = record v {
  recorder = some id;
  started_at = now;
  seconds = 0;
  timer = some id;
  timers = id ∷ v.timers;
}

-- `start`, after the microphone `id` was granted at a time
abbrev pub begin : ℕ → ℕ → Making → Voice → Voice
begin id now (unmade message) v = fail message (acquire id v)
begin id now (unstarted message) v = fail message (prepare id now (acquire id v))
begin id now made v =
    let w : Voice = prepare id now (acquire id v) in
    record w { running = id ∷ w.running; phase = recording }

-- `rec.stop()`, if the recorder is running, or its end by the browser
abbrev pub stop_recorder : ℕ → Voice → Voice
stop_recorder id v =
    if any (λ m. m == id) v.running
    then record v { running = without id v.running; stopping = v.stopping + 1 }
    else v

abbrev pub press : Bool → Option ℕ → Voice → Voice
press cancelling none v = v
press cancelling (some id) v = stop_recorder id (record v { cancelled = cancelling })

abbrev pub stop_and_send : Voice → Voice
stop_and_send v = press false v.recorder v

abbrev pub cancel : Voice → Voice
cancel v = press true v.recorder v

-- `ondataavailable`
abbrev pub add_data : Blob → Voice → Voice
add_data [] v = v
add_data (c ∷ blob) v = record v { chunks = v.chunks ++ (c ∷ blob) ∷ [] }

abbrev rest : Voice → Voice
rest v = record v { phase = idle; seconds = 0 }

abbrev deliver : Browser → ℕ → List Blob → Voice → Voice
deliver b now [] v = rest v
deliver b now (c ∷ cs) v = record v {
  phase = sending;
  uploads = v.uploads + 1;
  files = v.files ++ file_of b now (c ∷ cs) ∷ [];
}

-- `onstop`, up to its `await`
abbrev pub on_stop : Browser → ℕ → Voice → Voice
on_stop b now v =
    let w : Voice = record v {
      stopping = v.stopping - 1;
      microphones = release v.stream v.microphones;
      stream = none;
      timers = release v.timer v.timers;
      timer = none;
    } in
    if v.cancelled then rest w else deliver b now v.chunks w

abbrev pub step : Browser → Event → Voice → Voice
step b press_start v = start v
step b (granted id now making) v = begin id now making v
step b (denied message) v = deny message v
step b press_stop v = stop_and_send v
step b press_cancel v = cancel v
step b (data_available blob) v = add_data blob v
step b (ended id) v = stop_recorder id v
step b (stopped now) v = on_stop b now v
step b (tick now) v = record v { seconds = (now - v.started_at) / 1000 }
step b sent v = rest (record v { uploads = v.uploads - 1 })
step b (send_failed e) v = rest (record v { uploads = v.uploads - 1; error = some e })

abbrev pub run : Browser → List Event → Voice → Voice
run b [] v = v
run b (e ∷ es) v = run b es (step b e v)

abbrev pub mounted : Voice
mounted = record {
  phase = idle;
  seconds = 0;
  error = none;
  recorder = none;
  chunks = [];
  stream = none;
  started_at = 0;
  timer = none;
  cancelled = false;
  asking = 0;
  microphones = [];
  running = [];
  stopping = 0;
  timers = [];
  uploads = 0;
  files = [];
}

-- The cleanup when the component is unmounted
abbrev pub unmount : Voice → Voice
unmount v = record v {
  timers = release v.timer v.timers;
  microphones = release v.stream v.microphones;
}

-- When an event can happen: the buttons are there in their phases, and the browser answers what it
-- was asked.
abbrev pub CanHappen : Event → Voice → Type 0
CanHappen press_start v = v.phase ≡ idle
CanHappen (granted id now making) v = 0 < v.asking
CanHappen (denied message) v = 0 < v.asking
CanHappen press_stop v = v.phase ≡ recording
CanHappen press_cancel v = v.phase ≡ recording
CanHappen (data_available blob) v = Unit
CanHappen (ended id) v = Unit
CanHappen (stopped now) v = 0 < v.stopping
CanHappen (tick now) v = Unit
CanHappen sent v = 0 < v.uploads
CanHappen (send_failed e) v = 0 < v.uploads

abbrev pub CanRun : Browser → List Event → Voice → Type 0
CanRun b [] v = Unit
CanRun b (e ∷ es) v = CanHappen e v × CanRun b es (step b e v)

-- No second press while the browser asks, and no recorder that fails on a granted microphone.
abbrev pub IsSmooth : Event → Voice → Type 0
IsSmooth press_start v = v.asking ≡ 0
IsSmooth (granted id now making) v = making ≡ made
IsSmooth _ v = Unit

abbrev pub AreSmooth : Browser → List Event → Voice → Type 0
AreSmooth b [] v = Unit
AreSmooth b (e ∷ es) v = IsSmooth e v × AreSmooth b es (step b e v)
