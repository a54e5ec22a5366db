-- ===== src/Voice/Session.antt =====
-- What a recording sends.
use mathlib.Core.Option.{none-ne-some}
use zapi_pwa.Base.{
  Option, none, any, Bool-cases, inl, inr, ◌==◌, sym, ap, ℕ, ◌≡◌, refl, sym, ap, ◌∙◌, append_assoc,
  append-nil, Bool, true, false, none, some, List, [], ◌∷◌, ◌++◌,
}
use zapi_pwa.Voice.{
  press, made, begin, start, deliver, stop_recorder, File, CanRun, idle, Blob, Browser, Voice,
  Event, press_start, press_stop, press_cancel, granted, data_available, stopped, tick, file_of,
  step, run, mounted, on_stop,
}

-- What happens during a recording: a piece of it arrives, or time passes.
pub data Moment : Type 0 where
  piece : Blob → Moment
  moment : ℕ → Moment

abbrev pub event_of : Moment → Event
event_of (piece blob) = data_available blob
event_of (moment now) = tick now

abbrev pub events_of : List Moment → List Event
events_of [] = []
events_of (m ∷ ms) = event_of m ∷ events_of ms

-- The pieces that are not empty.
abbrev pub pieces : List Moment → List Blob
pieces [] = []
pieces (piece [] ∷ ms) = pieces ms
pieces (piece (c ∷ blob) ∷ ms) = (c ∷ blob) ∷ pieces ms
pieces (moment now ∷ ms) = pieces ms

-- From the press of the button to the end of the recording.
abbrev pub session : ℕ → ℕ → List Moment → Event → List Moment → ℕ → List Event
session id now before button after later =
    press_start
    ∷ granted id now made
    ∷ (events_of before ++ button ∷ (events_of after ++ stopped later ∷ []))

run-append :
    (b : Browser) (es fs : List Event) (v : Voice) → run b (es ++ fs) v ≡ run b fs (run b es v)
run-append b [] fs v = refl
run-append b (e ∷ es) fs v = run-append b es fs (step b e v)

module _ (b : Browser) where
  -- The pieces are kept, and nothing that decides about the file changes.
  pub record Keeps (ms : List Moment) (v w : Voice) : Type 0 where
    pub chunks : w.chunks ≡ v.chunks ++ pieces ms
    pub files : w.files ≡ v.files
    pub recorder : w.recorder ≡ v.recorder
    pub cancelled : w.cancelled ≡ v.cancelled

  moments-Keeps : (ms : List Moment) (v : Voice) → Keeps ms v (run b (events_of ms) v)
  moments-Keeps [] v = record {
    chunks = sym (append-nil v.chunks);
    files = refl;
    recorder = refl;
    cancelled = refl;
  }
  moments-Keeps (piece [] ∷ ms) v =
      let k = moments-Keeps ms v in
      record { chunks = k.chunks; files = k.files; recorder = k.recorder; cancelled = k.cancelled }
  moments-Keeps (piece (c ∷ blob) ∷ ms) v =
      let k = moments-Keeps ms (step b (data_available (c ∷ blob)) v) in
      record {
        chunks = k.chunks ∙ append_assoc v.chunks ((c ∷ blob) ∷ []) (pieces ms);
        files = k.files;
        recorder = k.recorder;
        cancelled = k.cancelled;
      }
  moments-Keeps (moment now ∷ ms) v =
      let k = moments-Keeps ms (step b (tick now) v) in
      record { chunks = k.chunks; files = k.files; recorder = k.recorder; cancelled = k.cancelled }

  -- The file of the pieces, where the recording was not cancelled.
  abbrev pub kept_file : ℕ → Bool → List Blob → List File
  kept_file later true pieces = []
  kept_file later false [] = []
  kept_file later false (c ∷ cs) = file_of b later (c ∷ cs) ∷ []

  deliver_files :
      (later : ℕ) (cs : List Blob) (w : Voice)
      → (deliver b later cs w).files ≡ w.files ++ kept_file later false cs
  deliver_files later [] w = sym (append-nil w.files)
  deliver_files later (c ∷ cs) w = refl

  stopped_files :
      (later : ℕ) (v : Voice)
      → (on_stop b later v).files ≡ v.files ++ kept_file later v.cancelled v.chunks
  stopped_files later v = elim (Bool-cases v.cancelled) [
    | inl dropped ↦ rw dropped (sym (append-nil v.files))
    | inr kept ↦ rw kept (deliver_files later v.chunks _)
  ]

  abbrev pub button_of : Bool → Event
  button_of true = press_cancel
  button_of false = press_stop

  -- A button decides whether the recording is kept.
  pub record Decides (cancelling : Bool) (v w : Voice) : Type 0 where
    pub chunks : w.chunks ≡ v.chunks
    pub files : w.files ≡ v.files
    pub cancelled : w.cancelled ≡ cancelling

  stop-Decides :
      (cancelling : Bool) (id : ℕ) (v : Voice)
      → Decides cancelling v (stop_recorder id (record v { cancelled = cancelling }))
  stop-Decides cancelling id v = elim (Bool-cases (any (λ m. m == id) v.running)) [
    | inl runs ↦ record { chunks = rw runs refl; files = rw runs refl; cancelled = rw runs refl }
    | inr ended ↦ record {
      chunks = rw ended refl;
      files = rw ended refl;
      cancelled = rw ended refl;
    }
  ]

  press-Decides :
      (cancelling : Bool) (pressed : Option ℕ) (id : ℕ) (v : Voice)
      → pressed ≡ some id
      → Decides cancelling v (press cancelling pressed v)
  press-Decides cancelling none id v h = absurd (none-ne-some id h)
  press-Decides cancelling (some n) id v h = stop-Decides cancelling n v

  button-Decides :
      (cancelling : Bool) (id : ℕ) (v : Voice)
      → v.recorder ≡ some id
      → Decides cancelling v (step b (button_of cancelling) v)
  button-Decides true id v h = press-Decides true v.recorder id v h
  button-Decides false id v h = press-Decides false v.recorder id v h

  -- From the start of a recorder on.
  recorded :
      (cancelling : Bool) (before after : List Moment) (later id : ℕ) (v : Voice)
      → v.recorder ≡ some id
      → (run b
          (events_of before ++ button_of cancelling ∷ (events_of after ++ stopped later ∷ []))
          v).files
        ≡ v.files ++ kept_file later cancelling (v.chunks ++ pieces before ++ pieces after)
  recorded cancelling before after later id v h =
      let tail = events_of after ++ stopped later ∷ [] in
      let w : Voice = run b (events_of before) v in
      let k = moments-Keeps before v in
      let u : Voice = step b (button_of cancelling) w in
      let d = button-Decides cancelling id w (k.recorder ∙ h) in
      let l = moments-Keeps after u in
      ap (λ x. x.files) (run-append b (events_of before) (button_of cancelling ∷ tail) v)
      ∙ ap (λ x. x.files) (run-append b (events_of after) (stopped later ∷ []) u)
      ∙ stopped_files later (run b (events_of after) u)
      ∙ rw (l.chunks, l.files, l.cancelled, d.chunks, d.files, d.cancelled, k.chunks, k.files) refl

  -- After any events that can happen that left the recorder idle and the browser asking nothing, a
  -- recording that ends with the send button calls `onSend` once, with a file of all the pieces that
  -- are not empty in their order, those that arrive between the button and the stop event
  -- included, and not at all if there is none. A recording that is cancelled calls it never.
  pub session_sends :
      (es : List Event) (cancelling : Bool) (id now later : ℕ) (before after : List Moment)
      → CanRun b es mounted
      → (run b es mounted).phase ≡ idle
      → (run b es mounted).asking ≡ 0
      → (run b (session id now before (button_of cancelling) after later) (run b es mounted)).files
        ≡ (run b es mounted).files ++ kept_file later cancelling (pieces before ++ pieces after)
  session_sends es cancelling id now later before after can still unasked =
      recorded cancelling before after later id (begin id now made (start (run b es mounted))) refl
