-- ===== src/Voice/Closed.antt =====
-- When the microphone is open.
use zapi_pwa.Base.{
  ◌≢◌, length, ℕ, ◌+◌, ◌-◌, ◌/◌, ◌<◌, ◌≡◌, refl, subst, sym, ap, Bool, true, false, Bool-cases, inl,
  inr, Option, none, some, List, [], ◌∷◌, ◌++◌, ◌==◌, Text, text, arith,
}
use zapi_pwa.Routes.{or_null}
use zapi_pwa.Voice.{
  made, unmade, unstarted, IsSmooth, AreSmooth, mounted, unmount, Phase, idle, recording, sending,
  Blob, File, Browser, Voice, Event, unmount, press_start, press_stop, press_cancel, granted,
  denied, data_available, ended, stopped, tick, sent, send_failed, file_of, step, run, CanHappen,
  CanRun, stop_recorder, on_stop,
}

-- What the shapes below leave open.
pub record Free : Type 0 where
  pub seconds : ℕ
  pub error : Option Text
  pub recorder : Option ℕ
  pub chunks : List Blob
  pub started_at : ℕ
  pub cancelled : Bool
  pub files : List File

abbrev pub shape : Phase → Option ℕ → List ℕ → List ℕ → ℕ → ℕ → ℕ → Free → Voice
shape phase id mics running stopping asking uploads f = record {
  phase = phase;
  seconds = f.seconds;
  error = f.error;
  recorder = f.recorder;
  chunks = f.chunks;
  stream = id;
  started_at = f.started_at;
  timer = id;
  cancelled = f.cancelled;
  asking = asking;
  microphones = mics;
  running = running;
  stopping = stopping;
  timers = mics;
  uploads = uploads;
  files = f.files;
}

abbrev pub resting : ℕ → Free → Voice
resting asking f = shape idle none [] [] 0 asking 0 f

abbrev pub listening : ℕ → Free → Voice
listening id f =
    shape recording (some id) (id ∷ []) (id ∷ []) 0 0 0 (record f { recorder = some id })

abbrev pub ending : ℕ → Free → Voice
ending id f = shape recording (some id) (id ∷ []) [] 1 0 0 (record f { recorder = some id })

abbrev pub uploading : Free → Voice
uploading f = shape sending none [] [] 0 0 1 f

-- The four kinds of state of the recorder.
pub data Sound (v : Voice) : Type 0 where
  at_rest : (n : ℕ) (f : Free) → n < 2 → v ≡ resting n f → Sound v
  at_work : (id : ℕ) (f : Free) → v ≡ listening id f → Sound v
  at_end : (id : ℕ) (f : Free) → v ≡ ending id f → Sound v
  at_upload : (f : Free) → v ≡ uploading f → Sound v

pub eq_refl : (n : ℕ) → (n == n) ≡ true
eq_refl n = ground arith

-- Stopping another recorder changes nothing, stopping the running one ends the recording.
stop-Sound : (n id : ℕ) (f : Free) → Sound (stop_recorder n (listening id f))
stop-Sound n id f = elim (Bool-cases (id == n)) [
  | inl same ↦ at_end id f (rw same refl)
  | inr other ↦ at_work id f (rw other refl)
]

module _ (b : Browser) where
  resting-step :
      (e : Event) (n : ℕ) (f : Free)
      → n < 2
      → CanHappen e (resting n f)
      → IsSmooth e (resting n f)
      → Sound (step b e (resting n f))
  resting-step press_start n f few p q =
      at_rest (n + 1) (record f { error = none; cancelled = false; chunks = [] }) (omega arith) refl
  resting-step (granted id now (unmade m)) n f few some_question q = cc
  resting-step (granted id now (unstarted m)) n f few some_question q = cc
  resting-step (granted id now made) n f few some_question q =
      let f' : Free = record f { started_at = now; seconds = 0; recorder = some id } in
      let none_left : n - 1 ≡ 0 = omega (arith, few, some_question) in
      at_work id f' (ap (λ k. record (listening id f') { asking = k }) none_left)
  resting-step (denied message) n f few some_question q =
      at_rest (n - 1) (record f { error = some (or_null message (text "Microfone indisponível")) })
        (omega arith) refl
  resting-step press_stop n f few h q = cc
  resting-step press_cancel n f few h q = cc
  resting-step (data_available []) n f few h q = at_rest n f few refl
  resting-step (data_available (c ∷ blob)) n f few h q =
      at_rest n (record f { chunks = f.chunks ++ (c ∷ blob) ∷ [] }) few refl
  resting-step (ended id) n f few h q = at_rest n f few refl
  resting-step (stopped now) n f few h q = absurd (omega (arith, h))
  resting-step (tick now) n f few h q =
      at_rest n (record f { seconds = (now - f.started_at) / 1000 }) few refl
  resting-step sent n f few h q = absurd (omega (arith, h))
  resting-step (send_failed e) n f few h q = absurd (omega (arith, h))

  listening-step :
      (e : Event) (id : ℕ) (f : Free)
      → CanHappen e (listening id f)
      → IsSmooth e (listening id f)
      → Sound (step b e (listening id f))
  listening-step press_start id f h q = absurd (let z : recording ≡ idle = h in cc)
  listening-step (granted n now m) id f h q = absurd (omega (arith, h))
  listening-step (denied message) id f h q = absurd (omega (arith, h))
  listening-step press_stop id f h q = stop-Sound id id (record f { cancelled = false })
  listening-step press_cancel id f h q = stop-Sound id id (record f { cancelled = true })
  listening-step (data_available []) id f h q = at_work id f refl
  listening-step (data_available (c ∷ blob)) id f h q =
      at_work id (record f { chunks = f.chunks ++ (c ∷ blob) ∷ [] }) refl
  listening-step (ended n) id f h q = stop-Sound n id f
  listening-step (stopped now) id f h q = absurd (omega (arith, h))
  listening-step (tick now) id f h q =
      at_work id (record f { seconds = (now - f.started_at) / 1000 }) refl
  listening-step sent id f h q = absurd (omega (arith, h))
  listening-step (send_failed e) id f h q = absurd (omega (arith, h))

  -- What `onstop` leaves, after the microphone and the timer were released.
  stopped-Sound :
      (now id : ℕ) (f : Free) (cancelled : Bool) (chunks : List Blob)
      → Sound (on_stop b now (ending id (record f { cancelled = cancelled; chunks = chunks })))
  stopped-Sound now id f true chunks =
      at_rest 0 (record f { recorder = some id; cancelled = true; chunks = chunks; seconds = 0 })
        (omega arith) (rw (eq_refl id) refl)
  stopped-Sound now id f false [] =
      at_rest 0 (record f { recorder = some id; cancelled = false; chunks = []; seconds = 0 })
        (omega arith) (rw (eq_refl id) refl)
  stopped-Sound now id f false (c ∷ cs) =
      at_upload
        (record f {
          recorder = some id;
          cancelled = false;
          chunks = c ∷ cs;
          files = f.files ++ file_of b now (c ∷ cs) ∷ [];
        })
        (rw (eq_refl id) refl)

  ending-step :
      (e : Event) (id : ℕ) (f : Free)
      → CanHappen e (ending id f)
      → IsSmooth e (ending id f)
      → Sound (step b e (ending id f))
  ending-step press_start id f h q = absurd (let z : recording ≡ idle = h in cc)
  ending-step (granted n now m) id f h q = absurd (omega (arith, h))
  ending-step (denied message) id f h q = absurd (omega (arith, h))
  ending-step press_stop id f h q = at_end id (record f { cancelled = false }) refl
  ending-step press_cancel id f h q = at_end id (record f { cancelled = true }) refl
  ending-step (data_available []) id f h q = at_end id f refl
  ending-step (data_available (c ∷ blob)) id f h q =
      at_end id (record f { chunks = f.chunks ++ (c ∷ blob) ∷ [] }) refl
  ending-step (ended n) id f h q = at_end id f refl
  ending-step (stopped now) id f h q = stopped-Sound now id f f.cancelled f.chunks
  ending-step (tick now) id f h q =
      at_end id (record f { seconds = (now - f.started_at) / 1000 }) refl
  ending-step sent id f h q = absurd (omega (arith, h))
  ending-step (send_failed e) id f h q = absurd (omega (arith, h))

  uploading-step :
      (e : Event) (f : Free)
      → CanHappen e (uploading f)
      → IsSmooth e (uploading f)
      → Sound (step b e (uploading f))
  uploading-step press_start f h q = absurd (let z : sending ≡ idle = h in cc)
  uploading-step (granted n now m) f h q = absurd (omega (arith, h))
  uploading-step (denied message) f h q = absurd (omega (arith, h))
  uploading-step press_stop f h q = absurd (let z : sending ≡ recording = h in cc)
  uploading-step press_cancel f h q = absurd (let z : sending ≡ recording = h in cc)
  uploading-step (data_available []) f h q = at_upload f refl
  uploading-step (data_available (c ∷ blob)) f h q =
      at_upload (record f { chunks = f.chunks ++ (c ∷ blob) ∷ [] }) refl
  uploading-step (ended n) f h q = at_upload f refl
  uploading-step (stopped now) f h q = absurd (omega (arith, h))
  uploading-step (tick now) f h q =
      at_upload (record f { seconds = (now - f.started_at) / 1000 }) refl
  uploading-step sent f h q = at_rest 0 (record f { seconds = 0 }) (omega arith) refl
  uploading-step (send_failed e) f h q =
      at_rest 0 (record f { seconds = 0; error = some e }) (omega arith) refl

  step-Sound : (e : Event) (v : Voice) → CanHappen e v → IsSmooth e v → Sound v → Sound (step b e v)
  step-Sound e v can smooth (at_rest n f few eq) =
      subst (λ w. Sound (step b e w)) (sym eq)
        (resting-step e n f few (subst (CanHappen e) eq can) (subst (IsSmooth e) eq smooth))
  step-Sound e v can smooth (at_work id f eq) =
      subst (λ w. Sound (step b e w)) (sym eq)
        (listening-step e id f (subst (CanHappen e) eq can) (subst (IsSmooth e) eq smooth))
  step-Sound e v can smooth (at_end id f eq) =
      subst (λ w. Sound (step b e w)) (sym eq)
        (ending-step e id f (subst (CanHappen e) eq can) (subst (IsSmooth e) eq smooth))
  step-Sound e v can smooth (at_upload f eq) =
      subst (λ w. Sound (step b e w)) (sym eq)
        (uploading-step e f (subst (CanHappen e) eq can) (subst (IsSmooth e) eq smooth))

  run-Sound :
      (es : List Event) (v : Voice)
      → CanRun b es v
      → AreSmooth b es v
      → Sound v
      → Sound (run b es v)
  run-Sound [] v can smooth s = s
  run-Sound (e ∷ es) v (can, cans) (smooth, smooths) s =
      run-Sound es (step b e v) cans smooths (step-Sound e v can smooth s)

-- The microphone and the timers of a state.
pub record IsTidy (v : Voice) : Type 0 where
  pub closed : v.phase ≢ recording → (v.microphones ≡ []) × (v.timers ≡ []) × (v.running ≡ [])
  pub open_once : v.phase ≡ recording → (length v.microphones ≡ 1) × (length v.timers ≡ 1)
  pub unmounted : ((unmount v).microphones ≡ []) × ((unmount v).timers ≡ [])

Sound-IsTidy : (v : Voice) → Sound v → IsTidy v
Sound-IsTidy v (at_rest n f few eq) = subst IsTidy (sym eq) (record {
  closed = λ h. (refl, refl, refl);
  open_once = λ h. absurd (let z : idle ≡ recording = h in cc);
  unmounted = (refl, refl);
})
Sound-IsTidy v (at_work id f eq) = subst IsTidy (sym eq) (record {
  closed = λ h. absurd (h refl);
  open_once = λ h. (refl, refl);
  unmounted = (rw (eq_refl id) refl, rw (eq_refl id) refl);
})
Sound-IsTidy v (at_end id f eq) = subst IsTidy (sym eq) (record {
  closed = λ h. absurd (h refl);
  open_once = λ h. (refl, refl);
  unmounted = (rw (eq_refl id) refl, rw (eq_refl id) refl);
})
Sound-IsTidy v (at_upload f eq) = subst IsTidy (sym eq) (record {
  closed = λ h. (refl, refl, refl);
  open_once = λ h. absurd (let z : sending ≡ recording = h in cc);
  unmounted = (refl, refl);
})

no_use : Free
no_use = record {
  seconds = 0;
  error = none;
  recorder = none;
  chunks = [];
  started_at = 0;
  cancelled = false;
  files = [];
}

pub mounted-Sound : Sound mounted
unfolding no_use
mounted-Sound = at_rest 0 no_use (omega arith) refl

-- After any events that can happen, in any order, in which the start button is not pressed again
-- while the browser asks for the microphone and every recorder starts on the granted one: the
-- microphone is open only while the recorder shows a recording; elsewhere no microphone is open, and
-- no timer and no recorder runs. A recording has one microphone and one timer, and unmounting the
-- component in any such state closes the microphone and clears the timer.
pub run-IsTidy :
    (b : Browser) (es : List Event)
    → CanRun b es mounted
    → AreSmooth b es mounted
    → IsTidy (run b es mounted)
run-IsTidy b es can smooth =
    Sound-IsTidy (run b es mounted) (run-Sound b es mounted can smooth mounted-Sound)
