-- ===== src/Daemon/Forwarder/Bounds.antt =====
-- How many calls one audio event can cause, and how long the daemon waits for it.
use zapi_pwa.Base.{
  ℕ, zero, suc, ◌+◌, ◌*◌, ◌≤◌, ◌<◌, ◌≡◌, ap, Option, none, some, List, [], ◌∷◌, ◌++◌, Text, arith,
  is_empty, true, Bool, Bool-cases, inl, inr, if◌then◌else◌, ltb,
}
use zapi_pwa.Effect.{Outcome, returned, thrown}
use zapi_pwa.Filter.{OnAudioEvent}
use zapi_pwa.Daemon.Forwarder.{
  OnAudioResponse, Attempt, Call, slept, fetched, posted, replied, Services, World, fetch_rounds,
  fetch_audio_bytes, forward_audio_event, on_audio_message, with_bytes, judge_audio, fetch_once,
  record_call, after_forward, reply,
}
use zapi_pwa.Daemon.Forwarder.Trace.{
  calls_of, Ends, succeeded, refused, retried, gave_up, forward-Run,
}

abbrev pub posts : Call → ℕ
posts (posted payload a) = 1
posts _ = 0

abbrev pub fetches : Call → ℕ
fetches (fetched url) = 1
fetches _ = 0

abbrev pub replies : Call → ℕ
replies (replied session chat message id) = 1
replies _ = 0

abbrev pub waited : Call → ℕ
waited (slept ms) = ms
waited _ = 0

abbrev pub total : (Call → ℕ) → List Call → ℕ
total f [] = 0
total f (c ∷ cs) = f c + total f cs

total-append : (f : Call → ℕ) (cs ds : List Call) → total f (cs ++ ds) ≡ total f cs + total f ds
total-append f [] ds = omega arith
total-append f (c ∷ cs) ds = omega (arith, total-append f cs ds)

-- The most that a log can grow by: posts, downloads, milliseconds of waiting and replies.
pub record Grows (p q m n : ℕ) (before after : List Call) : Type 0 where
  pub posts_within : total posts after ≤ total posts before + p
  pub fetches_within : total fetches after ≤ total fetches before + q
  pub waits_within : total waited after ≤ total waited before + m
  pub replies_within : total replies after ≤ total replies before + n

run_Grows :
    (payload : OnAudioEvent) (run : List Attempt) (o : Outcome OnAudioResponse)
    → Ends 3 none run o
    → Grows 3 0 4000 0 [] (calls_of 0 payload run)
run_Grows payload run o (succeeded r) = omega arith
run_Grows payload run o (refused e) = omega arith
run_Grows payload run o (retried e (succeeded r)) = omega arith
run_Grows payload run o (retried e (refused f)) = omega arith
run_Grows payload run o (retried e (retried f (succeeded r))) = omega arith
run_Grows payload run o (retried e (retried f (refused g))) = omega arith
run_Grows payload run o (retried e (retried f (retried g gave_up))) = omega arith

append_Grows :
    {p q m n : ℕ} (log calls : List Call)
    → Grows p q m n [] calls
    → Grows p q m n log (log ++ calls)
append_Grows log calls h = record {
  posts_within = omega (arith, total-append posts log calls, h.posts_within);
  fetches_within = omega (arith, total-append fetches log calls, h.fetches_within);
  waits_within = omega (arith, total-append waited log calls, h.waits_within);
  replies_within = omega (arith, total-append replies log calls, h.replies_within);
}

trans_Grows :
    {p q m n p' q' m' n' : ℕ} {a b c : List Call}
    → Grows p q m n a b
    → Grows p' q' m' n' b c
    → Grows (p + p') (q + q') (m + m') (n + n') a c
trans_Grows h k = omega arith

one_sleep : (log : List Call) → Grows 0 0 1000 0 log (log ++ slept 1000 ∷ [])
one_sleep log = append_Grows log (slept 1000 ∷ []) (omega arith)

one_fetch : (log : List Call) (url : Text) → Grows 0 1 0 0 log (log ++ fetched url ∷ [])
one_fetch log url = append_Grows log (fetched url ∷ []) (omega arith)

module _ (v : Services) where
  abbrev settle : ℕ → ℕ → Text → Option (Option Text) → World v → Option Text × World v
  settle left attempt url res w = elim res [
    | some bytes ↦ (bytes, w)
    | none ↦ fetch_rounds v left (attempt + 1) url w
  ]

  settle-Grows :
      (left m : ℕ) (attempt : ℕ) (url : Text) (log : List Call) (s : v.State)
      (res : Option (Option Text))
      → ((w : World v) → Grows 0 left m 0 w.0 (fetch_rounds v left (attempt + 1) url w).1.0)
      → Grows 0 (suc left) m 0 log (settle left attempt url res (log ++ fetched url ∷ [], s)).1.0
  settle-Grows left m attempt url log s (some bytes) rest = omega (arith, one_fetch log url)
  settle-Grows left m attempt url log s none rest =
      omega (arith, trans_Grows (one_fetch log url) (rest (log ++ fetched url ∷ [], s)))

  abbrev later_round : ℕ → ℕ → Text → List Call → v.State → Option Text × World v
  later_round left attempt url log s =
      settle left attempt url (judge_audio (v.fetch url s).0)
        ((log ++ slept 1000 ∷ []) ++ fetched url ∷ [], (v.fetch url s).1)

  later_round_lem :
      (left attempt : ℕ) (url : Text) (log : List Call) (s : v.State)
      → 0 < attempt
      → fetch_rounds v (suc left) attempt url (log, s) ≡ later_round left attempt url log s
  unfolding fetch_rounds
  later_round_lem left attempt url log s h =
      let later : ltb 0 attempt ≡ true = ground arith in
      ap
        (λ (b : Bool).
          let w = if b then record_call v (slept 1000) (log, s) else (log, s) in
          settle left attempt url (fetch_once v url w).0 (fetch_once v url w).1)
        later

  later_Grows :
      (left attempt : ℕ) (url : Text) (log : List Call) (s : v.State)
      → ((w : World v)
          → Grows 0 left (left * 1000) 0 w.0 (fetch_rounds v left (attempt + 1) url w).1.0)
      → Grows 0 (suc left) (suc left * 1000) 0 log (later_round left attempt url log s).1.0
  later_Grows left attempt url log s rest =
      let next =
        settle-Grows left (left * 1000) attempt url (log ++ slept 1000 ∷ []) (v.fetch url s).1
          (judge_audio (v.fetch url s).0) rest in
      omega (arith, trans_Grows (one_sleep log) next)

  -- Every round after the first waits a second and downloads once.
  rounds_Grows :
      (left attempt : ℕ) (url : Text) (w : World v)
      → 0 < attempt
      → Grows 0 left (left * 1000) 0 w.0 (fetch_rounds v left attempt url w).1.0
  rounds_Grows zero attempt url w h = unfold fetch_rounds in omega arith
  rounds_Grows (suc left) attempt url (log, s) h = rw (later_round_lem left attempt url log s h) (
      later_Grows left attempt url log s (λ w. rounds_Grows left (attempt + 1) url w (omega arith)))

  fetch_Grows : (url : Text) (w : World v) → Grows 0 4 3000 0 w.0 (fetch_audio_bytes v url w).1.0
  unfolding fetch_audio_bytes fetch_rounds
  fetch_Grows url (log, s) =
      settle-Grows 3 3000 0 url log (v.fetch url s).1 (judge_audio (v.fetch url s).0)
        (λ w. rounds_Grows 3 1 url w (omega arith))

  forward_Grows :
      (secret : Text) (event : OnAudioEvent) (w : World v)
      → Grows 3 4 7000 0 w.0 (forward_audio_event v secret event w).1.0
  unfolding forward_audio_event
  forward_Grows secret event w = elim (Bool-cases (is_empty secret)) [
    | inl missing ↦ rw missing (omega arith)
    | inr given ↦
        let (bytes, w') = fetch_audio_bytes v event.audio_url w in
        let run = forward-Run v secret event w given in
        let sent =
          append_Grows w'.0 (calls_of 0 (with_bytes bytes event) run.attempts)
            (run_Grows (with_bytes bytes event) run.attempts _ run.ends) in
        rw run.logged (omega (arith, trans_Grows (fetch_Grows event.audio_url w) sent))
  ]

  reply-Grows :
      (event : OnAudioEvent) (t : Option Text) (w : World v)
      → Grows 0 0 0 1 w.0 (reply v event t w).0
  reply-Grows event none w = omega arith
  reply-Grows event (some []) w = omega arith
  reply-Grows event (some (c ∷ t)) (log, s) =
      append_Grows log
        (replied event.waclaw_session_id event.chat_jid (c ∷ t) event.message_id ∷ []) (omega arith)

  after_Grows :
      (event : OnAudioEvent) (o : Outcome OnAudioResponse) (w : World v)
      → Grows 0 0 0 1 w.0 (after_forward v event o w).0
  after_Grows event (thrown e) w = omega arith
  after_Grows event (returned r) w = reply-Grows event r.reply_text w

  -- Whatever the services answer, one audio message causes at most three posts to the web
  -- application, four downloads and one reply, and at most seven seconds of waiting.
  pub on_audio_message_bounds :
      (secret : Text) (event : OnAudioEvent) (w : World v)
      → Grows 3 4 7000 1 w.0 (on_audio_message v secret event w).0
  unfolding on_audio_message
  on_audio_message_bounds secret event w = trans_Grows (forward_Grows secret event w) (
      after_Grows event (forward_audio_event v secret event w).0
        (forward_audio_event v secret event w).1)
