-- ===== src/Daemon/Forwarder/Trace.antt =====
-- The attempts of `forwardAudioEvent` as a trace: which answers end it, and what it waits.
use zapi_pwa.Base.{
  ℕ, zero, suc, ◌+◌, ◌≡◌, refl, sym, ap, subst, ◌∙◌, Option, none, some, List, [], ◌∷◌, ◌++◌,
  append_assoc, append-nil, get_elem?, Text, is_empty, false,
}
use zapi_pwa.Effect.{Outcome, returned, thrown}
use zapi_pwa.Filter.{OnAudioEvent}
use zapi_pwa.Daemon.Forwarder.{
  OnAudioResponse, Attempt, done, permanent, transient, Call, slept, posted, Services, World,
  back_off, post_once, judge, last_error, forward_rounds, daemon_forward_backoff_ms,
  forward_audio_event, fetch_audio_bytes, with_bytes,
}

-- What is waited before the attempt with this number.
abbrev pub wait_before : ℕ → List Call
wait_before zero = []
wait_before (suc k) = elim (get_elem? daemon_forward_backoff_ms k) [
  | none ↦ []
  | some ms ↦ slept ms ∷ []
]

-- The calls of a run of attempts, from the attempt with this number on.
abbrev pub calls_of : ℕ → OnAudioEvent → List Attempt → List Call
calls_of i payload [] = []
calls_of i payload (a ∷ run) = wait_before i ++ posted payload a ∷ calls_of (i + 1) payload run

-- A run with at most so many attempts: transient failures, then a success, a permanent failure,
-- or, when no attempt is left, the last failure.
pub data Ends : ℕ → Option Text → List Attempt → Outcome OnAudioResponse → Type 0 where
  gave_up : {last : Option Text} → Ends zero last [] (thrown (last_error last))
  succeeded :
      {k : ℕ} {last : Option Text} (r : OnAudioResponse)
      → Ends (suc k) last (done r ∷ []) (returned r)
  refused :
      {k : ℕ} {last : Option Text} (e : Text) → Ends (suc k) last (permanent e ∷ []) (thrown e)
  retried :
      {k : ℕ} {last : Option Text} {run : List Attempt} {o : Outcome OnAudioResponse} (e : Text)
      → Ends k (some e) run o
      → Ends (suc k) last (transient e ∷ run) o

module _ (v : Services) where
  back_off_log :
      (i : ℕ) (log : List Call) (s : v.State) → back_off v i (log, s) ≡ (log ++ wait_before i, s)
  back_off_log zero log s = ap (λ l. (l, s)) (sym (append-nil log))
  back_off_log (suc zero) log s = refl
  back_off_log (suc (suc zero)) log s = refl
  back_off_log (suc (suc (suc zero))) log s = refl
  back_off_log (suc (suc (suc (suc k)))) log s = ap (λ l. (l, s)) (sym (append-nil log))

  -- A run of the loop, as its attempts.
  pub record Run (left i : ℕ) (last : Option Text) (payload : OnAudioEvent) (log : List Call)
      (out : Outcome OnAudioResponse × World v) : Type 0 where
    pub attempts : List Attempt
    pub ends : Ends left last attempts out.0
    pub logged : out.1.0 ≡ log ++ calls_of i payload attempts

  -- The log after one more attempt, and the calls of the attempts that follow it.
  extend :
      (log w : List Call) (c : Call) (rest : List Call)
      → ((log ++ w) ++ c ∷ []) ++ rest ≡ log ++ (w ++ c ∷ rest)
  extend log w c rest = append_assoc (log ++ w) (c ∷ []) rest ∙ append_assoc log w (c ∷ rest)

  abbrev settle : ℕ → ℕ → OnAudioEvent → Attempt → World v → Outcome OnAudioResponse × World v
  settle left i payload a w = elim a [
    | done r ↦ (returned r, w)
    | permanent e ↦ (thrown e, w)
    | transient e ↦ forward_rounds v left (i + 1) (some e) payload w
  ]

  settle-Run :
      (left i : ℕ) (last : Option Text) (payload : OnAudioEvent) (log : List Call) (s' : v.State)
      (a : Attempt)
      → ((e : Text) (log' : List Call)
          → Run left
              (i + 1)
              (some e)
              payload
              log'
              (forward_rounds v left (i + 1) (some e) payload (log', s')))
      → Run
          (suc left)
          i
          last
          payload
          log
          (settle left i payload a ((log ++ wait_before i) ++ posted payload a ∷ [], s'))
  settle-Run left i last payload log s' (done r) rest = record {
    attempts = done r ∷ [];
    ends = succeeded r;
    logged = append_assoc log (wait_before i) _;
  }
  settle-Run left i last payload log s' (permanent e) rest = record {
    attempts = permanent e ∷ [];
    ends = refused e;
    logged = append_assoc log (wait_before i) _;
  }
  settle-Run left i last payload log s' (transient e) rest =
      let more = rest e ((log ++ wait_before i) ++ posted payload (transient e) ∷ []) in
      record {
        attempts = transient e ∷ more.attempts;
        ends = retried e more.ends;
        logged = more.logged ∙ extend log (wait_before i) (posted payload (transient e)) _;
      }

  rounds-Run :
      (left i : ℕ) (last : Option Text) (payload : OnAudioEvent) (log : List Call) (s : v.State)
      → Run left i last payload log (forward_rounds v left i last payload (log, s))
  unfolding forward_rounds
  rounds-Run zero i last payload log s = record {
    attempts = [];
    ends = gave_up;
    logged = sym (append-nil log);
  }
  rounds-Run (suc left) i last payload log s =
      subst
        (λ w.
          Run (suc left) i last payload log
            (settle left i payload (post_once v payload w).0 (post_once v payload w).1))
        (sym (back_off_log i log s))
        (settle-Run left i last payload log (v.post payload s).1 (judge (v.post payload s).0)
          (λ e log'. rounds-Run left (i + 1) (some e) payload log' (v.post payload s).1))

  -- Unless the secret is missing, what is logged after the audio was fetched is a run of at most
  -- three attempts to post the event: each is made after the wait of the table for its number,
  -- all but the last end in a transient failure, and the outcome is the response of the last, or
  -- its error thrown.
  pub forward-Run :
      (secret : Text) (event : OnAudioEvent) (w : World v)
      → is_empty secret ≡ false
      → let (bytes, w') = fetch_audio_bytes v event.audio_url w in
        Run 3 0 none (with_bytes bytes event) w'.0 (forward_audio_event v secret event w)
  unfolding forward_audio_event
  forward-Run secret event w given =
      let (bytes, w') = fetch_audio_bytes v event.audio_url w in
      rw given (rounds-Run 3 0 none (with_bytes bytes event) w'.0 w'.1)
