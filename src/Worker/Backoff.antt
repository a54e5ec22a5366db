-- ===== src/Worker/Backoff.antt =====
-- How many requests a job can take, and what the backoff costs it.
use zapi_pwa.Base.{
  ℕ, ◌+◌, ◌-◌, ◌<◌, ◌≡◌, refl, sym, ◌∙◌, Bool, true, false, List, [], ◌∷◌, ◌++◌, leb, arith, All,
}
use zapi_pwa.Redis.{Redis, IsLawful}
use zapi_pwa.CircuitBreaker.{is_open}
use zapi_pwa.Queue.{TranscriptionJob, Codec, IsClient, next_attempt, retry, max_attempts}
use zapi_pwa.Queue.Contents.{Holds, dequeue_oldest, push-dlq}
use zapi_pwa.Queue.Fifo.{dequeue-Holds}
use zapi_pwa.Worker.{Outside, WorkerResponse, handle_get, is_too_soon}
use zapi_pwa.Worker.Accounting.{Accounted, lost, finished, again, buried, handle_get-Accounted}

-- The attempts that the waiting jobs have left.
abbrev pub remaining : List TranscriptionJob → ℕ
remaining [] = 0
remaining (j ∷ js) = (3 - j.attempts) + remaining js

remaining-append :
    (js ks : List TranscriptionJob) → remaining (js ++ ks) ≡ remaining js + remaining ks
remaining-append [] ks = omega arith
remaining-append (j ∷ js) ks = omega (arith, remaining-append js ks)

-- A waiting job has been tried less than three times, a dead one three times.
abbrev pub IsBounded : List TranscriptionJob → List TranscriptionJob → Type 0
IsBounded waiting dead = All (λ j. j.attempts < 3) waiting × All (λ j. j.attempts ≡ 3) dead

All-last :
    (js : List TranscriptionJob) (j : TranscriptionJob)
    → All (λ k. k.attempts < 3) (js ++ j ∷ [])
    → All (λ k. k.attempts < 3) js × (j.attempts < 3)
All-last [] j h = (tt, h.0)
All-last (k ∷ js) j (p, h) = let (q, l) = All-last js j h in ((p, q), l)

module _ (r : Redis) (c : Codec) where
  -- The lists after a request, with fewer attempts left than before.
  pub record Progress (parses : Bool) (before : ℕ) (gone : List TranscriptionJob) (s : r.State)
      : Type 0 where
    pub waiting : List TranscriptionJob
    pub dead : List TranscriptionJob
    pub held : Holds r c s waiting dead
    pub bounded : IsBounded waiting dead
    pub fewer : remaining waiting < before
    pub untried : parses ≡ true → dead ≡ gone

  progress :
      (parses : Bool) (job : TranscriptionJob) (waiting dead : List TranscriptionJob)
      (response : WorkerResponse) (s : r.State)
      → IsBounded (waiting ++ job ∷ []) dead
      → Accounted r c parses job waiting dead response s
      → Progress parses (remaining (waiting ++ job ∷ [])) dead s
  progress parses job waiting dead response s (b, d) (lost p e h) =
      let (bs, bj) = All-last waiting job b in
      record {
        waiting = waiting;
        dead = dead;
        held = h;
        bounded = (bs, d);
        fewer = omega (arith, remaining-append waiting (job ∷ []));
        untried = λ q. refl;
      }
  progress parses job waiting dead response s (b, d) (finished p e h) =
      let (bs, bj) = All-last waiting job b in
      record {
        waiting = waiting;
        dead = dead;
        held = h;
        bounded = (bs, d);
        fewer = omega (arith, remaining-append waiting (job ∷ []));
        untried = λ q. absurd (let z : true ≡ false = sym q ∙ p in cc);
      }
  progress parses job waiting dead response s (b, d) (again p e h) =
      let (bs, bj) = All-last waiting job b in
      record {
        waiting = next_attempt job ∷ waiting;
        dead = dead;
        held = h;
        bounded = ((e, bs), d);
        fewer = omega (arith, remaining-append waiting (job ∷ []));
        untried = λ q. absurd (let z : true ≡ false = sym q ∙ p in cc);
      }
  progress parses job waiting dead response s (b, d) (buried p e h) =
      let (bs, bj) = All-last waiting job b in
      record {
        waiting = waiting;
        dead = next_attempt job ∷ dead;
        held = h;
        bounded = (bs, (omega arith, d));
        fewer = omega (arith, remaining-append waiting (job ∷ []));
        untried = λ q. absurd (let z : true ≡ false = sym q ∙ p in cc);
      }

module _ (r : Redis) (L : IsLawful r) (c : Codec) (parses : Bool) (P : IsClient r c parses)
    (o : Outside) where
  -- While the breaker is closed and a job waits, each request leaves fewer attempts than there
  -- were, whatever the services do; waiting jobs stay below three attempts, and the dead ones
  -- have exactly three. So no job is tried for ever. With the client as redis.ts makes it, which
  -- parses the stored text by itself, the dead ones are those that there were.
  pub handle_get-Progress :
      (job : TranscriptionJob) (s : r.State) (t : o.State) (waiting dead : List TranscriptionJob)
      → is_open r s ≡ false
      → Holds r c s (waiting ++ job ∷ []) dead
      → IsBounded (waiting ++ job ∷ []) dead
      → Progress r c parses (remaining (waiting ++ job ∷ [])) dead (handle_get r c o (s, t)).1.0
  handle_get-Progress job s t waiting dead closed h b =
      progress r c parses job waiting dead _ _ b
        (handle_get-Accounted r L c parses P o job s t waiting dead closed h)

module _ (r : Redis) (L : IsLawful r) (c : Codec) (P : IsClient r c false) (o : Outside) where
  retry_third :
      (job : TranscriptionJob) (s : r.State) (waiting dead : List TranscriptionJob)
      → job.attempts ≡ 2
      → Holds r c s waiting dead
      → Holds r c (retry r c job s) waiting (next_attempt job ∷ dead)
  unfolding retry
  retry_third job s waiting dead two h =
      let full : leb max_attempts (job.attempts + 1) ≡ true = ground arith in
      rw full (push-dlq r L c (next_attempt job) s waiting dead h)

  too_soon :
      (job : TranscriptionJob) (now : ℕ)
      → job.attempts ≡ 2
      → now < 4000 + job.created_at
      → is_too_soon now job ≡ true
  unfolding is_too_soon
  too_soon job now two early = rw two (ground arith)

  -- With a client that returns the stored text, a job that has failed twice and is taken before its backoff has passed is moved to the
  -- dead-letter list with no third try: nothing outside Redis is called, and the answer is that
  -- of a job that is queued again.
  pub backed_off_to_dlq :
      (job : TranscriptionJob) (s : r.State) (t : o.State) (waiting dead : List TranscriptionJob)
      → is_open r s ≡ false
      → Holds r c s (waiting ++ job ∷ []) dead
      → job.attempts ≡ 2
      → o.now t < 4000 + job.created_at
      → let (response, w) = handle_get r c o (s, t) in
        (response ≡ WorkerResponse.backed_off)
        × Holds r c w.0 waiting (next_attempt job ∷ dead)
        × (w.1 ≡ t)
  unfolding handle_get
  backed_off_to_dlq job s t waiting dead closed h two early = rw closed (
      rw (dequeue_oldest r L c false P job s waiting dead h) (
        rw (too_soon job (o.now t) two early) (
          refl,
          retry_third job _ waiting dead two (dequeue-Holds r L c job s waiting dead h),
          refl,
        )))
