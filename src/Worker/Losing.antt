-- ===== src/Worker/Losing.antt =====
-- What the worker makes of the queue with the client as redis.ts makes it.
use mathlib.Core.List.{reverse, reverse-cons}
use zapi_pwa.Base.{
  ◌≡◌, refl, ap, sym, subst, ◌∙◌, true, false, List, [], ◌∷◌, ◌++◌, length, is_text, text,
}
use zapi_pwa.Redis.{Redis, IsLawful}
use zapi_pwa.CircuitBreaker.{is_open, circuit_key}
use zapi_pwa.Queue.{TranscriptionJob, Codec, IsClient, dequeue}
use zapi_pwa.Queue.Contents.{Holds, dequeue_oldest, get-dequeue}
use zapi_pwa.Queue.Fifo.{dequeue-Holds}
use zapi_pwa.Worker.{Outside, WorkerResponse, handle_get}
use zapi_pwa.Worker.Draining.{requests}

module _ (r : Redis) (L : IsLawful r) (c : Codec) (P : IsClient r c true) (o : Outside) where
  dequeue-is_open : (s : r.State) → is_open r (dequeue r c s).1 ≡ is_open r s
  unfolding is_open
  dequeue-is_open s = ap (λ v. is_text v (text "open")) (get-dequeue r L c circuit_key s)

  lost_job :
      (j : TranscriptionJob) (s : r.State) (t : o.State) (waiting dead : List TranscriptionJob)
      → is_open r s ≡ false
      → Holds r c s (waiting ++ j ∷ []) dead
      → handle_get r c o (s, t) ≡ (WorkerResponse.no_jobs, ((dequeue r c s).1, t))
  unfolding handle_get
  lost_job j s t waiting dead closed h =
      rw closed (rw (dequeue_oldest r L c true P j s waiting dead h) refl)

  -- With the client as redis.ts makes it, which parses the stored text by itself, as many requests
  -- to the worker as jobs wait lose every one of them, if the circuit breaker is closed: then no job
  -- waits, the dead-letter list is what it was, the breaker is closed still, and nothing outside
  -- Redis was called.
  pub requests_lose :
      (jobs : List TranscriptionJob) (s : r.State) (t : o.State) (dead : List TranscriptionJob)
      → is_open r s ≡ false
      → Holds r c s (reverse jobs) dead
      → let w = requests r c o (length jobs) (s, t) in
        Holds r c w.0 [] dead × (w.1 ≡ t) × (is_open r w.0 ≡ false)
  requests_lose [] s t dead closed h = (h, refl, closed)
  requests_lose (j ∷ js) s t dead closed h =
      let h' : Holds r c s (reverse js ++ j ∷ []) dead = rw (reverse-cons j js) at h in
      let rest =
        requests_lose js (dequeue r c s).1 t dead (dequeue-is_open s ∙ closed)
          (dequeue-Holds r L c j s (reverse js) dead h') in
      subst
        (λ x.
          let w = requests r c o (length js) x.1 in
          Holds r c w.0 [] dead × (w.1 ≡ t) × (is_open r w.0 ≡ false))
        (sym (lost_job j s t (reverse js) dead closed h')) rest
