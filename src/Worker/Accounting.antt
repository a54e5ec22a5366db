-- ===== src/Worker/Accounting.antt =====
-- What one request of the worker does to the jobs.
use zapi_pwa.Base.{
  ◌+◌, ◌≤◌, ◌<◌, ◌≡◌, refl, Bool, true, false, some, List, [], ◌∷◌, ◌++◌, leb, Text, arith,
  Bool-cases, inl, inr, ap,
}
use zapi_pwa.Effect.{Outcome, returned, thrown}
use zapi_pwa.Redis.{Redis, IsLawful}
use zapi_pwa.CircuitBreaker.{is_open}
use zapi_pwa.Queue.{
  TranscriptionJob, Codec, IsClient, read_back, dequeue, retry, next_attempt, max_attempts,
}
use zapi_pwa.Queue.Contents.{Holds, push-queue, push-dlq, dequeue_oldest}
use zapi_pwa.Queue.Fifo.{dequeue-Holds}
use zapi_pwa.Worker.{
  Outside, check_download, WorkerResponse, World, handle_get, process, is_too_soon, finish, work,
}
use zapi_pwa.Worker.Keeping.{process-Holds}

module _ (r : Redis) (c : Codec) where
  -- The fate of a job. With a client that parses the jobs it is lost; else it was processed, or it
  -- waits again with one more attempt, or it is dead.
  pub data Accounted (parses : Bool) (job : TranscriptionJob) (waiting dead : List TranscriptionJob)
      (response : WorkerResponse) (s : r.State) : Type 0 where
    lost :
        parses ≡ true
        → response ≡ WorkerResponse.no_jobs
        → Holds r c s waiting dead
        → Accounted parses job waiting dead response s
    finished :
        parses ≡ false
        → response ≡ WorkerResponse.processed job.id
        → Holds r c s waiting dead
        → Accounted parses job waiting dead response s
    again :
        parses ≡ false
        → job.attempts + 1 < 3
        → Holds r c s (next_attempt job ∷ waiting) dead
        → Accounted parses job waiting dead response s
    buried :
        parses ≡ false
        → 3 ≤ job.attempts + 1
        → Holds r c s waiting (next_attempt job ∷ dead)
        → Accounted parses job waiting dead response s

module _ (r : Redis) (L : IsLawful r) (c : Codec) where
  retry-Accounted :
      (job : TranscriptionJob) (s : r.State) (waiting dead : List TranscriptionJob)
      (response : WorkerResponse)
      → Holds r c s waiting dead
      → Accounted r c false job waiting dead response (retry r c job s)
  unfolding retry
  retry-Accounted job s waiting dead response h =
      elim (Bool-cases (leb max_attempts (job.attempts + 1))) [
        | inl full ↦
            rw full
              (buried refl (ground arith) (push-dlq r L c (next_attempt job) s waiting dead h))
        | inr left ↦
            rw left
              (again refl (ground arith) (push-queue r L c (next_attempt job) s waiting dead h))
      ]

module _ (r : Redis) (L : IsLawful r) (c : Codec) (parses : Bool) (P : IsClient r c parses)
    (o : Outside) where
  process-id :
      (job : TranscriptionJob) (w : World r c o) (id : Text)
      → (process r c o job w).0 ≡ returned id
      → id ≡ job.id
  unfolding process check_download
  process-id job w id h = ground arith

  finish-Accounted :
      (job : TranscriptionJob) (waiting dead : List TranscriptionJob)
      (out : Outcome Text × World r c o)
      → ((id : Text) → out.0 ≡ returned id → id ≡ job.id)
      → Holds r c out.1.0 waiting dead
      → let (response, w) = finish r c o job out in
        Accounted r c false job waiting dead response w.0
  finish-Accounted job waiting dead (thrown e, (s, t)) own h =
      retry-Accounted r L c job s waiting dead _ h
  finish-Accounted job waiting dead (returned id, (s, t)) own h =
      finished refl (ap WorkerResponse.processed (own id refl)) h

  work-Accounted :
      (job : TranscriptionJob) (s : r.State) (t : o.State) (waiting dead : List TranscriptionJob)
      → Holds r c s waiting dead
      → let (response, w) = work r c o (some job) (s, t) in
        Accounted r c false job waiting dead response w.0
  work-Accounted job s t waiting dead h = elim (Bool-cases (is_too_soon (o.now t) job)) [
    | inl soon ↦ rw soon (retry-Accounted r L c job s waiting dead _ h)
    | inr due ↦ rw due (
        finish-Accounted job waiting dead (process r c o job (s, t)) (process-id job (s, t))
          (process-Holds r L c o job s t waiting dead h))
  ]

  read-Accounted :
      (reads : Bool) (job : TranscriptionJob) (s : r.State) (t : o.State)
      (waiting dead : List TranscriptionJob)
      → Holds r c s waiting dead
      → let (response, w) = work r c o (read_back reads job) (s, t) in
        Accounted r c reads job waiting dead response w.0
  read-Accounted true job s t waiting dead h = lost refl refl h
  read-Accounted false job s t waiting dead h = work-Accounted job s t waiting dead h

  -- While the breaker is closed, a request takes the oldest job, and every other job stays where it
  -- is. With the client as redis.ts makes it, which parses the stored text by itself, the answer is
  -- "No jobs" and the job is lost. With a client that returns the text, the answer is "Processed"
  -- with the job's id and the job is gone, or the job is back at the end of the queue with one more
  -- attempt, of fewer than three, or, at three attempts, it is in the dead-letter list.
  pub handle_get-Accounted :
      (job : TranscriptionJob) (s : r.State) (t : o.State) (waiting dead : List TranscriptionJob)
      → is_open r s ≡ false
      → Holds r c s (waiting ++ job ∷ []) dead
      → let (response, w) = handle_get r c o (s, t) in
        Accounted r c parses job waiting dead response w.0
  unfolding handle_get
  handle_get-Accounted job s t waiting dead closed h = rw closed (
      rw (dequeue_oldest r L c parses P job s waiting dead h) (
        read-Accounted parses job (dequeue r c s).1 t waiting dead
          (dequeue-Holds r L c job s waiting dead h)))
