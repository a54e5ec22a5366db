-- ===== src/Worker.antt =====
-- packages/pwa/src/app/api/worker/route.ts: one request takes one job off the queue. What lies
-- outside the repository is a parameter: Redis, the clock, `fetch`, the Groq service and the
-- database, each of which may throw where the code awaits it inside its `try`.
pub mod Keeping
pub mod Accounting
pub mod Backoff
pub mod Draining
pub mod Losing
use zapi_pwa.Base.{
  ℕ, ◌+◌, ◌*◌, ◌^◌, Bool, true, false, ◌&&◌, Option, none, some, List, [], ◌∷◌, ◌++◌, if◌then◌else◌,
  ltb, Text, text,
}
use zapi_pwa.Effect.{Outcome, returned, thrown, Action, after_outcome, ◌>>=◌, ◌>>◌, pure, throw}
use zapi_pwa.OpenAi.{transcribe_audio, summarize_text, summary_message}
use zapi_pwa.Redis.{Redis}
use zapi_pwa.CircuitBreaker.{is_open, record_failure, record_success}
use zapi_pwa.Queue.{TranscriptionJob, Codec, dequeue, retry}

-- The response of `fetch`; `body` is what `arrayBuffer()` gives or throws.
pub record Download : Type 0 where
  pub is_ok : Bool
  pub status : Text
  pub body : Outcome (List ℕ)

-- The row that is inserted into `transcriptions`.
pub record TranscriptionRow : Type 0 where
  pub message_id : Text
  pub instance_id : Text
  pub body : Text
  pub summary : Text

pub record Outside : Type 1 where
  pub State : Type 0
  pub now : State → ℕ
  pub fetch : Text → State → Outcome Download × State
  pub create_transcription : List ℕ → State → Outcome Text × State
  pub create_completion : Text → State → Outcome (Option Text) × State
  pub insert_transcription : TranscriptionRow → State → Outcome (Unit {0}) × State
  pub update_message_status : Text → Text → State → Outcome (Unit {0}) × State

pub data WorkerResponse : Type 0 where
  breaker_open no_jobs backed_off : WorkerResponse
  processed : Text → WorkerResponse
  failed : Text → WorkerResponse

-- The HTTP status of each response.
pub status_of : WorkerResponse → ℕ
status_of WorkerResponse.breaker_open = 503
status_of WorkerResponse.no_jobs = 200
status_of WorkerResponse.backed_off = 200
status_of (WorkerResponse.processed id) = 200
status_of (WorkerResponse.failed msg) = 500

-- `job.attempts > 0 && Date.now() - job.createdAt < Math.pow(2, job.attempts) * 1000`, with the
-- subtraction moved to the other side.
pub is_too_soon : ℕ → TranscriptionJob → Bool
is_too_soon now job = ltb 0 job.attempts && ltb now (2 ^ job.attempts * 1000 + job.created_at)

module _ (r : Redis) (c : Codec) (o : Outside) where
  abbrev pub World : Type 0
  World = r.State × o.State

  abbrev pub on_redis : (r.State → r.State) → Action World (Unit {0})
  on_redis f (s, t) = (returned tt, (f s, t))

  abbrev pub on_outside : {A : Type 0} → (o.State → Outcome A × o.State) → Action World A
  on_outside f (s, t) = let (a, t') = f t in (a, (s, t'))

  abbrev pub of_outcome : {A : Type 0} → Outcome A → Action World A
  of_outcome a w = (a, w)

  -- `if (!audioResponse.ok) …`
  pub check_download : Download → Action World (Unit {0})
  check_download res =
      if res.is_ok
      then pure tt
      else do on_redis (record_failure r); throw (text "Audio download failed: " ++ res.status)

  -- The body of the `try`.
  pub process : TranscriptionJob → Action World Text
  process job = do
    res ← on_outside (o.fetch job.audio_url)
    check_download res
    on_redis (record_success r)
    audio ← of_outcome res.body
    answer ←
        on_outside (λ t. let (a, t') = o.create_transcription audio t in (transcribe_audio a, t'))
    summary ← on_outside (λ t.
        let (a, t') = o.create_completion (summary_message answer) t in (summarize_text a, t'))
    on_outside (
        o.insert_transcription (record {
          message_id = job.message_id;
          instance_id = job.instance_id;
          body = answer;
          summary = summary;
        }))
    on_outside (o.update_message_status job.message_id (text "transcribed"))
    pure job.id

  -- The `catch` of the handler.
  abbrev finish : TranscriptionJob → Outcome Text × World → WorkerResponse × World
  finish job (returned id, w) = (WorkerResponse.processed id, w)
  finish job (thrown msg, (s, t)) = (WorkerResponse.failed msg, (retry r c job s, t))

  abbrev work : Option TranscriptionJob → World → WorkerResponse × World
  work none w = (WorkerResponse.no_jobs, w)
  work (some job) (s, t) =
      if is_too_soon (o.now t) job
      then (WorkerResponse.backed_off, (retry r c job s, t))
      else finish job (process job (s, t))

  -- `GET`
  pub handle_get : World → WorkerResponse × World
  handle_get (s, t) =
      if is_open r s
      then (WorkerResponse.breaker_open, (s, t))
      else let (job, s') = dequeue r c s in work job (s', t)
