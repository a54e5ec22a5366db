-- ===== src/Tests/Jobs.antt =====
-- The worker and its queue over the store in memory.
use zapi_pwa.Base.{
  if◌then◌else◌, ℕ, ◌≡◌, refl, true, false, leb, none, some, List, [], ◌∷◌, map, text, Text, arith,
  text_eq,
}
use zapi_pwa.Effect.{returned, thrown}
use zapi_pwa.Redis.{Reply}
use zapi_pwa.Redis.Memory.{
  Store, empty, memory, memory-IsLawful, memory_pops, parsing_memory, parsing_memory-IsLawful,
  parsing_memory_pops,
}
use zapi_pwa.CircuitBreaker.{is_open, record_success}
use zapi_pwa.CircuitBreaker.Opening.{failures, opens_at_fifth_failure}
use zapi_pwa.Queue.{TranscriptionJob, IsClient, queue_key}
use zapi_pwa.Queue.Contents.{Holds}
use zapi_pwa.Queue.Fifo.{Sent}
use zapi_pwa.Worker.{Outside, WorkerResponse, handle_get}
use zapi_pwa.Worker.Accounting.{Accounted, handle_get-Accounted}
use zapi_pwa.Worker.Backoff.{remaining, Progress, handle_get-Progress}
use zapi_pwa.Worker.Draining.{Drained, requests, drains}
use zapi_pwa.Worker.Losing.{requests_lose}
use zapi_pwa.Queue.Refinement.{
  Request, put, take, put_back, measure_dead, Line, promised_all, performed_all, Represents,
  performed_all-Agrees,
}
use zapi_pwa.Tests.Coding.{coding, stringify}

-- Services whose downloads fail, at a time of 2000 milliseconds.
abbrev outside : Outside
outside = record {
  State = Unit {0};
  now = λ t. 2000;
  fetch = λ url t. (thrown (text "fetch failed"), t);
  create_transcription = λ audio t. (returned (text "ola"), t);
  create_completion = λ message t. (returned none, t);
  insert_transcription = λ row t. (returned tt, t);
  update_message_status = λ id status t. (returned tt, t);
}

plain : IsClient memory coding false
plain = record { rpop_last = λ k j xs s e. memory_pops k (stringify j) xs s e }

parsing : IsClient parsing_memory coding true
parsing = record { rpop_last = λ k j xs s e. parsing_memory_pops k (stringify j) xs s e }

abbrev job_of : Text → ℕ → TranscriptionJob
job_of id attempts = record {
  id = id;
  instance_id = text "i";
  message_id = text "m";
  audio_url = text "u";
  attempts = attempts;
  created_at = 1000;
}

abbrev first_job : TranscriptionJob
first_job = job_of (text "a") 2

abbrev second_job : TranscriptionJob
second_job = job_of (text "b") 0

abbrev store : List TranscriptionJob → Store
store jobs = record empty { lists = λ k. if text_eq k queue_key then map stringify jobs else [] }

store-Holds :
    Holds memory coding (store (second_job ∷ first_job ∷ [])) (second_job ∷ first_job ∷ []) []
unfolding text_eq
store-Holds = record { queue = refl; dlq = refl }

store_closed : is_open memory (store (second_job ∷ first_job ∷ [])) ≡ false
unfolding is_open
store_closed = refl

handle_get-Accounted_example :
    let out : WorkerResponse × (Store × Unit {0}) =
      handle_get memory coding outside (store (second_job ∷ first_job ∷ []), tt) in
    Accounted memory coding false first_job (second_job ∷ []) [] out.0 out.1.0
handle_get-Accounted_example =
    handle_get-Accounted memory memory-IsLawful coding false plain outside first_job
      (store (second_job ∷ first_job ∷ [])) tt (second_job ∷ []) [] store_closed store-Holds

handle_get-Progress_example :
    Progress memory coding false
      (remaining (second_job ∷ first_job ∷ []))
      []
      (handle_get memory coding outside (store (second_job ∷ first_job ∷ []), tt)).1.0
handle_get-Progress_example =
    handle_get-Progress memory memory-IsLawful coding false plain outside first_job
      (store (second_job ∷ first_job ∷ [])) tt (second_job ∷ []) [] store_closed store-Holds
      ((omega arith, (omega arith, tt)), tt)

opens_at_fifth_failure_example :
    is_open memory (failures memory memory-IsLawful 5 (record_success memory empty)) ≡ leb 5 5
opens_at_fifth_failure_example = opens_at_fifth_failure memory memory-IsLawful 5 empty

abbrev sent : Text → Sent
sent id = record { uuid = id; now = 7; job = first_job }

empty-Holds : Holds memory coding empty [] []
empty-Holds = record { queue = refl; dlq = refl }

parsing-Holds :
    Holds parsing_memory coding
      (store (second_job ∷ first_job ∷ []))
      (second_job ∷ first_job ∷ [])
      []
unfolding text_eq
parsing-Holds = record { queue = refl; dlq = refl }

object_popped :
    (parsing_memory.rpop queue_key (store (second_job ∷ first_job ∷ []))).0 ≡ some Reply.object
unfolding text_eq
object_popped = refl

drains_example :
    Drained memory coding outside false []
      (remaining (second_job ∷ first_job ∷ []))
      (store (second_job ∷ first_job ∷ []), tt)
drains_example =
    drains memory memory-IsLawful coding false plain outside
      (store (second_job ∷ first_job ∷ []), tt) (second_job ∷ first_job ∷ []) [] store-Holds
      ((omega arith, (omega arith, tt)), tt)

abbrev no_line : Line
no_line = record { waiting = []; dead = [] }

abbrev day_of_work : List Request
day_of_work =
    put (sent (text "x")) ∷ put (sent (text "y")) ∷ take ∷ put_back first_job ∷ measure_dead ∷ []

performed_all-Agrees_example :
    ((performed_all memory coding day_of_work empty).0 ≡ (promised_all false day_of_work no_line).0)
    × Represents memory coding
        (performed_all memory coding day_of_work empty).1
        (promised_all false day_of_work no_line).1
performed_all-Agrees_example =
    performed_all-Agrees memory memory-IsLawful coding false plain day_of_work empty no_line
      empty-Holds

parsing_closed : is_open parsing_memory (store (second_job ∷ first_job ∷ [])) ≡ false
unfolding is_open
parsing_closed = refl

requests_lose_example :
    let w : Store × Unit {0} =
      requests parsing_memory coding outside 2 (store (second_job ∷ first_job ∷ []), tt) in
    Holds parsing_memory coding w.0 [] [] × (w.1 ≡ tt) × (is_open parsing_memory w.0 ≡ false)
requests_lose_example =
    requests_lose parsing_memory parsing_memory-IsLawful coding parsing outside
      (first_job ∷ second_job ∷ []) (store (second_job ∷ first_job ∷ [])) tt [] parsing_closed
      parsing-Holds
