-- ===== src/Queue.antt =====
-- packages/pwa/src/lib/queue.ts, over any Redis. `JSON.stringify` and `JSON.parse` on jobs are a
-- parameter; `crypto.randomUUID()` and `Date.now()` are arguments.
pub mod Fifo
pub mod Contents
pub mod Refinement
use zapi_pwa.Base.{
  Bool, true, false, [], ◌∷◌, ◌++◌, ℕ, ◌+◌, ◌≡◌, Option, none, some, List, if◌then◌else◌, leb, Text,
  text,
}
use zapi_pwa.Redis.{Redis, Reply, string, object}

pub record TranscriptionJob : Type 0 where
  pub id : Text
  pub instance_id : Text
  pub message_id : Text
  pub audio_url : Text
  pub attempts : ℕ
  pub created_at : ℕ

-- A job is read back as it was written, and the text that JavaScript makes of an object is not
-- JSON.
pub record Codec : Type 0 where
  pub stringify : TranscriptionJob → Text
  pub parse : Text → Option TranscriptionJob
  pub parse-stringify : (j : TranscriptionJob) → parse (stringify j) ≡ some j
  pub parse_object : parse (text "[object Object]") ≡ none

-- What the client gives for a stored job: the object that it parses from the text, which is what the
-- client of redis.ts does, made without options, or the text, with `automaticDeserialization` off.
abbrev pub reply_of : Bool → Text → Reply
reply_of true t = object
reply_of false t = string t

pub record IsClient (r : Redis) (c : Codec) (parses : Bool) : Type 0 where
  pub rpop_last :
      (k : Text) (j : TranscriptionJob) (xs : List Text) (s : r.State)
      → r.items s k ≡ xs ++ c.stringify j ∷ []
      → (r.rpop k s).0 ≡ some (reply_of parses (c.stringify j))

-- What `JSON.parse` makes of it: an object is no text of a job.
abbrev pub read_back : Bool → TranscriptionJob → Option TranscriptionJob
read_back true j = none
read_back false j = some j

abbrev pub queue_key : Text
queue_key = text "transcription:queue"

abbrev pub dlq_key : Text
dlq_key = text "transcription:dlq"

abbrev pub max_attempts : ℕ
max_attempts = 3

-- The argument of `JSON.parse(raw as string)`, as JavaScript coerces it.
abbrev coerce : Reply → Text
coerce (string s) = s
coerce object = text "[object Object]"

abbrev pub next_attempt : TranscriptionJob → TranscriptionJob
next_attempt j = record j { attempts = j.attempts + 1 }

module _ (r : Redis) (c : Codec) where
  open r use {State, lpush, rpop, llen}
  open c use {stringify, parse}

  -- `enqueue`; the job's own `id`, `attempts` and `createdAt` are not read.
  pub enqueue : Text → ℕ → TranscriptionJob → State → Text × State
  enqueue uuid now job s =
      let full = record job { id = uuid; attempts = 0; created_at = now } in
      (uuid, lpush queue_key (stringify full) s)

  abbrev parse_reply : Option Reply → Option TranscriptionJob
  parse_reply none = none
  parse_reply (some raw) = parse (coerce raw)

  -- `dequeue`; the empty string is no JSON either, so `!raw` needs no case of its own.
  pub dequeue : State → Option TranscriptionJob × State
  dequeue s = let (raw, s') = rpop queue_key s in (parse_reply raw, s')

  pub parse_reply-reply_of :
      (parses : Bool) (j : TranscriptionJob)
      → parse_reply (some (reply_of parses (stringify j))) ≡ read_back parses j
  parse_reply-reply_of true j = c.parse_object
  parse_reply-reply_of false j = c.parse-stringify j

  -- `retry`
  unfoldable pub retry : TranscriptionJob → State → State
  retry job s =
      let job' = next_attempt job in
      if leb max_attempts job'.attempts
      then lpush dlq_key (stringify job') s
      else lpush queue_key (stringify job') s

  -- `getLength` and `getDLQLength`
  pub get_length : State → ℕ
  get_length s = llen queue_key s

  pub get_dlq_length : State → ℕ
  get_dlq_length s = llen dlq_key s
