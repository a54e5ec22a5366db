-- ===== src/Queue/Refinement.antt =====
-- What the queue promises: two lists of jobs in the order of their arrival, and the operations on
-- them, of which those over Redis are an implementation.
use mathlib.Core.List.{reverse, reverse-cons, reverse-append}
use zapi_pwa.Base.{
  Bool, ℕ, suc, ◌+◌, ◌≡◌, refl, ap, ap₂, ◌∙◌, Bool-cases, inl, inr, Option, none, List, [], ◌∷◌,
  ◌++◌, map, length, length-append, if◌then◌else◌, leb, Text, arith,
}
use zapi_pwa.Redis.{Redis, IsLawful}
use zapi_pwa.Queue.{
  TranscriptionJob, Codec, IsClient, read_back, queue_key, dlq_key, max_attempts, next_attempt,
  enqueue, dequeue, retry, get_length, get_dlq_length,
}
use zapi_pwa.Queue.Contents.{Holds, push-queue, push-dlq, dequeue_oldest}
use zapi_pwa.Queue.Fifo.{Sent, stored, enqueue-Holds, dequeue-Holds}

pub data Request : Type 0 where
  put : Sent → Request
  take : Request
  put_back : TranscriptionJob → Request
  measure : Request
  measure_dead : Request

pub data Answer : Type 0 where
  named : Text → Answer
  taken : Option TranscriptionJob → Answer
  kept : Answer
  measured : ℕ → Answer

-- The jobs that wait and those that were given up, oldest first.
pub record Line : Type 0 where
  pub waiting : List TranscriptionJob
  pub dead : List TranscriptionJob

abbrev take_first : Bool → List TranscriptionJob → List TranscriptionJob → Answer × Line
take_first parses [] dead = (taken none, record { waiting = []; dead = dead })
take_first parses (j ∷ js) dead = (taken (read_back parses j), record { waiting = js; dead = dead })

-- What each operation promises. With a client that parses the jobs, a taken job is lost.
abbrev pub promised : Bool → Request → Line → Answer × Line
promised parses (put x) q = (named x.uuid, record q { waiting = q.waiting ++ stored x ∷ [] })
promised parses take q = take_first parses q.waiting q.dead
promised parses (put_back j) q =
    if leb 3 (j.attempts + 1)
    then (kept, record q { dead = q.dead ++ next_attempt j ∷ [] })
    else (kept, record q { waiting = q.waiting ++ next_attempt j ∷ [] })
promised parses measure q = (measured (length q.waiting), q)
promised parses measure_dead q = (measured (length q.dead), q)

abbrev pub promised_all : Bool → List Request → Line → List Answer × Line
promised_all parses [] q = ([], q)
promised_all parses (x ∷ xs) q =
    let (a, q') = promised parses x q in
    let (rest, q'') = promised_all parses xs q' in (a ∷ rest, q'')

length-reverse : (js : List TranscriptionJob) → length (reverse js) ≡ length js
length-reverse [] = refl
length-reverse (j ∷ js) =
    rw (reverse-cons) (length-append (reverse js) (j ∷ []) ∙ omega (arith, length-reverse js))

length-map :
    (f : TranscriptionJob → Text) (js : List TranscriptionJob) → length (map f js) ≡ length js
length-map f [] = refl
length-map f (j ∷ js) = ap suc (length-map f js)

module _ (r : Redis) (c : Codec) where
  -- The operation over Redis.
  abbrev pub performed : Request → r.State → Answer × r.State
  performed (put x) s = let (id, s') = enqueue r c x.uuid x.now x.job s in (named id, s')
  performed take s = let (j, s') = dequeue r c s in (taken j, s')
  performed (put_back j) s = (kept, retry r c j s)
  performed measure s = (measured (get_length r c s), s)
  performed measure_dead s = (measured (get_dlq_length r c s), s)

  abbrev pub performed_all : List Request → r.State → List Answer × r.State
  performed_all [] s = ([], s)
  performed_all (x ∷ xs) s =
      let (a, s') = performed x s in let (rest, s'') = performed_all xs s' in (a ∷ rest, s'')

  -- Redis holds the two lists, newest first.
  abbrev pub Represents : r.State → Line → Type 0
  Represents s q = Holds r c s (reverse q.waiting) (reverse q.dead)

  -- An answer that is the promised one, and a state that represents the promised lists.
  abbrev pub Agrees : Answer × r.State → Answer × Line → Type 0
  Agrees out promise = (out.0 ≡ promise.0) × Represents out.1 promise.1

module _ (r : Redis) (L : IsLawful r) (c : Codec) (parses : Bool) (P : IsClient r c parses) where
  arrived :
      (s : r.State) (js ks : List TranscriptionJob) (j : TranscriptionJob)
      → Holds r c s (j ∷ reverse js) (reverse ks)
      → Holds r c s (reverse (js ++ j ∷ [])) (reverse ks)
  arrived s js ks j h = rw (reverse-append js (j ∷ [])) h

  given_up :
      (s : r.State) (js ks : List TranscriptionJob) (j : TranscriptionJob)
      → Holds r c s (reverse js) (j ∷ reverse ks)
      → Holds r c s (reverse js) (reverse (ks ++ j ∷ []))
  given_up s js ks j h = rw (reverse-append ks (j ∷ [])) h

  dequeue_nothing : (s : r.State) → r.items s queue_key ≡ [] → dequeue r c s ≡ (none, s)
  unfolding dequeue
  dequeue_nothing s e = rw (L.rpop_empty queue_key s e) refl

  enqueue_named : (x : Sent) (s : r.State) → (enqueue r c x.uuid x.now x.job s).0 ≡ x.uuid
  unfolding enqueue
  enqueue_named x s = refl

  take-Agrees :
      (s : r.State) (js ks : List TranscriptionJob)
      → Holds r c s (reverse js) (reverse ks)
      → Agrees r c (performed r c take s) (take_first parses js ks)
  take-Agrees s [] ks h = rw (dequeue_nothing s h.queue) (refl, h)
  take-Agrees s (j ∷ js) ks h =
      let h' : Holds r c s (reverse js ++ j ∷ []) (reverse ks) = rw (reverse-cons j js) at h in
      (
        ap taken (dequeue_oldest r L c parses P j s (reverse js) (reverse ks) h'),
        dequeue-Holds r L c j s (reverse js) (reverse ks) h',
      )

  put_back-Agrees :
      (j : TranscriptionJob) (s : r.State) (q : Line)
      → Represents r c s q
      → Agrees r c (performed r c (put_back j) s) (promised parses (put_back j) q)
  unfolding retry
  put_back-Agrees j s q h = elim (Bool-cases (leb max_attempts (j.attempts + 1))) [
    | inl full ↦ rw full (
      refl,
      given_up _ q.waiting q.dead (next_attempt j) (push-dlq r L c (next_attempt j) s _ _ h),
    )
    | inr left ↦ rw left (
      refl,
      arrived _ q.waiting q.dead (next_attempt j) (push-queue r L c (next_attempt j) s _ _ h),
    )
  ]

  length-Holds :
      (k : Text) (s : r.State) (js : List TranscriptionJob)
      → r.items s k ≡ map c.stringify (reverse js)
      → r.llen k s ≡ length js
  length-Holds k s js h =
      L.llen_lem k s ∙ ap length h ∙ length-map c.stringify (reverse js) ∙ length-reverse js

  performed-Agrees :
      (x : Request) (s : r.State) (q : Line)
      → Represents r c s q
      → Agrees r c (performed r c x s) (promised parses x q)
  unfolding get_length get_dlq_length
  performed-Agrees (put x) s q h = (
    ap named (enqueue_named x s),
    arrived _ q.waiting q.dead (stored x) (enqueue-Holds r L c x s _ _ h),
  )
  performed-Agrees take s q h = take-Agrees s q.waiting q.dead h
  performed-Agrees (put_back j) s q h = put_back-Agrees j s q h
  performed-Agrees measure s q h = (ap measured (length-Holds queue_key s q.waiting h.queue), h)
  performed-Agrees measure_dead s q h = (ap measured (length-Holds dlq_key s q.dead h.dlq), h)

  -- The queue over Redis implements a line of jobs: from a state that represents a line, every
  -- sequence of enqueues, dequeues, retries and measurements gives the answers that the line
  -- promises, and ends in a state that represents the line that is left. A job joins the line at its
  -- end; one that is put back joins it again with one more attempt, or the dead ones if that is its
  -- third. A dequeue takes the job at the front. With the client as redis.ts makes it, which parses
  -- the stored text by itself, it gives null, and the job is in no list any more; it gives the job
  -- only with a client that returns the text.
  pub performed_all-Agrees :
      (xs : List Request) (s : r.State) (q : Line)
      → Represents r c s q
      → ((performed_all r c xs s).0 ≡ (promised_all parses xs q).0)
        × Represents r c (performed_all r c xs s).1 (promised_all parses xs q).1
  performed_all-Agrees [] s q h = (refl, h)
  performed_all-Agrees (x ∷ xs) s q h =
      let (a, h') = performed-Agrees x s q h in
      let (rest, h'') = performed_all-Agrees xs (performed r c x s).1 (promised parses x q).1 h' in
      (ap₂ ◌∷◌ a rest, h'')
