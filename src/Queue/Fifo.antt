-- ===== src/Queue/Fifo.antt =====
-- Jobs leave the queue in the order in which they were enqueued, and what a client that parses
-- stored JSON by itself does to them.
use mathlib.Core.List.{reverse, reverse-cons}
use zapi_pwa.Base.{
  append_assoc, append-nil, ℕ, zero, suc, ◌≡◌, refl, false, Option, none, some, List, [], ◌∷◌, ◌++◌,
  map, Text, length, ap₂,
}
use zapi_pwa.Redis.{Redis, IsLawful, object}
use zapi_pwa.Queue.{TranscriptionJob, Codec, IsClient, queue_key, enqueue, dequeue}
use zapi_pwa.Queue.Contents.{Holds, push-queue, pop-queue, dequeue_oldest}

-- The arguments of one call of `enqueue`, and the job that it stores.
pub record Sent : Type 0 where
  pub uuid : Text
  pub now : ℕ
  pub job : TranscriptionJob

abbrev pub stored : Sent → TranscriptionJob
stored x = let j = x.job in record j { id = x.uuid; attempts = 0; created_at = x.now }

module _ (r : Redis) (c : Codec) where
  abbrev pub enqueue_all : List Sent → r.State → r.State
  enqueue_all [] s = s
  enqueue_all (x ∷ xs) s = enqueue_all xs (enqueue r c x.uuid x.now x.job s).1

  abbrev pub dequeue_times : ℕ → r.State → List (Option TranscriptionJob) × r.State
  dequeue_times zero s = ([], s)
  dequeue_times (suc n) s =
      let (job, s') = dequeue r c s in let (jobs, t) = dequeue_times n s' in (job ∷ jobs, t)

module _ (r : Redis) (L : IsLawful r) (c : Codec) where
  pub enqueue-Holds :
      (x : Sent) (s : r.State) (waiting dead : List TranscriptionJob)
      → Holds r c s waiting dead
      → Holds r c (enqueue r c x.uuid x.now x.job s).1 (stored x ∷ waiting) dead
  unfolding enqueue
  enqueue-Holds x s waiting dead h = push-queue r L c (stored x) s waiting dead h

  pub dequeue-Holds :
      (j : TranscriptionJob) (s : r.State) (waiting dead : List TranscriptionJob)
      → Holds r c s (waiting ++ j ∷ []) dead
      → Holds r c (dequeue r c s).1 waiting dead
  unfolding dequeue
  dequeue-Holds j s waiting dead h = pop-queue r L c j s waiting dead h

  enqueue_all-Holds :
      (xs : List Sent) (s : r.State) (waiting dead : List TranscriptionJob)
      → Holds r c s waiting dead
      → Holds r c (enqueue_all r c xs s) (reverse (map stored xs) ++ waiting) dead
  enqueue_all-Holds [] s waiting dead h = h
  enqueue_all-Holds (x ∷ xs) s waiting dead h =
      rw (reverse-cons, append_assoc)
        (enqueue_all-Holds xs _ (stored x ∷ waiting) dead (enqueue-Holds x s waiting dead h))

  dequeue_times-Holds :
      (P : IsClient r c false) (js : List TranscriptionJob) (s : r.State)
      (dead : List TranscriptionJob)
      → Holds r c s (reverse js) dead
      → ((dequeue_times r c (length js) s).0 ≡ map some js)
        × Holds r c (dequeue_times r c (length js) s).1 [] dead
  dequeue_times-Holds P [] s dead h = (refl, h)
  dequeue_times-Holds P (j ∷ js) s dead h =
      let h' : Holds r c s (reverse js ++ j ∷ []) dead = rw reverse-cons at h in
      let (jobs, rest) = dequeue_times-Holds P js _ dead (dequeue-Holds j s (reverse js) dead h') in
      (ap₂ ◌∷◌ (dequeue_oldest r L c false P j s (reverse js) dead h') jobs, rest)

  -- With a client that returns stored strings as they are, jobs enqueued on an empty queue are
  -- dequeued in the same order, with attempts 0, the new id and the time of the call, and the
  -- queue is empty again.
  pub dequeue-enqueue_in_order :
      (P : IsClient r c false) (xs : List Sent) (s : r.State) (dead : List TranscriptionJob)
      → Holds r c s [] dead
      → let (jobs, t) = dequeue_times r c (length (map stored xs)) (enqueue_all r c xs s) in
        (jobs ≡ map some (map stored xs)) × Holds r c t [] dead
  dequeue-enqueue_in_order P xs s dead h =
      dequeue_times-Holds P (map stored xs) _ dead
        (rw append-nil at (enqueue_all-Holds xs s [] dead h))

  dequeue_object : (s : r.State) → (r.rpop queue_key s).0 ≡ some object → (dequeue r c s).0 ≡ none
  unfolding dequeue
  dequeue_object s e = rw e c.parse_object

  -- With a client that parses stored JSON by itself and returns an object, a dequeue takes the
  -- oldest job off the queue and returns null: the job is lost.
  pub dequeue_object_loses :
      (j : TranscriptionJob) (s : r.State) (waiting dead : List TranscriptionJob)
      → Holds r c s (waiting ++ j ∷ []) dead
      → (r.rpop queue_key s).0 ≡ some object
      → ((dequeue r c s).0 ≡ none) × Holds r c (dequeue r c s).1 waiting dead
  dequeue_object_loses j s waiting dead h e = (dequeue_object s e, dequeue-Holds j s waiting dead h)
