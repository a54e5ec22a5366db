-- ===== src/Queue/Contents.antt =====
-- The two lists as lists of jobs, and what each operation does to them.
use zapi_pwa.Base.{Text, ◌≡◌, refl, Bool, true, false, List, [], ◌∷◌, ◌++◌, map, text_eq, ap, ◌∙◌}
use mathlib.Core.List.{map-append}
use zapi_pwa.Redis.{Redis, IsLawful}
use zapi_pwa.Queue.{
  TranscriptionJob, Codec, IsClient, read_back, parse_reply-reply_of, queue_key, dlq_key, dequeue,
}

pub keys_apart :
    (text_eq queue_key dlq_key ≡ false)
    × (text_eq dlq_key queue_key ≡ false)
    × (text_eq queue_key queue_key ≡ true)
    × (text_eq dlq_key dlq_key ≡ true)
unfolding text_eq
keys_apart = (refl, refl, refl, refl)

module _ (r : Redis) (c : Codec) where
  -- The waiting and the dead jobs, newest first.
  pub record Holds (s : r.State) (waiting dead : List TranscriptionJob) : Type 0 where
    pub queue : r.items s queue_key ≡ map c.stringify waiting
    pub dlq : r.items s dlq_key ≡ map c.stringify dead

module _ (r : Redis) (L : IsLawful r) (c : Codec) where
  open r use {State, items}

  pub push-queue :
      (j : TranscriptionJob) (s : State) (waiting dead : List TranscriptionJob)
      → Holds r c s waiting dead
      → Holds r c (r.lpush queue_key (c.stringify j) s) (j ∷ waiting) dead
  push-queue j s waiting dead h = record {
    queue = rw (L.items-lpush, keys_apart.2) (ap (◌∷◌ (c.stringify j)) h.queue);
    dlq = rw (L.items-lpush, keys_apart.0) h.dlq;
  }

  pub push-dlq :
      (j : TranscriptionJob) (s : State) (waiting dead : List TranscriptionJob)
      → Holds r c s waiting dead
      → Holds r c (r.lpush dlq_key (c.stringify j) s) waiting (j ∷ dead)
  push-dlq j s waiting dead h = record {
    queue = rw (L.items-lpush, keys_apart.1) h.queue;
    dlq = rw (L.items-lpush, keys_apart.3) (ap (◌∷◌ (c.stringify j)) h.dlq);
  }

  pub pop-queue :
      (j : TranscriptionJob) (s : State) (waiting dead : List TranscriptionJob)
      → Holds r c s (waiting ++ j ∷ []) dead
      → Holds r c (r.rpop queue_key s).1 waiting dead
  pop-queue j s waiting dead h =
      let e : items s queue_key ≡ map c.stringify waiting ++ c.stringify j ∷ [] =
        h.queue ∙ map-append c.stringify waiting (j ∷ []) in
      record {
        queue =
            rw
              (
                L.items-rpop queue_key (c.stringify j) (map c.stringify waiting) s queue_key e,
                keys_apart.2,
              )
              refl;
        dlq =
            rw
              (
                L.items-rpop queue_key (c.stringify j) (map c.stringify waiting) s dlq_key e,
                keys_apart.0,
              )
              h.dlq;
      }

  -- A dequeue gives what is read back of the oldest job.
  pub dequeue_oldest :
      (parses : Bool) (P : IsClient r c parses) (j : TranscriptionJob) (s : State)
      (waiting dead : List TranscriptionJob)
      → Holds r c s (waiting ++ j ∷ []) dead
      → (dequeue r c s).0 ≡ read_back parses j
  unfolding dequeue
  dequeue_oldest parses P j s waiting dead h =
      let e : items s queue_key ≡ map c.stringify waiting ++ c.stringify j ∷ [] =
        h.queue ∙ map-append c.stringify waiting (j ∷ []) in
      rw (P.rpop_last queue_key j (map c.stringify waiting) s e) (parse_reply-reply_of r c parses j)

  -- A dequeue leaves the values of the other keys.
  pub get-dequeue : (k : Text) (s : State) → r.get k (dequeue r c s).1 ≡ r.get k s
  unfolding dequeue
  get-dequeue k s = L.get-rpop queue_key s k
