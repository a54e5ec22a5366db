-- ===== src/Worker/Draining.antt =====
-- What a row of requests to the worker makes of the waiting jobs.
use zapi_pwa.Base.{
  ◌∙◌, Bool, ℕ, zero, suc, ◌≤◌, ◌≡◌, refl, ap, subst, true, Bool-cases, inl, inr, List, [], ◌∷◌,
  ◌++◌, arith, All,
}
use zapi_pwa.Redis.{Redis, IsLawful}
use zapi_pwa.CircuitBreaker.{is_open}
use zapi_pwa.Queue.{TranscriptionJob, Codec, IsClient}
use zapi_pwa.Queue.Contents.{Holds}
use zapi_pwa.Worker.{Outside, World, handle_get}
use zapi_pwa.Worker.Backoff.{remaining, IsBounded, handle_get-Progress}

-- A list that is not empty has a last item.
last_of :
    (j : TranscriptionJob) (js : List TranscriptionJob)
    → (init : List TranscriptionJob) × (last : TranscriptionJob) × (j ∷ js ≡ init ++ last ∷ [])
last_of j [] = ([], j, refl)
last_of j (k ∷ js) = let (init, last, e) = last_of k js in (j ∷ init, last, ap (◌∷◌ j) e)

module _ (r : Redis) (c : Codec) (o : Outside) where
  abbrev pub requests : ℕ → World r c o → World r c o
  requests zero w = w
  requests (suc n) w = requests n (handle_get r c o w).1

  -- After at most `n` requests the breaker is open, or no job waits and the dead ones were tried
  -- three times.
  pub data Drained (parses : Bool) (gone : List TranscriptionJob) (n : ℕ) (w : World r c o)
      : Type 0 where
    opened : (k : ℕ) → k ≤ n → is_open r (requests k w).0 ≡ true → Drained parses gone n w
    emptied :
        (k : ℕ) (dead : List TranscriptionJob)
        → k ≤ n
        → Holds r c (requests k w).0 [] dead
        → All (λ j. j.attempts ≡ 3) dead
        → (parses ≡ true → dead ≡ gone)
        → Drained parses gone n w

  one_more :
      (parses : Bool) (first gone : List TranscriptionJob) (n : ℕ) (w : World r c o)
      → (parses ≡ true → gone ≡ first)
      → Drained parses gone n (handle_get r c o w).1
      → Drained parses first (suc n) w
  one_more parses first gone n w same (opened k few e) = opened (suc k) (omega arith) e
  one_more parses first gone n w same (emptied k dead few h d untried) =
      emptied (suc k) dead (omega arith) h d (λ p. untried p ∙ same p)

module _ (r : Redis) (L : IsLawful r) (c : Codec) (parses : Bool) (P : IsClient r c parses)
    (o : Outside) where
  drains_in :
      (n : ℕ) (w : World r c o) (waiting dead : List TranscriptionJob)
      → remaining waiting ≤ n
      → Holds r c w.0 waiting dead
      → IsBounded waiting dead
      → Drained r c o parses dead n w
  drains_in n w [] dead few h b = emptied 0 dead (omega arith) h b.1 (λ p. refl)
  drains_in zero w (j ∷ js) dead few h b = absurd (omega (arith, b.0.0))
  drains_in (suc n) (s, t) (j ∷ js) dead few h b = elim (Bool-cases (is_open r s)) [
    | inl open_now ↦ opened 0 (omega arith) open_now
    | inr closed ↦
        let (init, last, e) = last_of j js in
        let h' : Holds r c s (init ++ last ∷ []) dead = rw e at h in
        let b' : IsBounded (init ++ last ∷ []) dead = subst (λ x. IsBounded x dead) e b in
        let few' : remaining (init ++ last ∷ []) ≤ suc n = subst (λ x. remaining x ≤ suc n) e few in
        let p = handle_get-Progress r L c parses P o last s t init dead closed h' b' in
        one_more r c o parses dead p.dead n (s, t) p.untried
          (drains_in n (handle_get r c o (s, t)).1 p.waiting p.dead (omega (arith, p.fewer)) p.held
            p.bounded)
  ]

  -- A row of requests to the worker drains the queue, whatever the services do: after at most as
  -- many requests as the waiting jobs have attempts left, either the circuit breaker is open, or no
  -- job waits and each dead one was tried three times. With the client as redis.ts makes it, which
  -- parses the stored text by itself, the jobs are lost and the dead ones are those of the start. The waiting jobs must have been tried less
  -- than three times, and the dead ones three times, at the start.
  pub drains :
      (w : World r c o) (waiting dead : List TranscriptionJob)
      → Holds r c w.0 waiting dead
      → IsBounded waiting dead
      → Drained r c o parses dead (remaining waiting) w
  drains w waiting dead h b = drains_in (remaining waiting) w waiting dead (omega arith) h b
