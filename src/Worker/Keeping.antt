-- ===== src/Worker/Keeping.antt =====
-- Processing a job touches Redis only through the circuit breaker.
use zapi_pwa.Base.{◌≡◌, refl, false, List, text_eq, arith, inl, inr, ◌⊎◌, ◌∙◌, subst, sym}
use zapi_pwa.Redis.{Redis, IsLawful}
use zapi_pwa.CircuitBreaker.{record_failure, record_success, circuit_key, failures_key}
use zapi_pwa.CircuitBreaker.Keeping.{items-record_failure, items-record_success}
use zapi_pwa.Queue.{TranscriptionJob, Codec, queue_key, dlq_key}
use zapi_pwa.Queue.Contents.{Holds}
use zapi_pwa.Worker.{Outside, check_download, process}

breaker_apart :
    (text_eq circuit_key queue_key ≡ false)
    × (text_eq failures_key queue_key ≡ false)
    × (text_eq circuit_key dlq_key ≡ false)
    × (text_eq failures_key dlq_key ≡ false)
unfolding text_eq
breaker_apart = (refl, refl, refl, refl)

module _ (r : Redis) (c : Codec) (o : Outside) where
  -- Processing a job leaves Redis as it is, or records a failure, or a success.
  process-redis :
      (job : TranscriptionJob) (s : r.State) (t : o.State)
      → let s' = (process r c o job (s, t)).1.0 in
        (s' ≡ s) ⊎ (s' ≡ record_failure r s) ⊎ (s' ≡ record_success r s)
  unfolding process check_download
  process-redis job s t = ground arith

module _ (r : Redis) (L : IsLawful r) (c : Codec) (o : Outside) where
  failure-Holds :
      (s : r.State) (waiting dead : List TranscriptionJob)
      → Holds r c s waiting dead
      → Holds r c (record_failure r s) waiting dead
  failure-Holds s waiting dead h = record {
    queue = items-record_failure r L s queue_key breaker_apart.0 breaker_apart.1 ∙ h.queue;
    dlq = items-record_failure r L s dlq_key breaker_apart.2 breaker_apart.3 ∙ h.dlq;
  }

  success-Holds :
      (s : r.State) (waiting dead : List TranscriptionJob)
      → Holds r c s waiting dead
      → Holds r c (record_success r s) waiting dead
  success-Holds s waiting dead h = record {
    queue = items-record_success r L s queue_key breaker_apart.0 breaker_apart.1 ∙ h.queue;
    dlq = items-record_success r L s dlq_key breaker_apart.2 breaker_apart.3 ∙ h.dlq;
  }

  -- The queue and the dead jobs stay as they are, whether processing succeeds or throws.
  pub process-Holds :
      (job : TranscriptionJob) (s : r.State) (t : o.State) (waiting dead : List TranscriptionJob)
      → Holds r c s waiting dead
      → Holds r c (process r c o job (s, t)).1.0 waiting dead
  process-Holds job s t waiting dead h = elim (process-redis r c o job s t) [
    | inl same ↦ subst (λ u. Holds r c u waiting dead) (sym same) h
    | inr (inl e) ↦ subst (λ u. Holds r c u waiting dead) (sym e) (failure-Holds s waiting dead h)
    | inr (inr e) ↦ subst (λ u. Holds r c u waiting dead) (sym e) (success-Holds s waiting dead h)
  ]
