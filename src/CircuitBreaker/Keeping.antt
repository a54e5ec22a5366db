-- ===== src/CircuitBreaker/Keeping.antt =====
-- The breaker leaves the lists of Redis alone.
use zapi_pwa.Base.{◌≡◌, false, leb, text_eq, Text, Bool-cases, inl, inr, ◌∙◌}
use zapi_pwa.Redis.{Redis, IsLawful}
use zapi_pwa.CircuitBreaker.{
  record_failure, record_success, circuit_key, failures_key, failure_threshold,
}

module _ (r : Redis) (L : IsLawful r) (s : r.State) (k : Text) where
  pub items-record_failure :
      text_eq circuit_key k ≡ false
      → text_eq failures_key k ≡ false
      → r.items (record_failure r s) k ≡ r.items s k
  unfolding record_failure
  items-record_failure p q =
      let kept =
        L.items-expire failures_key 60 (r.incr failures_key s).1 k
        ∙ L.items-incr failures_key s k q in
      elim (Bool-cases (leb failure_threshold (r.incr failures_key s).0)) [
        | inl full ↦ rw full (L.items-del _ _ k q ∙ L.items-set_ex _ _ _ _ k p ∙ kept)
        | inr short ↦ rw short kept
      ]

  pub items-record_success :
      text_eq circuit_key k ≡ false
      → text_eq failures_key k ≡ false
      → r.items (record_success r s) k ≡ r.items s k
  unfolding record_success
  items-record_success p q = L.items-del _ _ k p ∙ L.items-del _ _ k q
