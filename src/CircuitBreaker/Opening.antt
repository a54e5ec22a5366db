-- ===== src/CircuitBreaker/Opening.antt =====
-- How many failures open the breaker, and what closes it.
use zapi_pwa.Base.{
  ℕ, zero, suc, some, ◌+◌, ◌%◌, ◌≡◌, refl, true, false, leb, text, text_eq, ◌∙◌, arith, Bool-cases,
  inl, inr,
}
use zapi_pwa.Redis.{Redis, IsLawful}
use zapi_pwa.CircuitBreaker.{is_open, record_failure, record_success, circuit_key, failures_key}

apart : (text_eq failures_key circuit_key ≡ false) × (text_eq circuit_key failures_key ≡ false)
unfolding text_eq
apart = (refl, refl)

same_circuit : text_eq circuit_key circuit_key ≡ true
unfolding text_eq
same_circuit = refl

same_failures : text_eq failures_key failures_key ≡ true
unfolding text_eq
same_failures = refl

same_open : text_eq (text "open") (text "open") ≡ true
unfolding text_eq
same_open = refl

opened : (n : ℕ) → leb 5 (n % 5 + 1) ≡ true → true ≡ leb 5 (suc n)
opened n h = ground arith

unopened : (n : ℕ) → leb 5 (n % 5 + 1) ≡ false → leb 5 n ≡ leb 5 (suc n)
unopened n h = ground arith

module _ (r : Redis) (L : IsLawful r) where
  open r use {State, get, set_ex, incr, expire, del, count}
  open L use {
    get-set_ex, get-del, get-incr, get-expire, incr_lem, count-incr, count-expire, count-set_ex,
    count-del,
  }

  -- The two branches of a failure, by the count that it reaches.
  failure_full :
      (s : State)
      → leb 5 (count s failures_key + 1) ≡ true
      → (get circuit_key (record_failure r s) ≡ some (text "open"))
        × (count (record_failure r s) failures_key ≡ 0)
  unfolding record_failure
  failure_full s full = rw (incr_lem failures_key s) (
      rw full (
        (rw (get-del failures_key) (rw apart.0 (rw get-set_ex (rw same_circuit)))),
        rw count-del (rw same_failures),
      ))

  failure_short :
      (s : State)
      → leb 5 (count s failures_key + 1) ≡ false
      → (get circuit_key (record_failure r s) ≡ get circuit_key s)
        × (count (record_failure r s) failures_key ≡ count s failures_key + 1)
  unfolding record_failure
  failure_short s short = rw (incr_lem failures_key s) (
      rw short (
        get-expire failures_key 60 _ circuit_key ∙ get-incr failures_key s circuit_key apart.0,
        count-expire failures_key 60 _ failures_key ∙ count-incr failures_key s,
      ))

  -- `n` failures in a row
  abbrev pub failures : ℕ → State → State
  failures zero s = s
  failures (suc n) s = record_failure r (failures n s)

  count-failures :
      (n : ℕ) (s : State) → count s failures_key ≡ 0 → count (failures n s) failures_key ≡ n % 5
  count-failures zero s h = rw h
  count-failures (suc n) s h =
      let c = count-failures n s h in
      elim (Bool-cases (leb 5 (count (failures n s) failures_key + 1))) [
        | inl full ↦ ground (arith, failure_full (failures n s) full)
        | inr short ↦ ground (arith, failure_short (failures n s) short)
      ]

  open-failures :
      (n : ℕ) (s : State)
      → count s failures_key ≡ 0
      → is_open r s ≡ false
      → is_open r (failures n s) ≡ leb 5 n
  unfolding is_open
  open-failures zero s h closed = closed
  open-failures (suc n) s h closed =
      let c = count-failures n s h in
      let ih = open-failures n s h closed in
      elim (Bool-cases (leb 5 (count (failures n s) failures_key + 1))) [
        | inl full ↦
            rw ((failure_full (failures n s) full).0, is_open)
              (rw same_open (opened n (rw c at full)))
        | inr short ↦
            rw ((failure_short (failures n s) short).0, is_open) (ih ∙ unopened n (rw c at short))
      ]

  success-closes :
      (s : State)
      → (is_open r (record_success r s) ≡ false) × (count (record_success r s) failures_key ≡ 0)
  unfolding is_open record_success
  success-closes s = (
    rw (get-del circuit_key) (rw same_circuit),
    rw (count-del circuit_key) (rw apart.1 (rw (count-del failures_key) (rw same_failures))),
  )

  -- After a success the breaker is closed, and of the failures that follow it, in a row and with
  -- no key expiring, the fifth opens it and every later one leaves it open.
  pub opens_at_fifth_failure :
      (n : ℕ) (s : State) → is_open r (failures n (record_success r s)) ≡ leb 5 n
  opens_at_fifth_failure n s =
      let (closed, cleared) = success-closes s in open-failures n _ cleared closed
