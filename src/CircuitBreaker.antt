-- ===== src/CircuitBreaker.antt =====
-- packages/pwa/src/lib/circuit-breaker.ts, over any Redis.
pub mod Opening
pub mod Keeping
use zapi_pwa.Base.{ℕ, Bool, ◌++◌, if◌then◌else◌, leb, Text, text, is_text}
use zapi_pwa.Redis.{Redis}

abbrev pub circuit_key : Text
circuit_key = text "circuit:zapi"

-- `${CIRCUIT_KEY}:failures`
abbrev pub failures_key : Text
failures_key = circuit_key ++ text ":failures"

abbrev pub failure_threshold : ℕ
failure_threshold = 5

abbrev pub cooldown_seconds : ℕ
cooldown_seconds = 300

module _ (r : Redis) where
  open r use {State, get, set_ex, incr, expire, del}

  -- `isOpen`
  unfoldable pub is_open : State → Bool
  is_open s = is_text (get circuit_key s) (text "open")

  -- `recordFailure`
  pub record_failure : State → State
  record_failure s =
      let (count, s1) = incr failures_key s in
      let s2 = expire failures_key 60 s1 in
      if leb failure_threshold count
      then del failures_key (set_ex circuit_key (text "open") cooldown_seconds s2)
      else s2

  -- `recordSuccess`
  pub record_success : State → State
  record_success s = del circuit_key (del failures_key s)
