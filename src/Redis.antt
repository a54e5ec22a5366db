-- ===== src/Redis.antt =====
-- The Redis client that packages/pwa/src/lib/redis.ts makes: a service that is not part of the
-- repository, given by its commands over an unknown state, and what its documentation says of
-- them. Only the commands that the program sends are here. A call that fails is not modelled.
pub mod Memory
use zapi_pwa.Base.{
  ℕ, ◌+◌, ◌≡◌, Bool, Option, none, some, List, [], ◌∷◌, ◌++◌, if◌then◌else◌, Text, text_eq, length,
}

-- What the client hands to the program for a stored string: the string itself, or, where it
-- parses stored JSON on its own, an object.
pub data Reply : Type 0 where
  string : Text → Reply
  object : Reply

pub record Redis : Type 1 where
  pub State : Type 0
  pub get : Text → State → Option Text
  pub set_ex : Text → Text → ℕ → State → State
  pub incr : Text → State → ℕ × State
  pub expire : Text → ℕ → State → State
  pub del : Text → State → State
  pub lpush : Text → Text → State → State
  pub rpop : Text → State → Option Reply × State
  pub llen : Text → State → ℕ
  -- The values, the counters and the lists that are stored; not commands of the program.
  pub count : State → Text → ℕ
  pub items : State → Text → List Text

-- The documented behaviour, while no key expires.
pub record IsLawful (r : Redis) : Type 0 where
  pub get-set_ex :
      (k v : Text) (n : ℕ) (s : r.State) (j : Text)
      → r.get j (r.set_ex k v n s) ≡ (if text_eq k j then some v else r.get j s)
  pub get-del :
      (k : Text) (s : r.State) (j : Text)
      → r.get j (r.del k s) ≡ (if text_eq k j then none else r.get j s)
  pub get-incr :
      (k : Text) (s : r.State) (j : Text)
      → text_eq k j ≡ Bool.false
      → r.get j (r.incr k s).1 ≡ r.get j s
  pub get-expire :
      (k : Text) (n : ℕ) (s : r.State) (j : Text) → r.get j (r.expire k n s) ≡ r.get j s
  pub incr_lem : (k : Text) (s : r.State) → (r.incr k s).0 ≡ r.count s k + 1
  pub count-incr : (k : Text) (s : r.State) → r.count (r.incr k s).1 k ≡ r.count s k + 1
  pub count-expire :
      (k : Text) (n : ℕ) (s : r.State) (j : Text) → r.count (r.expire k n s) j ≡ r.count s j
  pub count-set_ex :
      (k v : Text) (n : ℕ) (s : r.State) (j : Text)
      → text_eq k j ≡ Bool.false
      → r.count (r.set_ex k v n s) j ≡ r.count s j
  pub count-del :
      (k : Text) (s : r.State) (j : Text)
      → r.count (r.del k s) j ≡ (if text_eq k j then 0 else r.count s j)
  pub items-set_ex :
      (k v : Text) (n : ℕ) (s : r.State) (j : Text)
      → text_eq k j ≡ Bool.false
      → r.items (r.set_ex k v n s) j ≡ r.items s j
  pub items-del :
      (k : Text) (s : r.State) (j : Text)
      → text_eq k j ≡ Bool.false
      → r.items (r.del k s) j ≡ r.items s j
  pub items-incr :
      (k : Text) (s : r.State) (j : Text)
      → text_eq k j ≡ Bool.false
      → r.items (r.incr k s).1 j ≡ r.items s j
  pub items-expire :
      (k : Text) (n : ℕ) (s : r.State) (j : Text) → r.items (r.expire k n s) j ≡ r.items s j
  pub items-lpush :
      (k v : Text) (s : r.State) (j : Text)
      → r.items (r.lpush k v s) j ≡ (if text_eq k j then v ∷ r.items s j else r.items s j)
  pub rpop_empty : (k : Text) (s : r.State) → r.items s k ≡ [] → r.rpop k s ≡ (none, s)
  pub items-rpop :
      (k v : Text) (xs : List Text) (s : r.State) (j : Text)
      → r.items s k ≡ xs ++ v ∷ []
      → r.items (r.rpop k s).1 j ≡ (if text_eq k j then xs else r.items s j)
  pub get-rpop : (k : Text) (s : r.State) (j : Text) → r.get j (r.rpop k s).1 ≡ r.get j s
  pub llen_lem : (k : Text) (s : r.State) → r.llen k s ≡ length (r.items s k)
