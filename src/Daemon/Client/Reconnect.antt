-- ===== src/Daemon/Client/Reconnect.antt =====
-- How long the client waits between connections.
use native.Mathlib.Nat.{pow-suc}
use zapi_pwa.Base.{
  ℕ, zero, suc, ◌*◌, ◌^◌, ◌≡◌, refl, ap, ◌∙◌, List, [], ◌∷◌, ◌++◌, map, min, length, arith, Text,
}
use zapi_pwa.Effect.{Outcome, thrown}
use zapi_pwa.Filter.{OnAudioEvent}
use zapi_pwa.Daemon.Client.{
  Setting, Connection, failed, refused, opened, Step, heard, waited, connect, subscribe,
  connect_and_subscribe, after_connect,
}

-- The waits of a run, in order.
abbrev pub waits : List Step → List ℕ
waits [] = []
waits (heard e ∷ steps) = waits steps
waits (waited ms ∷ steps) = ms ∷ waits steps

-- The capped powers of two from the `i`-th on.
abbrev pub capped_powers : ℕ → ℕ → List ℕ
capped_powers i zero = []
capped_powers i (suc n) = min (1000 * 2 ^ i) 30000 ∷ capped_powers (suc i) n

waits-heard :
    (es : List OnAudioEvent) (steps : List Step) → waits (map heard es ++ steps) ≡ waits steps
waits-heard [] steps = refl
waits-heard (e ∷ es) steps = waits-heard es steps

next_power : (i : ℕ) → min (min (1000 * 2 ^ i) 30000 * 2) 30000 ≡ min (1000 * 2 ^ suc i) 30000
next_power i = rw (pow-suc 2 i) (omega arith)

module _ (e : Setting) where
  connect-throws : (c : Connection) → (err : Text) × ((connect e c).1 ≡ thrown err)
  unfolding connect
  connect-throws (failed err) = (err, refl)
  connect-throws (refused status) = (_, refl)
  connect-throws (opened chunks) = (_, refl)

  subscribe-nil : (ms : ℕ) → subscribe e ms [] ≡ []
  unfolding subscribe
  subscribe-nil ms = refl

  after-thrown :
      (ms : ℕ) (res : Outcome (Unit {0})) (err : Text)
      → res ≡ thrown err
      → (next : ℕ → List Step)
      → (after_connect e ms res).0 ++ next (after_connect e ms res).1
        ≡ waited ms ∷ next (min (ms * 2) 30000)
  after-thrown ms res err h next = rw h refl

  subscribe-throws :
      (ms : ℕ) (c : Connection) (cs : List Connection) (err : Text)
      → (connect e c).1 ≡ thrown err
      → subscribe e ms (c ∷ cs)
        ≡ map heard (connect e c).0 ++ waited ms ∷ subscribe e (min (ms * 2) 30000) cs
  unfolding subscribe
  subscribe-throws ms c cs err h =
      ap (◌++◌ (map heard (connect e c).0))
        (after-thrown ms (connect e c).1 err h (λ b. subscribe e b cs))

  waits-subscribe :
      (i : ℕ) (cs : List Connection)
      → waits (subscribe e (min (1000 * 2 ^ i) 30000) cs) ≡ capped_powers i (length cs)
  waits-subscribe i [] = ap waits (subscribe-nil (min (1000 * 2 ^ i) 30000))
  waits-subscribe i (c ∷ cs) =
      let (err, h) = connect-throws c in
      let ms : ℕ = min (1000 * 2 ^ i) 30000 in
      ap waits (subscribe-throws ms c cs err h)
      ∙ waits-heard (connect e c).0 (waited ms ∷ subscribe e (min (ms * 2) 30000) cs)
      ∙ ap (λ b. ms ∷ waits (subscribe e b cs)) (next_power i)
      ∙ ap (◌∷◌ ms) (waits-subscribe (suc i) cs)

  -- The wait before the n-th reconnection is 1000 * 2 ^ n milliseconds, but at most 30000, counted
  -- from the start of the process: no connection sets it back, however many events it delivered.
  pub waits-connect_and_subscribe :
      (cs : List Connection) → waits (connect_and_subscribe e cs) ≡ capped_powers 0 (length cs)
  unfolding connect_and_subscribe
  waits-connect_and_subscribe cs = waits-subscribe 0 cs
