-- ===== src/OnAudio/Handler/Guard.antt =====
-- What a request must have for the handler to do anything.
use zapi_pwa.Base.{
  arith, ◌≡◌, refl, ◌⊎◌, inl, inr, Option, none, some, Text, text_eq_iff, Bool-cases, Option-cases,
  true, false,
}
use zapi_pwa.Filter.{OnAudioEvent}
use zapi_pwa.OnAudio.{Services, InstanceRow, is_authorized}
use zapi_pwa.OnAudio.Handler.{World, handle_bound, handle_post}

-- A request with the secret, whose body is an event of a session that an instance is bound to.
pub record IsAccepted (v : Services) (header secret : Option Text)
    (body : Option (Option OnAudioEvent)) (w : World v) (event : OnAudioEvent) (i : InstanceRow)
    : Type 0 where
  pub shared : Text
  pub sent : header ≡ some shared
  pub set : secret ≡ some shared
  pub parsed : body ≡ some (some event)
  pub bound : v.find_instance event.waclaw_session_id w.1 ≡ some i

authorized_same :
    (header secret : Option Text)
    → is_authorized header secret ≡ true
    → (t : Text) × ((header ≡ some t) × (secret ≡ some t))
unfolding is_authorized
authorized_same (some h) (some t) e = (h, (refl, rw ((text_eq_iff h t).0 e) refl))
authorized_same none secret e = ground arith
authorized_same (some h) none e = ground arith

module _ (v : Services) where
  unauthorized :
      (header secret : Option Text) (waclaw_url : Text) (body : Option (Option OnAudioEvent))
      (w : World v)
      → is_authorized header secret ≡ false
      → (handle_post v header secret waclaw_url body w).1 ≡ w
  unfolding handle_post
  unauthorized header secret waclaw_url body (log, s) h = rw h refl

  abbrev Result : Option Text → Option Text → Text → Option (Option OnAudioEvent) → World v → Type 0
  Result header secret waclaw_url body w =
      ((event : OnAudioEvent) × (i : InstanceRow) × IsAccepted v header secret body w event i
        × (handle_post v header secret waclaw_url body w ≡ (
          some (handle_bound v waclaw_url event i w).0,
          (handle_bound v waclaw_url event i w).1,
        )))
      ⊎ ((handle_post v header secret waclaw_url body w).1 ≡ w)

  parsed_or_not :
      (header secret : Option Text) (waclaw_url : Text) (body : Option (Option OnAudioEvent))
      (w : World v)
      → is_authorized header secret ≡ true
      → Result header secret waclaw_url body w
  unfolding handle_post
  parsed_or_not header secret waclaw_url none (log, s) h = inr (rw h refl)
  parsed_or_not header secret waclaw_url (some none) (log, s) h = inr (rw h refl)
  parsed_or_not header secret waclaw_url (some (some event)) (log, s) h =
      elim (Option-cases (v.find_instance event.waclaw_session_id s)) [
        | inl missing ↦ inr (rw (h, missing) refl)
        | inr (i, found) ↦
            let (t, (sent, set)) = authorized_same header secret h in
            inl (
              event,
              i,
              record { shared = t; sent = sent; set = set; parsed = refl; bound = found },
              rw (h, found) refl,
            )
      ]

  -- A request is passed on to the handling of an event only with the secret, which must be set, a
  -- body that is an event, and a session that an instance is bound to. Any other request changes
  -- nothing and calls nothing.
  pub handle_post-guarded :
      (header secret : Option Text) (waclaw_url : Text) (body : Option (Option OnAudioEvent))
      (w : World v)
      → ((event : OnAudioEvent) × (i : InstanceRow) × IsAccepted v header secret body w event i
          × (handle_post v header secret waclaw_url body w ≡ (
            some (handle_bound v waclaw_url event i w).0,
            (handle_bound v waclaw_url event i w).1,
          )))
        ⊎ ((handle_post v header secret waclaw_url body w).1 ≡ w)
  handle_post-guarded header secret waclaw_url body w =
      elim (Bool-cases (is_authorized header secret)) [
        | inr refused ↦ inr (unauthorized header secret waclaw_url body w refused)
        | inl granted ↦ parsed_or_not header secret waclaw_url body w granted
      ]
