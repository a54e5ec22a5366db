-- ===== src/Jid/Matching.antt =====
-- `jidsMatchContact` as a relation between contacts.
use zapi_pwa.Base.{
  ◌≡◌, refl, true, false, Option, none, some, [], ◌∷◌, ◌++◌, Text, arith, ◌⊎◌, inl, inr,
  text_eq_iff, text_eq_refl, truthy, Option-cases,
}
use zapi_pwa.Strings.{lower}
use zapi_pwa.Jid.{
  JidServer, Contact, parse_jid, normalize_jid, server_of, same_text, contact_phone,
  jids_match_contact, phone_from_jid,
}
use zapi_pwa.Jid.Parsing.{HasParts}
use zapi_pwa.Jid.Normal.{parse-normalize}

same_text_comm : (a b : Option Text) → same_text a b ≡ same_text b a
unfolding same_text
same_text_comm none none = refl
same_text_comm none (some []) = refl
same_text_comm none (some (d ∷ t)) = refl
same_text_comm (some []) none = refl
same_text_comm (some []) (some []) = refl
same_text_comm (some []) (some (d ∷ t)) = refl
same_text_comm (some (c ∷ s)) none = refl
same_text_comm (some (c ∷ s)) (some []) = refl
same_text_comm (some (c ∷ s)) (some (d ∷ t)) =
    ground (arith, text_eq_iff (c ∷ s) (d ∷ t), text_eq_iff (d ∷ t) (c ∷ s))

same_text_self : (a : Option Text) → truthy a ≡ true → same_text a a ≡ true
unfolding same_text
same_text_self none h = cc
same_text_self (some []) h = cc
same_text_self (some (c ∷ s)) h = text_eq_refl (c ∷ s)

truthy_middle : (u v : Text) (c : _) → truthy (some (u ++ c ∷ v)) ≡ true
truthy_middle [] v c = refl
truthy_middle (d ∷ u) v c = refl

truthy_normalize : (a : Option Text) → truthy a ≡ true → truthy (normalize_jid a) ≡ true
unfolding normalize_jid
truthy_normalize none h = cc
truthy_normalize (some s) h = elim (Option-cases (parse_jid (some s))) [
  | inl missing ↦ rw missing h
  | inr (p, found) ↦ rw found (truthy_middle p.user _ b'@')
]

-- The order of the two contacts does not matter.
pub jids_match_comm : (a b : Contact) → jids_match_contact a b ≡ jids_match_contact b a
unfolding jids_match_contact
jids_match_comm a b = rw (
  same_text_comm (normalize_jid a.jid) (normalize_jid b.jid),
  same_text_comm a.lid b.lid,
  same_text_comm (contact_phone a) (contact_phone b),
)

-- A contact with a jid, a lid or a phone that is not empty matches itself.
pub jids_match_self :
    (a : Contact)
    → (truthy a.jid ≡ true) ⊎ (truthy a.lid ≡ true) ⊎ (truthy a.phone ≡ true)
    → jids_match_contact a a ≡ true
unfolding jids_match_contact contact_phone
jids_match_self a h = ground (
  arith,
  truthy_normalize a.jid,
  same_text_self (normalize_jid a.jid),
  same_text_self a.lid,
  same_text_self a.phone,
)

-- The phone of a normalised phone identifier is its user.
phone_of_normal :
    (s u v : Text)
    → HasParts s u v
    → server_of (lower v) ≡ JidServer.whatsapp
    → phone_from_jid (normalize_jid (some s)) ≡ some u
unfolding phone_from_jid
phone_of_normal s u v h k = rw (parse-normalize s u v h (λ q. cc), phone_from_jid) (rw k)

-- A contact known by its phone identifier alone matches one known by the bare number, whatever
-- spelling of the server the identifier uses.
pub jids_match_phone :
    (s u v : Text) (a b : Contact)
    → HasParts s u v
    → server_of (lower v) ≡ JidServer.whatsapp
    → a.jid ≡ some s
    → truthy a.phone ≡ false
    → b.phone ≡ some u
    → jids_match_contact a b ≡ true
unfolding jids_match_contact contact_phone
jids_match_phone s [] v a b h k ja pa pb = absurd (h.user_given refl)
jids_match_phone s (c ∷ u) v a b h k ja pa pb =
    let left : contact_phone a ≡ some (c ∷ u) = rw (ja, phone_of_normal s (c ∷ u) v h k, pa) in
    let right : contact_phone b ≡ some (c ∷ u) = rw pb in
    let same : same_text (contact_phone a) (contact_phone b) ≡ true =
      rw (left, right) (same_text_self (some (c ∷ u)) refl) in
    ground arith
