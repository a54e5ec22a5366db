-- ===== src/Jid/Normal.antt =====
-- `normalizeJID` on strings with one `@`, and on others.
use zapi_pwa.Base.{
  ◌≡◌, refl, ◌≢◌, ap, sym, false, none, some, [], ◌∷◌, ◌++◌, Text, Option-cases, ◌⊎◌, inl, inr,
  text_eq, Bool-cases,
}
use zapi_pwa.Strings.{has, after?, second, lower}
use zapi_pwa.Strings.Laws.{before_of_parts, second_of_parts, before_of_absent, after?_twice}
use zapi_pwa.Jid.{JidServer, parse_jid, normalize_jid, server_of, server_suffix, server_text}
use zapi_pwa.Jid.Parsing.{HasParts, parse_of_parts, parse_jid_iff}

-- There is no `@` behind the first one.
abbrev pub HasOneAt : Text → Type 0
HasOneAt s = (rest : Text) → after? b'@' s ≡ some rest → has b'@' rest ≡ false

user_of_one_at : (s u v : Text) → HasOneAt s → HasParts s u v → has b'@' u ≡ false
user_of_one_at s u v one h = elim (Bool-cases (has b'@' u)) [
  | inr absent ↦ absent
  | inl twice ↦
      let (r, found, again) = after?_twice b'@' u v twice in
      let once : has b'@' r ≡ false = one r (rw h.joined found) in cc
]

pub normalize_of_parts :
    (s u v : Text)
    → HasParts s u v
    → normalize_jid (some s) ≡ some (u ++ b'@' ∷ server_suffix (server_of (lower v)) s)
unfolding normalize_jid
normalize_of_parts s u v h = rw (parse_of_parts s u v h)

-- A recognised name is read as its server.
server_of-text : (k : JidServer) → k ≢ JidServer.unknown → server_of (lower (server_text k)) ≡ k
unfolding server_of text_eq
server_of-text JidServer.unknown h = absurd (h refl)
server_of-text JidServer.whatsapp h = refl
server_of-text _ h = refl

text_of_server :
    (k : JidServer)
    → k ≢ JidServer.unknown
    → (has b'@' (server_text k) ≡ false) × (server_text k ≢ [])
unfolding has
text_of_server JidServer.unknown h = absurd (h refl)
text_of_server JidServer.whatsapp h = (refl, λ q. cc)
text_of_server JidServer.lid h = (refl, λ q. cc)
text_of_server JidServer.group h = (refl, λ q. cc)
text_of_server JidServer.broadcast h = (refl, λ q. cc)
text_of_server JidServer.newsletter h = (refl, λ q. cc)

server_suffix_known :
    (k : JidServer) (s : Text) → k ≢ JidServer.unknown → server_suffix k s ≡ server_text k
server_suffix_known JidServer.unknown s h = absurd (h refl)
server_suffix_known JidServer.whatsapp s h = refl
server_suffix_known _ s h = refl

unknown-cases : (k : JidServer) → (k ≡ JidServer.unknown) ⊎ (k ≢ JidServer.unknown)
unknown-cases JidServer.unknown = inl refl
unknown-cases JidServer.whatsapp = inr (λ q. cc)
unknown-cases JidServer.lid = inr (λ q. cc)
unknown-cases JidServer.group = inr (λ q. cc)
unknown-cases JidServer.broadcast = inr (λ q. cc)
unknown-cases JidServer.newsletter = inr (λ q. cc)

-- With one `@`, what follows it is the name.
second_of_one_at : (s u v : Text) → HasOneAt s → HasParts s u v → second b'@' s ≡ some v
second_of_one_at s u v one h = rw h.joined (
    rw (second_of_parts b'@' u v (user_of_one_at s u v one h))
      (ap some (before_of_absent b'@' v h.last)))

-- A server name that is not recognised is kept as it is spelled.
normalize_unrecognised :
    (s u v : Text)
    → HasOneAt s
    → HasParts s u v
    → server_of (lower v) ≡ JidServer.unknown
    → normalize_jid (some s) ≡ some s
normalize_unrecognised s u v one h k =
    rw (normalize_of_parts s u v h)
      (rw k (rw (second_of_one_at s u v one h) (ap some (sym h.joined))))

-- A recognised name is replaced by the server's own spelling.
normalize_recognised :
    (s u v : Text)
    → HasParts s u v
    → server_of (lower v) ≢ JidServer.unknown
    → normalize_jid (some s) ≡ some (u ++ b'@' ∷ server_text (server_of (lower v)))
normalize_recognised s u v h k =
    rw (normalize_of_parts s u v h) (rw (server_suffix_known (server_of (lower v)) s k))

HasParts-server_text :
    (s u v : Text) (k : JidServer)
    → HasParts s u v
    → k ≢ JidServer.unknown
    → HasParts (u ++ b'@' ∷ server_text k) u (server_text k)
HasParts-server_text s u v k h known = record {
  joined = refl;
  last = (text_of_server k known).0;
  user_given = h.user_given;
  name_given = (text_of_server k known).1;
}

-- What is read from the normal form of a recognised identifier.
pub parse-normalize :
    (s u v : Text)
    → HasParts s u v
    → server_of (lower v) ≢ JidServer.unknown
    → parse_jid (normalize_jid (some s))
      ≡ some (record {
        user = u;
        server = server_of (lower v);
        raw = u ++ b'@' ∷ server_text (server_of (lower v));
      })
parse-normalize s u v h known =
    let k = server_of (lower v) in
    rw (normalize_recognised s u v h known) (
      rw (parse_of_parts _ u (server_text k) (HasParts-server_text s u v k h known))
        (rw (server_of-text k known)))

renormalize :
    (s u v : Text) (k : JidServer)
    → HasParts s u v
    → k ≢ JidServer.unknown
    → normalize_jid (some (u ++ b'@' ∷ server_text k)) ≡ some (u ++ b'@' ∷ server_text k)
renormalize s u v k h known =
    let e = server_of-text k known in
    let again = HasParts-server_text s u v k h known in
    rw (normalize_of_parts _ u (server_text k) again)
      (rw e (rw (server_suffix_known k (u ++ b'@' ∷ server_text k) known)))

normalize_unparsed : (s : Text) → parse_jid (some s) ≡ none → normalize_jid (some s) ≡ some s
unfolding normalize_jid
normalize_unparsed s e = rw e

normalize_twice_parts :
    (s u v : Text)
    → HasOneAt s
    → HasParts s u v
    → normalize_jid (normalize_jid (some s)) ≡ normalize_jid (some s)
normalize_twice_parts s u v one h = elim (unknown-cases (server_of (lower v))) [
  | inl k ↦ ap normalize_jid (normalize_unrecognised s u v one h k)
  | inr k ↦ let e = normalize_recognised s u v h k in rw e (renormalize s u v _ h k)
]

-- On an input with at most one `@`, normalising a second time changes nothing.
pub normalize_idempotent :
    (s : Text) → HasOneAt s → normalize_jid (normalize_jid (some s)) ≡ normalize_jid (some s)
normalize_idempotent s one = elim (Option-cases (parse_jid (some s))) [
  | inl missing ↦ ap normalize_jid (normalize_unparsed s missing)
  | inr (p, found) ↦
      let (v, parts, _, _) = (parse_jid_iff s p).0 found in
      normalize_twice_parts s p.user v one parts
]

-- Two spellings of one recognised server, such as `c.us` and `s.whatsapp.net` in any case, give
-- the same normal form for the same user.
pub normalize_same_server :
    (s t u v w : Text)
    → HasParts s u v
    → HasParts t u w
    → server_of (lower v) ≡ server_of (lower w)
    → server_of (lower v) ≢ JidServer.unknown
    → normalize_jid (some s) ≡ normalize_jid (some t)
normalize_same_server s t u v w hs ht same known =
    rw (normalize_recognised s u v hs known, normalize_recognised t u w ht (rw (← same) known))
      (rw same)

-- Where the user has an `@` of its own and the server is not recognised, the server is replaced
-- by the text between the first two `@`.
pub normalize_two_at :
    (a b c : Text)
    → has b'@' a ≡ false
    → has b'@' b ≡ false
    → HasParts (a ++ b'@' ∷ (b ++ b'@' ∷ c)) (a ++ b'@' ∷ b) c
    → server_of (lower c) ≡ JidServer.unknown
    → normalize_jid (some (a ++ b'@' ∷ (b ++ b'@' ∷ c))) ≡ some ((a ++ b'@' ∷ b) ++ b'@' ∷ b)
normalize_two_at a b c ha hb h k =
    rw (normalize_of_parts _ (a ++ b'@' ∷ b) c h)
      (rw k (rw (second_of_parts b'@' a (b ++ b'@' ∷ c) ha) (rw (before_of_parts b'@' b c hb))))
