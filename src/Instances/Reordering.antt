-- ===== src/Instances/Reordering.antt =====
-- The order of the instances of a user.
use zapi_pwa.Base.{
  AreDistinct, ℕ, zero, suc, ◌+◌, ◌≡◌, refl, subst, sym, ap, ◌∙◌, Bool, true, false, ◌&&◌, some,
  List, [], ◌∷◌, ◌++◌, if◌then◌else◌, get_elem?, Text, text_eq, text_eq_iff, mem_text, arith,
}
use zapi_pwa.Effect.{Outcome, returned, thrown}
use zapi_pwa.Routes.{answered}
use zapi_pwa.Instances.{Call, order_set, Services, World, after_call, perform_call, reorder_from}

-- What the database is known for: an update of `sort_order` for an identifier and a user that
-- succeeds sets the order of that instance, if it is the user's, and changes no other.
pub record IsTable (v : Services) : Type 0 where
  pub order_of : Text → v.State → ℕ
  pub owns : Text → Text → v.State → Bool
  pub order_of-run :
      (user id : Text) (n : ℕ) (s s' : v.State)
      → v.run (order_set user id n) s ≡ (returned tt, s')
      → (j : Text) → order_of j s' ≡ (if text_eq j id && owns user j s then n else order_of j s)
  pub owns-run :
      (user id : Text) (n : ℕ) (s s' : v.State)
      → v.run (order_set user id n) s ≡ (returned tt, s')
      → (j : Text) → owns user j s' ≡ owns user j s

module _ (v : Services) (table : IsTable v) where
  -- The update of one identifier that succeeds, and what follows it.
  one_step :
      (user id : Text) (n : ℕ) (ids : List Text) (log : List Call) (s : v.State) (w' : World v)
      → reorder_from v user n (id ∷ ids) (log, s) ≡ (answered tt, w')
      → (s₁ : v.State) × (v.run (order_set user id n) s ≡ (returned tt, s₁))
        × (reorder_from v user (n + 1) ids (log ++ order_set user id n ∷ [], s₁)
            ≡ (answered tt, w'))
  unfolding reorder_from perform_call
  one_step user id n ids log s w' h = go (v.run (order_set user id n) s) refl h
    where
      go :
          (res : Outcome (Unit {0}) × v.State)
          → v.run (order_set user id n) s ≡ res
          → after_call v (reorder_from v user (n + 1) ids) (log ++ order_set user id n ∷ []) res
            ≡ (answered tt, w')
          → (s₁ : v.State) × (v.run (order_set user id n) s ≡ (returned tt, s₁))
            × (reorder_from v user (n + 1) ids (log ++ order_set user id n ∷ [], s₁)
                ≡ (answered tt, w'))
      go (thrown e, s₁) r k = cc
      go (returned _, s₁) r k = (s₁, r, k)

  -- An instance that is not named, or is not the user's, keeps its order.
  kept :
      (user : Text) (n : ℕ) (ids : List Text) (w w' : World v) (j : Text)
      → reorder_from v user n ids w ≡ (answered tt, w')
      → (mem_text j ids && table.owns user j w.1) ≡ false
      → (table.order_of j w'.1 ≡ table.order_of j w.1)
        × (table.owns user j w'.1 ≡ table.owns user j w.1)
  unfolding reorder_from
  kept user n [] w w' j h out =
      let e : w ≡ w' = ap (λ o. o.1) h in
      (ap (λ x. table.order_of j x.1) (sym e), ap (λ x. table.owns user j x.1) (sym e))
  kept user n (id ∷ ids) (log, s) w' j h out =
      let (s₁, r, rest) = one_step user id n ids log s w' h in
      let same = table.owns-run user id n s s₁ r j in
      let out₁ : (mem_text j ids && table.owns user j s₁) ≡ false = rw same (ground arith) in
      let ih = kept user (n + 1) ids (log ++ order_set user id n ∷ [], s₁) w' j rest out₁ in
      let first : table.order_of j s₁ ≡ table.order_of j s =
        ground (arith, table.order_of-run user id n s s₁ r j) in
      (ih.0 ∙ first, ih.1 ∙ same)

  -- The k-th named identifier gets the order `n + k`.
  placed :
      (user : Text) (n k : ℕ) (ids : List Text) (w w' : World v) (id : Text)
      → reorder_from v user n ids w ≡ (answered tt, w')
      → AreDistinct ids
      → get_elem? ids k ≡ some id
      → table.owns user id w.1 ≡ true
      → table.order_of id w'.1 ≡ n + k
  placed user n k [] w w' id h d at own = cc
  placed user n zero (i ∷ ids) (log, s) w' id h d at own =
      let (s₁, r, rest) = one_step user i n ids log s w' h in
      let e : i ≡ id = cc in
      let absent : mem_text id ids ≡ false = subst (λ x. mem_text x ids ≡ false) e d.0 in
      let k =
        kept user (n + 1) ids (log ++ order_set user i n ∷ [], s₁) w' id rest (rw absent refl) in
      let hit : text_eq id i ≡ true = (text_eq_iff id i).1 (sym e) in
      let set = table.order_of-run user i n s s₁ r id in k.0 ∙ set ∙ rw hit (rw own (omega arith))
  placed user n (suc k) (i ∷ ids) (log, s) w' id h d at own =
      let (s₁, r, rest) = one_step user i n ids log s w' h in
      placed user (n + 1) k ids (log ++ order_set user i n ∷ [], s₁) w' id rest d.1 at
        (table.owns-run user i n s s₁ r id ∙ own)
      ∙ omega arith

  -- When a reordering succeeds, each instance of the user that is named stands at its position in
  -- the given order, if none is named twice, and every other instance keeps its order: those that
  -- are not named, and those of other users, also if they are named.
  pub reorder-IsPlaced :
      (user : Text) (ids : List Text) (w w' : World v)
      → reorder_from v user 0 ids w ≡ (answered tt, w')
      → AreDistinct ids
      → ((k : ℕ) (id : Text)
          → get_elem? ids k ≡ some id
          → table.owns user id w.1 ≡ true
          → table.order_of id w'.1 ≡ k)
        × ((j : Text)
            → (mem_text j ids && table.owns user j w.1) ≡ false
            → table.order_of j w'.1 ≡ table.order_of j w.1)
  reorder-IsPlaced user ids w w' h d = (
    λ k id at own. placed user 0 k ids w w' id h d at own ∙ omega arith,
    λ j out. (kept user 0 ids w w' j h out).0,
  )
