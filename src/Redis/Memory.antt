-- ===== src/Redis/Memory.antt =====
-- A store in memory that meets the documentation: the assumptions can hold.
use zapi_pwa.Base.{
  ℕ, ◌+◌, ◌≡◌, refl, ap, ◌∙◌, Option, none, some, List, [], ◌∷◌, ◌++◌, if◌then◌else◌, Text, text_eq,
  text_eq_iff, length, text_eq_refl, Bool-cases, inl, inr,
}
use zapi_pwa.Redis.{Redis, IsLawful, Reply}

pub record Store : Type 0 where
  pub values : Text → Option Text
  pub counts : Text → ℕ
  pub lists : Text → List Text

abbrev pub empty : Store
empty = record { values = λ k. none; counts = λ k. 0; lists = λ k. [] }

abbrev update {ℓ} : {A : Type ℓ} → Text → A → (Text → A) → Text → A
update k a f j = if text_eq k j then a else f j

-- The list without its last item, and that item.
abbrev unsnoc : List Text → Option Reply × List Text
unsnoc [] = (none, [])
unsnoc (x ∷ []) = (some (Reply.string x), [])
unsnoc (x ∷ y ∷ xs) = let (last, init) = unsnoc (y ∷ xs) in (last, x ∷ init)

abbrev pop_into : Text → Store → Option Reply × List Text → Option Reply × Store
pop_into k s (none, rest) = (none, s)
pop_into k s (some v, rest) = (some v, record s { lists = update k rest s.lists })

abbrev pub memory : Redis
memory = record {
  State = Store;
  get = λ k s. s.values k;
  set_ex = λ k v n s. record s { values = update k (some v) s.values };
  incr = λ k s. (s.counts k + 1, record s { counts = update k (s.counts k + 1) s.counts });
  expire = λ k n s. s;
  del = λ k s. record s { values = update k none s.values; counts = update k 0 s.counts };
  lpush = λ k v s. record s { lists = update k (v ∷ s.lists k) s.lists };
  rpop = λ k s. pop_into k s (unsnoc (s.lists k));
  llen = λ k s. length (s.lists k);
  count = λ s k. s.counts k;
  items = λ s k. s.lists k;
}

unsnoc-append : (xs : List Text) (v : Text) → unsnoc (xs ++ v ∷ []) ≡ (some (Reply.string v), xs)
unsnoc-append [] v = refl
unsnoc-append (x ∷ []) v = refl
unsnoc-append (x ∷ y ∷ xs) v = rw (unsnoc-append (y ∷ xs) v)

lists-push :
    (k v : Text) (s : Store) (j : Text)
    → update k (v ∷ s.lists k) s.lists j ≡ (if text_eq k j then v ∷ s.lists j else s.lists j)
lists-push k v s j = elim (Bool-cases (text_eq k j)) [
  | inl same ↦ rw (same, (text_eq_iff k j).0 same)
  | inr other ↦ rw other
]

values-pop :
    (k : Text) (s : Store) (out : Option Reply × List Text) → (pop_into k s out).1.values ≡ s.values
values-pop k s (none, rest) = refl
values-pop k s (some v, rest) = refl

module _ (k v : Text) (xs : List Text) (s : Store) (e : s.lists k ≡ xs ++ v ∷ []) where
  pop-append :
      pop_into k s (unsnoc (s.lists k))
      ≡ (some (Reply.string v), record s { lists = update k xs s.lists })
  pop-append = rw e (rw (unsnoc-append xs v))

pub memory-IsLawful : IsLawful memory
memory-IsLawful = record {
  get-set_ex = λ k v n s j. refl;
  get-del = λ k s j. refl;
  get-incr = λ k s j h. refl;
  get-expire = λ k n s j. refl;
  incr_lem = λ k s. refl;
  count-incr = λ k s. rw (text_eq_refl k);
  count-expire = λ k n s j. refl;
  count-set_ex = λ k v n s j h. refl;
  count-del = λ k s j. refl;
  items-set_ex = λ k v n s j h. refl;
  items-del = λ k s j h. refl;
  items-incr = λ k s j h. refl;
  items-expire = λ k n s j. refl;
  items-lpush = λ k v s j. lists-push k v s j;
  rpop_empty = λ k s e. rw e;
  items-rpop = λ k v xs s j e. rw (pop-append k v xs s e);
  get-rpop = λ k s j. ap (λ f. f j) (values-pop k s (unsnoc (s.lists k)));
  llen_lem = λ k s. refl;
}

abbrev as_object : Option Reply × Store → Option Reply × Store
as_object (none, s) = (none, s)
as_object (some v, s) = (some Reply.object, s)

-- The same store behind a client that parses stored JSON by itself.
abbrev pub parsing_memory : Redis
parsing_memory = record memory { rpop = λ k s. as_object (memory.rpop k s) }

object-state : (out : Option Reply × Store) → (as_object out).1 ≡ out.1
object-state (none, s) = refl
object-state (some v, s) = refl

pub parsing_memory-IsLawful : IsLawful parsing_memory
parsing_memory-IsLawful = record {
  get-set_ex = memory-IsLawful.get-set_ex;
  get-del = memory-IsLawful.get-del;
  get-incr = memory-IsLawful.get-incr;
  get-expire = memory-IsLawful.get-expire;
  incr_lem = memory-IsLawful.incr_lem;
  count-incr = memory-IsLawful.count-incr;
  count-expire = memory-IsLawful.count-expire;
  count-set_ex = memory-IsLawful.count-set_ex;
  count-del = memory-IsLawful.count-del;
  items-set_ex = memory-IsLawful.items-set_ex;
  items-del = memory-IsLawful.items-del;
  items-incr = memory-IsLawful.items-incr;
  items-expire = memory-IsLawful.items-expire;
  items-lpush = memory-IsLawful.items-lpush;
  llen_lem = memory-IsLawful.llen_lem;
  get-rpop = λ k s j.
      ap (λ t. t.values j) (object-state (memory.rpop k s)) ∙ memory-IsLawful.get-rpop k s j;
  rpop_empty = λ k s e. rw e;
  items-rpop = λ k v xs s j e. rw (pop-append k v xs s e);
}

pub memory_pops :
    (k v : Text) (xs : List Text) (s : Store)
    → s.lists k ≡ xs ++ v ∷ []
    → (memory.rpop k s).0 ≡ some (Reply.string v)
memory_pops k v xs s e = rw (pop-append k v xs s e)

pub parsing_memory_pops :
    (k v : Text) (xs : List Text) (s : Store)
    → s.lists k ≡ xs ++ v ∷ []
    → (parsing_memory.rpop k s).0 ≡ some Reply.object
parsing_memory_pops k v xs s e = rw (pop-append k v xs s e)
