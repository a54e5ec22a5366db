-- ===== src/Chats/Identity.antt =====
-- One chat for each contact: what the loop over the visible rows keeps.
use mathlib.Core.List.{Memᴰ}
use mathlib.Core.List.Memᴰ
use zapi_pwa.Base.{
  ◌≡◌, ◌≢◌, refl, sym, ◌∙◌, ◌≤◌, ◌⊎◌, inl, inr, true, false, List, [], ◌∷◌, ◌++◌, append_assoc,
  append-nil, ltb, text_eq, text_eq_iff, Bool-cases, arith, ap, subst,
}
use zapi_pwa.Chats.{RawChat, key_of, ts_of, keep_freshest, dedup_onto, dedup}

-- A row with the same key that is at least as fresh.
pub record IsCovered (c : RawChat) (kept : List RawChat) : Type 0 where
  pub row : RawChat
  pub kept_row : Memᴰ row kept
  pub same_key : key_of row ≡ key_of c
  pub fresher : ts_of c ≤ ts_of row

-- No key occurs twice.
abbrev pub IsDistinct : List RawChat → Type 0
IsDistinct [] = Unit
IsDistinct (d ∷ ds) = ((y : RawChat) → Memᴰ y ds → key_of y ≢ key_of d) × IsDistinct ds

later_covers : (x d : RawChat) (ds : List RawChat) → IsCovered x ds → IsCovered x (d ∷ ds)
later_covers x d ds h = record {
  row = h.row;
  kept_row = Memᴰ.tail h.kept_row;
  same_key = h.same_key;
  fresher = h.fresher;
}

first_covers :
    (x d : RawChat) (ds : List RawChat)
    → key_of d ≡ key_of x
    → ts_of x ≤ ts_of d
    → IsCovered x (d ∷ ds)
first_covers x d ds k h = record { row = d; kept_row = Memᴰ.head refl; same_key = k; fresher = h }

split_covers :
    (x d : RawChat) (ds : List RawChat)
    → IsCovered x (d ∷ ds)
    → ((key_of d ≡ key_of x) × (ts_of x ≤ ts_of d)) ⊎ IsCovered x ds
split_covers x d ds h = elim (Memᴰ.cases_cons h.kept_row) [
  | inl e ↦ inl (sym (ap key_of e) ∙ h.same_key, subst (λ r. ts_of x ≤ ts_of r) e h.fresher)
  | inr m ↦ inr (record { row = h.row; kept_row = m; same_key = h.same_key; fresher = h.fresher })
]

keep-covers_self : (c : RawChat) (ds : List RawChat) → IsCovered c (keep_freshest c ds)
unfolding keep_freshest
keep-covers_self c [] = first_covers c c [] refl (omega arith)
keep-covers_self c (d ∷ ds) = elim (Bool-cases (text_eq (key_of d) (key_of c))) [
  | inl same ↦ elim (Bool-cases (ltb (ts_of d) (ts_of c))) [
    | inl newer ↦ rw (same, newer) (first_covers c c ds refl (omega arith))
    | inr older ↦
        rw (same, older)
          (first_covers c d ds ((text_eq_iff (key_of d) (key_of c)).0 same) (ground arith))
  ]
  | inr other ↦ rw other (later_covers c d (keep_freshest c ds) (keep-covers_self c ds))
]

keep-covers_old :
    (c x : RawChat) (ds : List RawChat) → IsCovered x ds → IsCovered x (keep_freshest c ds)
unfolding keep_freshest
keep-covers_old c x [] h = absurd (Memᴰ.not-nil h.kept_row)
keep-covers_old c x (d ∷ ds) h = elim (Bool-cases (text_eq (key_of d) (key_of c))) [
  | inl same ↦ elim (Bool-cases (ltb (ts_of d) (ts_of c))) [
    | inl newer ↦
        rw (same, newer)
          (elim (split_covers x d ds h) [
            | inl (k, f) ↦
                first_covers x c ds (sym ((text_eq_iff (key_of d) (key_of c)).0 same) ∙ k)
                  (ground arith)
            | inr m ↦ later_covers x c ds m
          ])
    | inr older ↦ rw (same, older) h
  ]
  | inr other ↦ rw other (elim (split_covers x d ds h) [
    | inl (k, f) ↦ first_covers x d (keep_freshest c ds) k f
    | inr m ↦ later_covers x d (keep_freshest c ds) (keep-covers_old c x ds m)
  ])
]

keep-members :
    (c y : RawChat) (ds : List RawChat) → Memᴰ y (keep_freshest c ds) → (y ≡ c) ⊎ Memᴰ y ds
unfolding keep_freshest
keep-members c y [] m = Memᴰ.cases_cons m
keep-members c y (d ∷ ds) m = elim (Bool-cases (text_eq (key_of d) (key_of c))) [
  | inl same ↦ elim (Bool-cases (ltb (ts_of d) (ts_of c))) [
    | inl newer ↦ elim (Memᴰ.cases_cons (rw (same, newer) at m)) [
      | inl e ↦ inl e
      | inr n ↦ inr (Memᴰ.tail n)
    ]
    | inr older ↦ inr (rw (same, older) at m)
  ]
  | inr other ↦ elim (Memᴰ.cases_cons (rw other at m)) [
    | inl e ↦ inr (Memᴰ.head e)
    | inr n ↦ elim (keep-members c y ds n) [ inl e ↦ inl e | inr n' ↦ inr (Memᴰ.tail n') ]
  ]
]

keep-IsDistinct :
    (c : RawChat) (ds : List RawChat) → IsDistinct ds → IsDistinct (keep_freshest c ds)
unfolding keep_freshest
keep-IsDistinct c [] h = (λ y m. absurd (Memᴰ.not-nil m), tt)
keep-IsDistinct c (d ∷ ds) (h, hs) = elim (Bool-cases (text_eq (key_of d) (key_of c))) [
  | inl same ↦ elim (Bool-cases (ltb (ts_of d) (ts_of c))) [
    | inl newer ↦
        rw (same, newer) (λ y m e. h y m (e ∙ sym ((text_eq_iff (key_of d) (key_of c)).0 same)), hs)
    | inr older ↦ rw (same, older) (h, hs)
  ]
  | inr other ↦ rw other (
    λ y m e. elim (keep-members c y ds m) [
      | inl k ↦ absurd (apart c d other (sym e ∙ ap key_of k))
      | inr n ↦ h y n e
    ],
    keep-IsDistinct c ds hs,
  )
]
  where
    apart : (c d : RawChat) → text_eq (key_of d) (key_of c) ≡ false → key_of d ≢ key_of c
    apart c d other e =
        let t : text_eq (key_of d) (key_of c) ≡ true = (text_eq_iff (key_of d) (key_of c)).1 e in
        ground arith

-- What the rows that are kept have to do with all rows.
pub record IsFreshest (rows kept : List RawChat) : Type 0 where
  pub distinct : IsDistinct kept
  pub covered : (c : RawChat) → Memᴰ c rows → IsCovered c kept
  pub taken : (d : RawChat) → Memᴰ d kept → Memᴰ d rows

-- After one more row.
keep-IsFreshest :
    (done : List RawChat) (c : RawChat) (kept : List RawChat)
    → IsFreshest done kept
    → IsFreshest (done ++ c ∷ []) (keep_freshest c kept)
keep-IsFreshest done c kept h = record {
  distinct = keep-IsDistinct c kept h.distinct;
  covered = λ x m. elim (snoc_cases x done c m) [
    | inl old ↦ keep-covers_old c x kept (h.covered x old)
    | inr e ↦ subst (λ y. IsCovered y (keep_freshest c kept)) (sym e) (keep-covers_self c kept)
  ];
  taken = λ d m. elim (keep-members c d kept m) [
    | inl e ↦ Memᴰ.append_right done (Memᴰ.head e)
    | inr old ↦ Memᴰ.append_left (c ∷ []) (h.taken d old)
  ];
}
  where
    snoc_cases :
        (x : RawChat) (done : List RawChat) (c : RawChat)
        → Memᴰ x (done ++ c ∷ [])
        → Memᴰ x done ⊎ (x ≡ c)
    snoc_cases x [] c m = elim (Memᴰ.cases_cons m) [
      | inl e ↦ inr e
      | inr n ↦ absurd (Memᴰ.not-nil n)
    ]
    snoc_cases x (d ∷ done) c m = elim (Memᴰ.cases_cons m) [
      | inl e ↦ inl (Memᴰ.head e)
      | inr n ↦ elim (snoc_cases x done c n) [ inl k ↦ inl (Memᴰ.tail k) | inr e ↦ inr e ]
    ]

dedup_onto-IsFreshest :
    (done kept cs : List RawChat)
    → IsFreshest done kept
    → IsFreshest (done ++ cs) (dedup_onto kept cs)
unfolding dedup_onto
dedup_onto-IsFreshest done kept [] h = rw (append-nil done) h
dedup_onto-IsFreshest done kept (c ∷ cs) h =
    subst (λ rows. IsFreshest rows (dedup_onto (keep_freshest c kept) cs))
      (append_assoc done (c ∷ []) cs)
      (dedup_onto-IsFreshest (done ++ c ∷ []) (keep_freshest c kept) cs
        (keep-IsFreshest done c kept h))

-- Of the rows with one identity exactly one is kept, one of them that is as fresh as any of them.
pub dedup-IsFreshest : (rows : List RawChat) → IsFreshest rows (dedup rows)
unfolding dedup
dedup-IsFreshest rows =
    dedup_onto-IsFreshest [] [] rows
      (record { distinct = tt; covered = λ c m. absurd (Memᴰ.not-nil m); taken = λ d m. m })
