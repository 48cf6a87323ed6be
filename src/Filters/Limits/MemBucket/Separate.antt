-- ===== src/Filters/Limits/MemBucket/Separate.antt =====
-- The cache of filter/limits/container.go holds pointers, and no two keys have the same one.
use go_relax.Base.{
  ℕ, suc, ◌<◌, true, false, none, some, ◌≡◌, ◌⊎◌, sym, ◌∙◌, inl, inr, ltb, Bool-cases, Option-cases,
  arith,
}
use go_relax.Text.{Text, text_eq}
use go_relax.Text.Laws.{text_eq_refl, text_eq_iff}
use go_relax.Filters.Limits.MemBucket.{
  Lru, Clock, MemBucket, TokenBucket, new_mem_bucket, store_bucket, fill, consume, reset,
}

-- A read changes no entry. An addition makes its key an entry, and may drop entries.
pub record IsCache (lru : Lru) : Type 0 where
  pub get_get : (k j : Text) (c : lru.C) → (lru.get j (lru.get k c).0).1 ≡ (lru.get j c).1
  pub get_added :
      (k : Text) (ref : ℕ) (c : lru.C)
      → ((lru.get k (lru.add k ref c)).1 ≡ none) ⊎ ((lru.get k (lru.add k ref c)).1 ≡ some ref)
  pub get_others :
      (k j : Text) (ref : ℕ) (c : lru.C)
      → text_eq k j ≡ false
      → ((lru.get j (lru.add k ref c)).1 ≡ none)
        ⊎ ((lru.get j (lru.add k ref c)).1 ≡ (lru.get j c).1)

module _ (lru : Lru) where
  open lru use {C, get, add}

  -- Different keys have different references, all of them taken.
  pub record IsSeparate (b : MemBucket lru) : Type 0 where
    pub taken : (k : Text) (r : ℕ) → (get k b.cache).1 ≡ some r → r < b.next_ref
    pub apart :
        (k j : Text) (r : ℕ)
        → (get k b.cache).1 ≡ some r
        → (get j b.cache).1 ≡ some r
        → text_eq k j ≡ true

  pub new_mem_bucket-IsSeparate :
      (empty : C) (capacity rate : ℕ)
      → ((k : Text) → (get k empty).1 ≡ none)
      → IsSeparate (new_mem_bucket lru empty capacity rate)
  unfolding new_mem_bucket
  new_mem_bucket-IsSeparate empty capacity rate nothing = record {
    taken = λ k r there. cc (nothing k);
    apart = λ k j r there _. cc (nothing k);
  }

  module _ (laws : IsCache lru) where
    pub added-IsSeparate :
        (key : Text) (b : MemBucket lru)
        → IsSeparate b
        → (k : Text) (r : ℕ) → (get k (add key b.next_ref (get key b.cache).0)).1 ≡ some r
        → ((text_eq key k ≡ true) × (r ≡ b.next_ref)) ⊎ ((get k b.cache).1 ≡ some r)
    added-IsSeparate key b sep k r there = elim (Bool-cases (text_eq key k)) [
      | inl same ↦
          let e = (text_eq_iff key k).0 same in
          elim (laws.get_added key b.next_ref (get key b.cache).0) [
            | inl dropped ↦ absurd (ground (arith, e))
            | inr kept ↦ inl (same, ground (arith, e))
          ]
      | inr other ↦ elim (laws.get_others key k b.next_ref (get key b.cache).0 other) [
        | inl dropped ↦ absurd (ground arith)
        | inr kept ↦ inr (sym (laws.get_get key k b.cache) ∙ sym kept ∙ there)
      ]
    ]

    -- A read of the cache, and a write to the heap, change no entry.
    pub get-IsSeparate :
        (key : Text) (b : MemBucket lru)
        → IsSeparate b
        → IsSeparate (record b { cache = (get key b.cache).0 })
    get-IsSeparate key b sep = record {
      taken = λ k r h. sep.taken k r (sym (laws.get_get key k b.cache) ∙ h);
      apart = λ k j r h h'.
          sep.apart k j r (sym (laws.get_get key k b.cache) ∙ h)
            (sym (laws.get_get key j b.cache) ∙ h');
    }

    pub store_bucket-IsSeparate :
        (ref : ℕ) (tb : TokenBucket) (b : MemBucket lru)
        → IsSeparate b
        → IsSeparate (store_bucket lru ref tb b)
    unfolding store_bucket
    store_bucket-IsSeparate ref tb b sep = record { taken = sep.taken; apart = sep.apart }

    pub add-IsSeparate :
        (key : Text) (b : MemBucket lru)
        → IsSeparate b
        → IsSeparate
            (record b { cache = add key b.next_ref (get key b.cache).0; next_ref = suc b.next_ref })
    add-IsSeparate key b sep = record {
      taken = λ k r h. elim (added-IsSeparate key b sep k r h) [
        | inl (same, new) ↦ omega arith
        | inr old ↦ omega (arith, sep.taken k r old)
      ];
      apart = λ k j r h h'. elim (added-IsSeparate key b sep k r h) [
        | inl (same, new) ↦ elim (added-IsSeparate key b sep j r h') [
          | inl (same', new') ↦
              ground (arith, text_eq_iff key k, text_eq_iff key j, text_eq_refl key)
          | inr old' ↦ absurd (omega (arith, sep.taken j r old'))
        ]
        | inr old ↦ elim (added-IsSeparate key b sep j r h') [
          | inl (same', new') ↦ absurd (omega (arith, sep.taken k r old))
          | inr old' ↦ sep.apart k j r old old'
        ]
      ];
    }

    pub fill-IsSeparate :
        (t : Clock) (key : Text) (b : MemBucket lru)
        → IsSeparate b
        → IsSeparate (fill lru t key b).0
    unfolding fill
    fill-IsSeparate t key b sep = elim (Option-cases (get key b.cache).1) [
      | inr (ref, there) ↦
          rw (there, fill) (store_bucket-IsSeparate ref _ _ (get-IsSeparate key b sep))
      | inl missing ↦
          rw (missing, fill) (store_bucket-IsSeparate b.next_ref _ _ (add-IsSeparate key b sep))
    ]

    pub consume-IsSeparate :
        (t : Clock) (key : Text) (n : ℕ) (b : MemBucket lru)
        → IsSeparate b
        → IsSeparate (consume lru t key n b).0
    unfolding consume
    consume-IsSeparate t key n b sep =
        let (b', ref) = fill lru t key b in
        let filled = fill-IsSeparate t key b sep in
        elim (Bool-cases (ltb (b'.heap ref).tokens n)) [
          | inl short ↦ rw short filled
          | inr enough ↦ rw enough (store_bucket-IsSeparate ref _ b' filled)
        ]

    pub reset-IsSeparate :
        (now : ℕ) (key : Text) (b : MemBucket lru) → IsSeparate b → IsSeparate (reset lru now key b)
    unfolding reset
    reset-IsSeparate now key b sep = elim (Option-cases (get key b.cache).1) [
      | inl missing ↦ rw (missing, reset) (get-IsSeparate key b sep)
      | inr (ref, there) ↦
          rw (there, reset) (store_bucket-IsSeparate ref _ _ (get-IsSeparate key b sep))
    ]
