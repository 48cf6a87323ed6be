-- ===== src/Filters/Limits/MemBucket/Isolation.antt =====
-- The buckets of filter/limits/container.go do not share their state.
use go_relax.Base.{
  ℕ, suc, ◌<◌, true, false, none, some, List, [], ◌∷◌, ◌≡◌, refl, sym, ◌∙◌, inl, inr, All, ltb,
  Bool-cases, Option-cases, arith,
}
use go_relax.Text.{Text, text_eq}
use go_relax.Filters.Limits.MemBucket.{
  Lru, Clock, MemBucket, TokenBucket, new_mem_bucket, store_bucket, fill, consume, reset,
}
use go_relax.Filters.Limits.MemBucket.Reachable.{Call, consumes, resets, run_calls}
use go_relax.Filters.Limits.MemBucket.Separate.{
  IsCache, IsSeparate, added-IsSeparate, consume-IsSeparate, reset-IsSeparate,
  new_mem_bucket-IsSeparate,
}

abbrev pub key_of : Call → Text
key_of (consumes t key n) = key
key_of (resets now key) = key

-- The calls are for other keys.
abbrev pub AreOthers : Text → List Call → Type 0
AreOthers other calls = All (λ c. text_eq (key_of c) other ≡ false) calls

module _ (lru : Lru) (laws : IsCache lru) where
  open lru use {C, get, add}

  run_calls-IsSeparate :
      (calls : List Call) (b : MemBucket lru)
      → IsSeparate lru b
      → IsSeparate lru (run_calls lru calls b)
  unfolding run_calls
  run_calls-IsSeparate [] b sep = sep
  run_calls-IsSeparate (consumes t key n ∷ calls) b sep =
      run_calls-IsSeparate calls (consume lru t key n b).0
        (consume-IsSeparate lru laws t key n b sep)
  run_calls-IsSeparate (resets now key ∷ calls) b sep =
      run_calls-IsSeparate calls (reset lru now key b) (reset-IsSeparate lru laws now key b sep)

  module _ (other : Text) (ref : ℕ) where
    -- No other key has the reference, now or later.
    record IsOwned (b : MemBucket lru) : Type 0 where
      taken : ref < b.next_ref
      own : (k : Text) → (get k b.cache).1 ≡ some ref → text_eq k other ≡ true

    -- The bucket behind the reference is as it was, and it still has no other key.
    record IsKept (b b' : MemBucket lru) : Type 0 where
      same : b'.heap ref ≡ b.heap ref
      owned : IsOwned b'

    IsKept-trans : (b c d : MemBucket lru) → IsKept b c → IsKept c d → IsKept b d
    IsKept-trans b c d k l = record { same = l.same ∙ k.same; owned = l.owned }

    get-IsKept :
        (key : Text) (b : MemBucket lru)
        → IsOwned b
        → IsKept b (record b { cache = (get key b.cache).0 })
    get-IsKept key b o = record {
      same = refl;
      owned = record {
        taken = o.taken;
        own = λ k h. o.own k (sym (laws.get_get key k b.cache) ∙ h);
      };
    }

    add-IsKept :
        (key : Text) (b : MemBucket lru)
        → IsSeparate lru b
        → IsOwned b
        → IsKept b
            (record b { cache = add key b.next_ref (get key b.cache).0; next_ref = suc b.next_ref })
    add-IsKept key b sep o = record {
      same = refl;
      owned = record {
        taken = omega (arith, o.taken);
        own = λ k h. elim (added-IsSeparate lru laws key b sep k ref h) [
          | inl (_, new) ↦ absurd (omega (arith, o.taken))
          | inr old ↦ o.own k old
        ];
      };
    }

    store_bucket-IsKept :
        (r : ℕ) (tb : TokenBucket) (b : MemBucket lru)
        → (r ≡ ref → ⊥)
        → IsOwned b
        → IsKept b (store_bucket lru r tb b)
    unfolding store_bucket
    store_bucket-IsKept r tb b differ o = record {
      same = ground arith;
      owned = record { taken = o.taken; own = o.own };
    }

    own_differs :
        (key : Text) (b : MemBucket lru) (r : ℕ)
        → text_eq key other ≡ false
        → IsOwned b
        → (get key b.cache).1 ≡ some r
        → r ≡ ref
        → ⊥
    own_differs key b r differ o there same = ground (arith, o.own key)

    fill-IsKept :
        (t : Clock) (key : Text) (b : MemBucket lru)
        → text_eq key other ≡ false
        → IsSeparate lru b
        → IsOwned b
        → IsKept b (fill lru t key b).0 × ((fill lru t key b).1 ≡ ref → ⊥)
    unfolding fill
    fill-IsKept t key b differ sep o = elim (Option-cases (get key b.cache).1) [
      | inr (r, there) ↦
          let read = get-IsKept key b o in
          let apart = own_differs key b r differ o there in
          rw (there, fill)
            (IsKept-trans b _ _ read (store_bucket-IsKept r _ _ apart read.owned), apart)
      | inl missing ↦
          let added = add-IsKept key b sep o in
          let apart : b.next_ref ≡ ref → ⊥ = λ e. omega (arith, o.taken) in
          rw (missing, fill)
            (IsKept-trans b _ _ added (store_bucket-IsKept b.next_ref _ _ apart added.owned), apart)
    ]

    consume-IsKept :
        (t : Clock) (key : Text) (n : ℕ) (b : MemBucket lru)
        → text_eq key other ≡ false
        → IsSeparate lru b
        → IsOwned b
        → IsKept b (consume lru t key n b).0
    unfolding consume
    consume-IsKept t key n b differ sep o =
        let (b', r) = fill lru t key b in
        let (filled, apart) = fill-IsKept t key b differ sep o in
        elim (Bool-cases (ltb (b'.heap r).tokens n)) [
          | inl short ↦ rw short filled
          | inr enough ↦
              rw enough (IsKept-trans b b' _ filled (store_bucket-IsKept r _ b' apart filled.owned))
        ]

    reset-IsKept :
        (now : ℕ) (key : Text) (b : MemBucket lru)
        → text_eq key other ≡ false
        → IsOwned b
        → IsKept b (reset lru now key b)
    unfolding reset
    reset-IsKept now key b differ o = elim (Option-cases (get key b.cache).1) [
      | inl missing ↦ rw (missing, reset) (get-IsKept key b o)
      | inr (r, there) ↦
          let read = get-IsKept key b o in
          rw (there, reset)
            (IsKept-trans b _ _ read
              (store_bucket-IsKept r _ _ (own_differs key b r differ o there) read.owned))
    ]

    run_calls-IsKept :
        (calls : List Call) (b : MemBucket lru)
        → AreOthers other calls
        → IsSeparate lru b
        → IsOwned b
        → IsKept b (run_calls lru calls b)
    unfolding run_calls
    run_calls-IsKept [] b others sep o = record { same = refl; owned = o }
    run_calls-IsKept (consumes t key n ∷ calls) b (differ, others) sep o =
        let b' = (consume lru t key n b).0 in
        let k = consume-IsKept t key n b differ sep o in
        IsKept-trans b b' _ k
          (run_calls-IsKept calls b' others (consume-IsSeparate lru laws t key n b sep) k.owned)
    run_calls-IsKept (resets now key ∷ calls) b (differ, others) sep o =
        let b' = reset lru now key b in
        let k = reset-IsKept now key b differ o in
        IsKept-trans b b' _ k
          (run_calls-IsKept calls b' others (reset-IsSeparate lru laws now key b sep) k.owned)

  -- After any calls of a new container with an empty cache, calls for other keys leave the bucket of a
  -- key that is in the cache as it is: its tokens, and the time of its last check. A read of the cache
  -- changes no entry, and an addition may only drop other ones.
  pub run_calls-heap :
      (empty : C) (capacity rate : ℕ) (before calls : List Call) (other : Text) (ref : ℕ)
      → ((k : Text) → (get k empty).1 ≡ none)
      → (get other (run_calls lru before (new_mem_bucket lru empty capacity rate)).cache).1
        ≡ some ref
      → AreOthers other calls
      → (run_calls lru calls (run_calls lru before (new_mem_bucket lru empty capacity rate))).heap
          ref
        ≡ (run_calls lru before (new_mem_bucket lru empty capacity rate)).heap ref
  run_calls-heap empty capacity rate before calls other ref nothing there others =
      let b0 = new_mem_bucket lru empty capacity rate in
      let b = run_calls lru before b0 in
      let sep =
        run_calls-IsSeparate before b0
          (new_mem_bucket-IsSeparate lru empty capacity rate nothing) in
      let owned : IsOwned other ref b = record {
        taken = sep.taken other ref there;
        own = λ k h. sep.apart k other ref h there;
      } in
      (run_calls-IsKept other ref calls b others sep owned).same
