-- ===== src/Filters/Limits/RedisBucket/Race.antt =====
-- Two clients of a bucket in a Redis server: `Consume` is no transaction.
use go_relax.Base.{
  ℕ, suc, ◌+◌, ◌≤◌, ◌<◌, true, false, Bool, Option, none, some, ◌≡◌, refl, ℤ, pos, ◌-ℤ◌, ltz, ap,
  ◌∙◌, arith,
}
use go_relax.Text.{Text}
use go_relax.Filters.Limits.MemBucket.{wait}
use go_relax.Filters.Limits.RedisBucket.{Redis, RedisBucket, fill, consume_filled}
use go_relax.Filters.Limits.RedisBucket.Tokens.{IsLive, IsFilled, fill-Holds, take-tokens_of}

below_zero : (f n : ℕ) → f < n + n → ltz ((pos f -ℤ pos n) -ℤ pos n) (pos 0) ≡ true
below_zero f n h = ground arith

module _ (r : Redis) where
  open r use {S}

  abbrev Answer : Type 0
  Answer = Option (ℤ × ℕ × Bool)

  -- Both clients have called `fill` before one of them goes on to DECRBY.
  pub consume_at_once : RedisBucket → Text → ℕ → S → S × Answer × Answer
  consume_at_once b key n s =
      let (s1, first) = fill r b key s in
      let (s2, second) = fill r b key s1 in
      let (s3, a) = consume_filled r b key n (s2, first) in
      let (s4, a') = consume_filled r b key n (s3, second) in (s4, a, a')

  abbrev pub was_taken : Answer → Bool
  was_taken none = false
  was_taken (some (left, time, ok)) = ok

  module _ (live : IsLive r) (b : RedisBucket) (w : ℕ)
      (waits : wait b.rate b.size ≡ some (suc w)) where
    open live use {tokens_of}

    taken :
        (key : Text) (n f : ℕ) (s : S)
        → n ≤ f
        → (was_taken (consume_filled r b key n (s, some (pos f))).1 ≡ true)
          × (tokens_of key (consume_filled r b key n (s, some (pos f))).0
              ≡ tokens_of key s -ℤ pos n)
    unfolding consume_filled
    taken key n f s enough =
        let plenty : ltz (pos f) (pos n) ≡ false = ground arith in
        let (left, kept) = take-tokens_of r live b w waits key n s in
        (rw (plenty, waits) refl, rw plenty kept)

    -- If two clients ask for `n` tokens of a bucket that has as many, and both have read it before one
    -- takes, then both take `n` tokens, also where even a full bucket has less than both want together:
    -- the tokens of the bucket are then below zero.
    pub consume_at_once_overspends :
        (key : Text) (n t : ℕ) (s : S)
        → tokens_of key s ≡ pos t
        → t ≤ b.size
        → n ≤ t
        → b.size < n + n
        → (f : ℕ) × IsFilled b.size t f
          × (was_taken (consume_at_once b key n s).1 ≡ true)
          × (was_taken (consume_at_once b key n s).2 ≡ true)
          × (tokens_of key (consume_at_once b key n s).0 ≡ (pos f -ℤ pos n) -ℤ pos n)
          × (ltz (tokens_of key (consume_at_once b key n s).0) (pos 0) ≡ true)
    unfolding consume_at_once
    consume_at_once_overspends key n t s has within enough short =
        let (f1, filled1, out1, kept1) = fill-Holds r live b w waits key t s has within in
        let s1 = (fill r b key s).0 in
        let (f2, filled2, out2, kept2) =
          fill-Holds r live b w waits key f1 s1 kept1 filled1.within in
        let s2 = (fill r b key s1).0 in
        let (took, left) = taken key n f1 s2 (omega (arith, filled1.grown)) in
        let s3 = (consume_filled r b key n (s2, some (pos f1))).0 in
        let (took', left') = taken key n f2 s3 (omega (arith, filled1.grown, filled2.grown)) in
        let spent : tokens_of key (consume_at_once b key n s).0 ≡ (pos f2 -ℤ pos n) -ℤ pos n =
          rw (out1, out2) (left' ∙ ap (λ v. v -ℤ pos n) (left ∙ ap (λ v. v -ℤ pos n) kept2)) in
        (
          f2,
          record { grown = omega (arith, filled1.grown, filled2.grown); within = filled2.within },
          rw out1 took,
          rw (out1, out2) took',
          spent,
          rw spent (below_zero f2 n (omega (arith, filled2.within))),
        )
