-- ===== src/Filters/Limits/Container/Spec.antt =====
-- A bucket in memory meets the same contract as one in a Redis server.
use go_relax.Base.{ℕ, ◌≤◌, some, ◌≡◌, leb, arith}
use go_relax.Text.{Text}
use go_relax.Filters.Limits.MemBucket.{
  Lru, Clock, MemBucket, TokenBucket, refill, fill, consume, store_bucket,
}
use go_relax.Filters.Limits.RedisBucket.Tokens.{IsFilled, left_after}

refill-IsFilled :
    (size rate : ℕ) (t : Clock) (tb : TokenBucket)
    → tb.tokens ≤ size
    → IsFilled size tb.tokens (refill size rate t tb).tokens
unfolding refill
refill-IsFilled size rate t tb h = ground arith

module _ (lru : Lru) where
  open lru use {get}

  -- A call of `Consume` on the bucket of a key in the cache, with at most the capacity, first fills it up
  -- to some `f` that is no less than its tokens and no more than the capacity. It then takes `n` tokens
  -- exactly if they are there, and the tokens that it returns are those that it leaves in the bucket.
  pub consume-tokens :
      (t : Clock) (key : Text) (n ref : ℕ) (b : MemBucket lru)
      → (get key b.cache).1 ≡ some ref
      → (b.heap ref).tokens ≤ b.size
      → (f : ℕ) × IsFilled b.size (b.heap ref).tokens f
        × ((consume lru t key n b).1 ≡ left_after f n)
        × ((consume lru t key n b).3 ≡ leb n f)
        × (((consume lru t key n b).0.heap ref).tokens ≡ left_after f n)
  unfolding consume fill store_bucket
  consume-tokens t key n ref b there within =
      let full = refill b.size b.rate t (b.heap ref) in
      (
        full.tokens,
        refill-IsFilled b.size b.rate t (b.heap ref) within,
        ground arith,
        ground arith,
        ground arith,
      )
