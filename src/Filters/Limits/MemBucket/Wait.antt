-- ===== src/Filters/Limits/MemBucket/Wait.antt =====
-- The token buckets of filter/limits/container.go: that a client who waits is served.
use go_relax.Base.{ℕ, ◌-◌, ◌*◌, ◌≤◌, some, true, ◌≡◌, arith}
use go_relax.Text.{Text}
use go_relax.Filters.Limits.MemBucket.{
  Lru, Clock, MemBucket, TokenBucket, minute, refill, fill, consume, store_bucket,
}

refill_full :
    (size rate : ℕ) (t : Clock) (tb : TokenBucket)
    → tb.tokens ≤ size
    → size * minute ≤ rate * (t.later - tb.when)
    → (refill size rate t tb).tokens ≡ size
unfolding refill
refill_full size rate t tb within waited = ground arith

module _ (lru : Lru) where
  open lru use {get}

  -- A call of `Consume` takes its tokens, if they are at most the capacity and the last check of the
  -- key, which is in the cache with a bucket within the capacity, is so long ago that the rate pays for
  -- a full bucket.
  pub consume_waited :
      (t : Clock) (key : Text) (n ref : ℕ) (b : MemBucket lru)
      → (get key b.cache).1 ≡ some ref
      → (b.heap ref).tokens ≤ b.size
      → b.size * minute ≤ b.rate * (t.later - (b.heap ref).when)
      → n ≤ b.size
      → (consume lru t key n b).3 ≡ true
  unfolding consume fill store_bucket
  consume_waited t key n ref b there within waited fits =
      ground (arith, refill_full b.size b.rate t (b.heap ref) within waited)
