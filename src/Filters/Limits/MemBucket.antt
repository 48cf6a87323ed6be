-- ===== src/Filters/Limits/MemBucket.antt =====
-- filter/limits/container.go and util.go: token buckets in a cache. The library lru is a parameter: a
-- cache maps keys to references, and the buckets stand behind the references, as pointers do.
-- Calls come one after another: the locks of lru guard the cache, and nothing guards a bucket.
-- Times are nanoseconds, and tokens, capacity and rate are not negative. The float64 arithmetic is
-- read as that of the exact numbers.
pub mod Rate
pub mod Wait
pub mod Reachable
pub mod Separate
pub mod Isolation
use go_relax.Base.{
  [], ℕ, suc, ◌+◌, ◌-◌, ◌*◌, ◌/◌, ◌%◌, Bool, true, false, Option, none, some, ltb, ◌==◌,
  if◌then◌else◌,
}
use go_relax.Text.{Text, cut_last}

-- What is used of lru: a read may change the order of use, and an addition may drop another key.
pub record Lru : Type 1 where
  pub C : Type 0
  pub get : Text → C → C × Option ℕ
  pub add : Text → ℕ → C → C

pub record TokenBucket : Type 0 where
  pub tokens : ℕ
  pub when : ℕ

-- Min
unfoldable pub min_int : ℕ → ℕ → ℕ
min_int a b = if ltb a b then a else b

-- SplitPort
unfoldable pub split_port : Text → Text × Text
unfolding cut_last
split_port addr = elim (cut_last b':' addr) [ none ↦ (addr, []) | some parts ↦ parts ]

module _ (lru : Lru) where
  open lru use {C}

  pub record MemBucket : Type 0 where
    pub size : ℕ
    pub rate : ℕ
    pub cache : C
    pub heap : ℕ → TokenBucket
    pub next_ref : ℕ

  -- NewMemBucket, for an empty cache with room for `maxKeys`
  unfoldable pub new_mem_bucket : C → ℕ → ℕ → MemBucket
  new_mem_bucket empty capacity rate = record {
    size = capacity;
    rate = rate;
    cache = empty;
    heap = λ r. record { tokens = 0; when = 0 };
    next_ref = 0;
  }

  -- A write through a pointer
  unfoldable pub store_bucket : ℕ → TokenBucket → MemBucket → MemBucket
  store_bucket ref tb b = record b { heap = λ r. if r == ref then tb else b.heap r }

-- int(float64(Rate) * since.Minutes()): a minute has 60 * 10^9 nanoseconds.
abbrev pub minute : ℕ
minute = 60000000000

-- What `fill` reads of the clock: the time at its start, which it saves, and the later one that
-- time.Since reads for a bucket that is not full.
pub record Clock : Type 0 where
  pub now : ℕ
  pub later : ℕ

-- The refill of `fill`: tokens for the time from the last check to the later reading, up to the
-- capacity; the time that is saved is the one at the start.
unfoldable pub refill : ℕ → ℕ → Clock → TokenBucket → TokenBucket
unfolding min_int
refill size rate t tb =
    if ltb tb.tokens size
    then record {
      tokens = min_int size (tb.tokens + (rate * (t.later - tb.when)) / minute);
      when = t.now;
    }
    else record tb { when = t.now }

-- wait: `none` is the panic of a division by zero.
unfoldable pub wait : ℕ → ℕ → Option ℕ
wait rate needed = if rate == 0 then none else some (needed / rate + (needed % rate) / 1000000000)

module _ (lru : Lru) where
  open lru use {C, get, add}

  -- fill: the bucket behind a key, made full where there is none.
  unfoldable pub fill : Clock → Text → MemBucket lru → MemBucket lru × ℕ
  unfolding store_bucket refill
  fill t key b =
      let (cache, found) = get key b.cache in
      elim found [
        | some ref ↦ (
          store_bucket lru ref (refill b.size b.rate t (b.heap ref)) (record b { cache = cache }),
          ref,
        )
        | none ↦ (
          store_bucket lru b.next_ref (record { tokens = b.size; when = t.now })
              (record b { cache = add key b.next_ref cache; next_ref = suc b.next_ref }),
          b.next_ref,
        )
      ]

  -- Consume: the tokens that are left, the time to wait, and whether they were taken. A call is one
  -- step here; the program takes no lock between the test of the tokens and the subtraction.
  unfoldable pub consume : Clock → Text → ℕ → MemBucket lru → MemBucket lru × ℕ × Option ℕ × Bool
  unfolding wait store_bucket
  consume t key n b =
      let (b', ref) = fill t key b in
      let tb = b'.heap ref in
      if ltb tb.tokens n then (b', tb.tokens, wait b'.rate (n - tb.tokens), false) else (
        store_bucket lru ref (record tb { tokens = tb.tokens - n }) b',
        tb.tokens - n,
        wait b'.rate b'.size,
        true,
      )

  -- Reset
  unfoldable pub reset : ℕ → Text → MemBucket lru → MemBucket lru
  unfolding store_bucket
  reset now key b =
      let (cache, found) = get key b.cache in
      elim found [
        | none ↦ record b { cache = cache }
        | some ref ↦
            store_bucket lru ref (record { tokens = b.size; when = now })
              (record b { cache = cache })
      ]

  -- Capacity
  unfoldable pub capacity : MemBucket lru → ℕ
  capacity b = b.size
