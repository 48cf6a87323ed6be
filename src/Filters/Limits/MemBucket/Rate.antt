-- ===== src/Filters/Limits/MemBucket/Rate.antt =====
-- The token buckets of filter/limits/container.go: what a client can take.
use go_relax.Base.{
  inl, inr, Option-cases, some, ap, ℕ, ◌+◌, ◌-◌, ◌*◌, ◌≤◌, List, [], ◌∷◌, ◌≡◌, ltb, arith,
  if◌then◌else◌,
}
use go_relax.Text.{Text}
use go_relax.Filters.Limits.MemBucket.{
  fill, reset, store_bucket, Lru, MemBucket, consume, TokenBucket, minute, refill, Clock,
}

-- One call of `Consume` on the bucket of a key: the bucket behind it, and the tokens that were taken.
pub take_tokens : ℕ → ℕ → Clock → ℕ → TokenBucket → TokenBucket × ℕ
take_tokens size rate t n tb =
    let full = refill size rate t tb in
    if ltb full.tokens n then (full, 0) else (record full { tokens = full.tokens - n }, n)

-- A run of calls, each with its clock and its number of tokens: the bucket and the tokens taken.
pub take_all : ℕ → ℕ → List (Clock × ℕ) → TokenBucket → TokenBucket × ℕ
take_all size rate [] tb = (tb, 0)
take_all size rate ((t, n) ∷ calls) tb =
    let (tb', taken) = take_tokens size rate t n tb in
    let (tb'', more) = take_all size rate calls tb' in (tb'', taken + more)

-- The clock does not go back, between the calls and in each of them.
abbrev pub AreOrdered : ℕ → List (Clock × ℕ) → Type 0
AreOrdered from [] = Unit
AreOrdered from ((t, n) ∷ calls) = (from ≤ t.now) × (t.now ≤ t.later) × AreOrdered t.now calls

-- The time at the start of the last call
abbrev pub last_time : ℕ → List (Clock × ℕ) → ℕ
last_time from [] = from
last_time from ((t, n) ∷ calls) = last_time t.now calls

-- The time between the two readings of the clock, of all the calls
abbrev pub between_readings : List (Clock × ℕ) → ℕ
between_readings [] = 0
between_readings ((t, n) ∷ calls) = (t.later - t.now) + between_readings calls

pub refill-le :
    (size rate : ℕ) (t : Clock) (tb : TokenBucket)
    → tb.tokens ≤ size
    → (refill size rate t tb).tokens ≤ size
unfolding refill
refill-le size rate t tb h = ground arith

mul_sub_split : (r a b : ℕ) → a ≤ b → r * b ≡ r * a + r * (b - a)
mul_sub_split r a b h =
    let e : b ≡ a + (b - a) = omega arith in omega (arith, ap (λ (t : ℕ). r * t) e)

-- What a refill adds is at most the rate for the time from the last check to the later reading of the
-- clock, and the time it saves is the earlier one.
refill_rate :
    (size rate : ℕ) (t : Clock) (tb : TokenBucket)
    → tb.when ≤ t.later
    → ((refill size rate t tb).tokens * minute + rate * tb.when
        ≤ tb.tokens * minute + rate * t.later)
      × ((refill size rate t tb).when ≡ t.now)
unfolding refill
refill_rate size rate t tb h = ground (arith, mul_sub_split rate tb.when t.later h)

take_tokens_rate :
    (size rate : ℕ) (t : Clock) (n : ℕ) (tb : TokenBucket)
    → tb.when ≤ t.now
    → t.now ≤ t.later
    → ((take_tokens size rate t n tb).1 * minute
          + (take_tokens size rate t n tb).0.tokens * minute
          + rate * tb.when
        ≤ tb.tokens * minute + rate * t.now + rate * (t.later - t.now))
      × ((take_tokens size rate t n tb).0.when ≡ t.now)
unfolding take_tokens
take_tokens_rate size rate t n tb h later =
    let h' : tb.when ≤ t.later = omega arith in
    ground (arith, refill_rate size rate t tb h', mul_sub_split rate t.now t.later later)

module _ (lru : Lru) where
  open lru use {C, get}

  -- A run of calls of `Consume` for one key, each with its clock and its number of tokens: the bucket,
  -- and the tokens of the calls that succeeded.
  unfoldable pub consume_all : Text → List (Clock × ℕ) → MemBucket lru → MemBucket lru × ℕ
  consume_all key [] b = (b, 0)
  consume_all key ((t, n) ∷ calls) b =
      let (b', left, when, ok) = consume lru t key n b in
      let (b'', more) = consume_all key calls b' in (b'', (if ok then n else 0) + more)

  -- A key that is in the cache is still there after it was read.
  abbrev pub KeepsRead : Type 0
  KeepsRead =
      (key : Text) (ref : ℕ) (c : C)
      → (get key c).1 ≡ some ref
      → (get key (get key c).0).1 ≡ some ref

  consume_step :
      (t : Clock) (key : Text) (n ref : ℕ) (b : MemBucket lru)
      → (get key b.cache).1 ≡ some ref
      → ((consume lru t key n b).0.heap ref ≡ (take_tokens b.size b.rate t n (b.heap ref)).0)
        × ((consume lru t key n b).0.cache ≡ (get key b.cache).0)
        × ((consume lru t key n b).0.size ≡ b.size)
        × ((consume lru t key n b).0.rate ≡ b.rate)
        × ((if (consume lru t key n b).3 then n else 0)
            ≡ (take_tokens b.size b.rate t n (b.heap ref)).1)
  unfolding consume take_tokens fill
  consume_step t key n ref b there = ground arith

  -- In any run of calls of `Consume`, one after another, for a key that is in the cache, with a clock
  -- that does not go back, the tokens of the calls that succeed are at most those that the bucket had
  -- and the rate for each minute from its last check to the last call, and once more for the time
  -- between the two readings of the clock in each call. The cache must keep a key that is read.
  pub consume_all_rate :
      KeepsRead
      → (key : Text) (ref : ℕ) (calls : List (Clock × ℕ)) (b : MemBucket lru)
      → (get key b.cache).1 ≡ some ref
      → AreOrdered (b.heap ref).when calls
      → (consume_all key calls b).1 * minute + b.rate * (b.heap ref).when
        ≤ (b.heap ref).tokens * minute
          + b.rate * last_time (b.heap ref).when calls
          + b.rate * between_readings calls
  unfolding consume_all
  consume_all_rate keeps key ref [] b there ordered = omega arith
  consume_all_rate keeps key ref ((t, n) ∷ calls) b there (here, twice, later) =
      let b' = (consume lru t key n b).0 in
      let (heap, cache, size, rate, taken) = consume_step t key n ref b there in
      let (rated, when) = take_tokens_rate b.size b.rate t n (b.heap ref) here twice in
      let since : (b'.heap ref).when ≡ t.now = rw heap when in
      let still : (get key b'.cache).1 ≡ some ref = rw cache (keeps key ref b.cache there) in
      let ih = consume_all_rate keeps key ref calls b' still (rw since later) in
      omega (
        arith,
        rated,
        ih,
        taken,
        ap (λ (tb : TokenBucket). tb.tokens) heap,
        ap (λ (m : ℕ). b.rate * m) since,
        ap (λ (m : ℕ). b.rate * last_time m calls) since,
        ap (λ (r : ℕ). r * (b'.heap ref).when) rate,
        ap (λ (r : ℕ). r * last_time (b'.heap ref).when calls) rate,
        ap (λ (r : ℕ). r * between_readings calls) rate,
      )

  -- No bucket holds more than the capacity.
  abbrev pub IsWithin : MemBucket lru → Type 0
  IsWithin b = (r : ℕ) → (b.heap r).tokens ≤ b.size

  fill-IsWithin :
      (t : Clock) (key : Text) (b : MemBucket lru)
      → IsWithin b
      → IsWithin (fill lru t key b).0 × ((fill lru t key b).0.size ≡ b.size)
  unfolding fill
  fill-IsWithin t key b within = elim (Option-cases (get key b.cache).1) [
    | inl missing ↦ (λ r. ground (arith, within r), ground arith)
    | inr (ref, there) ↦
        let full = refill-le b.size b.rate t (b.heap ref) (within ref) in
        (λ r. ground (arith, within r, full), ground arith)
  ]

  -- `Consume` keeps every bucket within the capacity, and leaves the capacity as it is.
  pub consume-IsWithin :
      (t : Clock) (key : Text) (n : ℕ) (b : MemBucket lru)
      → IsWithin b
      → IsWithin (consume lru t key n b).0 × ((consume lru t key n b).0.size ≡ b.size)
  unfolding consume
  consume-IsWithin t key n b within =
      let (filled, size) = fill-IsWithin t key b within in
      let ref = (fill lru t key b).1 in
      (
        λ r. unfold store_bucket in ground (arith, filled r, filled ref),
        unfold store_bucket in ground arith,
      )

  -- `Reset` keeps every bucket within the capacity, and leaves the capacity as it is.
  pub reset-IsWithin :
      (now : ℕ) (key : Text) (b : MemBucket lru)
      → IsWithin b
      → IsWithin (reset lru now key b) × ((reset lru now key b).size ≡ b.size)
  unfolding reset
  reset-IsWithin now key b within = elim (Option-cases (get key b.cache).1) [
    | inl missing ↦ (λ r. ground (arith, within r), ground arith)
    | inr (ref, there) ↦ (λ r. ground (arith, within r), ground arith)
  ]
