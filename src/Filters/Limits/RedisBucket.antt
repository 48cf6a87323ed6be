-- ===== src/Filters/Limits/RedisBucket.antt =====
-- filter/limits/container_redis.go: token buckets in a Redis server. The client library redigo and
-- the server are a parameter: what a command does to their state, and what is replied. A pooled
-- connection is opened and closed, and a failed call of the library gives `none`.
pub mod Pool
pub mod Tokens
pub mod Race
use go_relax.Base.{
  ℕ, ◌+◌, ◌*◌, ◌/◌, Bool, true, false, not, ◌&&◌, Option, none, some, List, [], ◌∷◌, ◌==◌, ◌++◌,
  if◌then◌else◌, ℤ, pos, negsuc, pos_part, ◌+ℤ◌, ◌-ℤ◌, ltz,
}
use go_relax.Text.{Text, codes, is_empty}
use go_relax.Filters.Limits.MemBucket.{wait, split_port}

-- The commands of the program; `set_existing` is SET with the option XX, and both set an expiry.
pub data Command : Type 0 where
  multi exec discard : Command
  ttl get : Text → Command
  set set_existing : Text → ℤ → ℕ → Command
  expire : Text → ℕ → Command
  decr_by : Text → ℕ → Command

-- `send` is Conn.Send, and returns whether it has failed; `call` is Conn.Do. `values`, `scan` and
-- `int` are redis.Values, redis.Scan into two integers that are zero before, and redis.Int.
pub record Redis : Type 1 where
  pub S : Type 0
  pub Reply : Type 0
  pub open_conn : S → S
  pub close_conn : S → S
  pub send : Command → S → S × Bool
  pub call : Command → S → S × Option Reply
  pub values : Reply → Option (List Reply)
  pub scan : List Reply → Option (ℤ × ℤ)
  pub int : Reply → Option ℤ

pub record RedisBucket : Type 0 where
  pub size : ℕ
  pub rate : ℕ

abbrev pub min_ℤ : ℤ → ℤ → ℤ
min_ℤ a b = if ltz a b then a else b

-- int(float64(Rate) * minutes) for a time in seconds
abbrev pub delta : ℕ → ℕ → ℕ
delta rate since = (rate * since) / 60

-- The time to live of a missing key is -2.
abbrev pub is_missing : ℤ → Bool
is_missing left = not (ltz left (pos 0 -ℤ pos 2)) && ltz left (pos 0 -ℤ pos 1)

module _ (r : Redis) where
  open r use {S, Reply, open_conn, close_conn, send, call, values, scan, int}

  -- The transaction of `fill`: the values of its reply, or the failure of the library.
  unfoldable pub read_bucket : Text → S → S × Option (List Reply)
  read_bucket key s =
      let s1 = (send multi s).0 in
      let s2 = (send (ttl key) s1).0 in
      let s3 = (send (get key) s2).0 in
      let (s4, reply) = call exec s3 in (s4, elim reply [ none ↦ none | some v ↦ values v ])

  -- panicIf (c.Send …), and then a result
  unfoldable pub send_or_panic : Command → ℤ → S → S × Option ℤ
  send_or_panic command result s =
      let (s', failed) = send command s in (s', if failed then none else some result)

  -- What `fill` makes of the time to live and the tokens that it has read.
  unfoldable pub update_bucket : RedisBucket → Text → ℕ → ℤ → ℤ → S → S × Option ℤ
  unfolding send_or_panic
  update_bucket b key when left tokens s =
      let since = pos when -ℤ left in
      let more = min_ℤ (pos b.size) (tokens +ℤ pos (delta b.rate (pos_part since))) in
      if is_missing left
      then send_or_panic (set key (pos b.size) when) (pos b.size) s
      else if ltz tokens (pos b.size) && ltz (pos 60) since
      then send_or_panic (set_existing key more when) more s
      else send_or_panic (expire key when) tokens s

  -- The part of `fill` between the opening and the closing of its connection; `none` is a panic.
  unfoldable pub fill_open : RedisBucket → Text → S → S × Option ℤ
  fill_open b key s =
      let (s1, reply) = read_bucket key s in
      elim reply [
        | none ↦ ((call discard s1).0, some (pos 0))
        | some vs ↦ elim (scan vs) [
          | none ↦ (s1, none)
          | some (left, tokens) ↦ elim (wait b.rate b.size) [
            | none ↦ (s1, none)
            | some when ↦ update_bucket b key when left tokens s1
          ]
        ]
      ]

  -- fill
  unfoldable pub fill : RedisBucket → Text → S → S × Option ℤ
  fill b key s = let (s', tokens) = fill_open b key (open_conn s) in (close_conn s', tokens)

  abbrev int_or_zero : Option ℤ → ℤ
  int_or_zero none = pos 0
  int_or_zero (some n) = n

  abbrev int_of : Option Reply → Option ℤ
  int_of none = none
  int_of (some v) = int v

  -- DECRBY on a connection of its own; an error gives 0.
  unfoldable pub take : Text → ℕ → S → S × ℤ
  take key n s =
      let (s', reply) = call (decr_by key n) (open_conn s) in
      (close_conn s', int_or_zero (int_of reply))

  -- The panic of `wait` is that of the call.
  abbrev with_wait : ℤ → Bool → Option ℕ → Option (ℤ × ℕ × Bool)
  with_wait tokens ok none = none
  with_wait tokens ok (some when) = some (tokens, when, ok)

  -- What `Consume` does after its call of `fill`.
  unfoldable pub consume_filled : RedisBucket → Text → ℕ → S × Option ℤ → S × Option (ℤ × ℕ × Bool)
  consume_filled b key n (s, none) = (s, none)
  consume_filled b key n (s, some tokens) =
      let (s', left) = take key n s in
      if ltz tokens (pos n)
      then (s, with_wait tokens false (wait b.rate (pos_part (pos n -ℤ tokens))))
      else (s', with_wait left true (wait b.rate b.size))

  -- Consume: the tokens that are left, the time to wait, and whether they were taken.
  unfoldable pub consume : RedisBucket → Text → ℕ → S → S × Option (ℤ × ℕ × Bool)
  consume b key n s = consume_filled b key n (fill b key s)

  -- Reset; `false` is a panic.
  unfoldable pub reset : RedisBucket → Text → S → S × Bool
  reset b key s =
      let s1 = open_conn s in
      elim (wait b.rate b.size) [
        | none ↦ (close_conn s1, false)
        | some when ↦
            let (s2, failed) = send (set_existing key (pos b.size) when) s1 in
            (close_conn s2, not failed)
      ]

-- Capacity
unfoldable pub capacity : RedisBucket → ℕ
capacity b = b.size
